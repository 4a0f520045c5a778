-- ===== src/Scheduler/Regions.antt =====
-- src/scheduler.ts, `tickRegionStatus`: the online/offline sweep over the regions.
use oo_workers.Prelude.{
  ℕ, ◌-◌, ◌≡◌, refl, ◌≢◌, sym, ap, ◌∙◌, inl, inr, Bool, true, false, List, [], ◌∷◌, arith, ltb,
  ◌==◌, Option, none, some, if◌then◌else◌, Bool-cases, All, ==_iff, ==_refl,
}
use oo_workers.Text.{Text}

pub record Region : Type 0 where
  pub id : ℕ
  pub slug : Text
  pub last_seen_at : Option ℕ

-- One SSE `region` event.
pub record RegionEvent : Type 0 where
  pub region_id : ℕ
  pub online : Bool
  pub last_seen_at : Option ℕ

-- `lastOnlineState`, the module's map, and the events sent so far, the newest first.
pub record Sweep : Type 0 where
  pub last_online : ℕ → Option Bool
  pub sent : List RegionEvent

abbrev pub region_online_threshold_ms : ℕ
region_online_threshold_ms = 60000

-- A last contact in the future counts as online, as a negative age does in the source.
unfoldable pub is_online : ℕ → Option ℕ → Bool
is_online now none = false
is_online now (some seen) = ltb (now - seen) region_online_threshold_ms

abbrev remember : ℕ → Bool → Sweep → Sweep
remember id b s = record s { last_online = λ i. if id == i then some b else s.last_online i }

abbrev differs : Bool → Bool → Bool
differs true b = elim b [ true ↦ false | false ↦ true ]
differs false b = b

unfoldable pub sweep_region : Region → Bool → Option Bool → Sweep → Sweep
sweep_region r online none s = remember r.id online s
sweep_region r online (some prev) s =
    if differs prev online
    then record (remember r.id online s) {
      sent = record { region_id = r.id; online = online; last_seen_at = r.last_seen_at } ∷ s.sent;
    }
    else s

unfoldable pub tick_region_status : ℕ → List Region → Sweep → Sweep
unfolding is_online sweep_region
tick_region_status now [] s = s
tick_region_status now (r ∷ rs) s =
    tick_region_status now rs (sweep_region r (is_online now r.last_seen_at) (s.last_online r.id) s)

-- What has been sent about one region, the newest first.
pub statuses : ℕ → List RegionEvent → List Bool
statuses id [] = []
statuses id (e ∷ es) = if e.region_id == id then e.online ∷ statuses id es else statuses id es

-- Every status differs from the one sent before it.
abbrev pub IsAlternating : List Bool → Type 0
IsAlternating [] = Unit
IsAlternating (b ∷ []) = Unit
IsAlternating (b ∷ c ∷ bs) = (b ≢ c) × IsAlternating (c ∷ bs)

abbrev IsNewest : Option Bool → List Bool → Type 0
IsNewest o [] = Unit
IsNewest o (b ∷ bs) = o ≡ some b

abbrev IsSound : ℕ → Sweep → Type 0
IsSound id s = IsAlternating (statuses id s.sent) × IsNewest (s.last_online id) (statuses id s.sent)

IsAlternating-cons :
    (o : Option Bool) (p b : Bool) (bs : List Bool)
    → o ≡ some p
    → p ≢ b
    → IsNewest o bs
    → IsAlternating bs
    → IsAlternating (b ∷ bs)
IsAlternating-cons o p b [] e n w h = tt
IsAlternating-cons o p b (c ∷ bs) e n w h = ((λ q. n (ground (arith, q, e, w))), h)

IsNewest-none : (bs : List Bool) (o q : Option Bool) → o ≡ none → IsNewest o bs → IsNewest q bs
IsNewest-none [] o q e w = tt
IsNewest-none (b ∷ bs) o q e w = cc

differs_sound : (p b : Bool) → differs p b ≡ true → p ≢ b
differs_sound true true h = cc
differs_sound true false h = cc
differs_sound false true h = cc
differs_sound false false h = cc

sweep_region-IsSound :
    (id : ℕ) (r : Region) (online : Bool) (prev : Option Bool) (s : Sweep)
    → s.last_online r.id ≡ prev
    → IsSound id s
    → IsSound id (sweep_region r online prev s)
unfolding sweep_region statuses
sweep_region-IsSound id r online none s e (alt, new) = elim (Bool-cases (r.id == id)) [
  | inl same ↦
      let same_id : s.last_online id ≡ none =
        ap s.last_online (sym ((==_iff r.id id).0 same)) ∙ e in
      (alt, rw same (IsNewest-none (statuses id s.sent) _ (some online) same_id new))
  | inr other ↦ (alt, rw other new)
]
sweep_region-IsSound id r online (some prev) s e (alt, new) =
    elim (Bool-cases (differs prev online)) [
      | inr stay ↦ rw (stay, sweep_region) (alt, new)
      | inl flips ↦ elim (Bool-cases (r.id == id)) [
        | inl same ↦
            let same_id : s.last_online id ≡ some prev =
              ap s.last_online (sym ((==_iff r.id id).0 same)) ∙ e in
            rw (flips, sweep_region, same)
              (
                IsAlternating-cons _ prev online (statuses id s.sent) same_id
                    (differs_sound prev online flips) new alt,
                refl,
              )
        | inr other ↦ rw (flips, sweep_region, other) (alt, new)
      ]
    ]

tick-IsSound :
    (id now : ℕ) (rs : List Region) (s : Sweep)
    → IsSound id s
    → IsSound id (tick_region_status now rs s)
unfolding tick_region_status
tick-IsSound id now [] s h = h
tick-IsSound id now (r ∷ rs) s h =
    tick-IsSound id now rs _ (sweep_region-IsSound id r (is_online now r.last_seen_at) _ s refl h)

-- The sweeps of a process, each with its time and the regions that it read.
unfoldable pub sweeps : List (ℕ × List Region) → Sweep → Sweep
unfolding tick_region_status
sweeps [] s = s
sweeps ((now, rs) ∷ rest) s = sweeps rest (tick_region_status now rs s)

unfoldable pub unswept : Sweep
unswept = record { last_online = λ id. none; sent = [] }

sweeps-IsSound :
    (id : ℕ) (ts : List (ℕ × List Region)) (s : Sweep) → IsSound id s → IsSound id (sweeps ts s)
unfolding sweeps
sweeps-IsSound id [] s h = h
sweeps-IsSound id ((now, rs) ∷ rest) s h = sweeps-IsSound id rest _ (tick-IsSound id now rs s h)

-- Whatever the sweeps read, the events about a region alternate between online and offline, and
-- the newest one is the state that the map holds for the region.
pub sweeps-IsAlternating :
    (id : ℕ) (ts : List (ℕ × List Region))
    → IsAlternating (statuses id (sweeps ts unswept).sent)
      × (((b : Bool) (bs : List Bool)
          → statuses id (sweeps ts unswept).sent ≡ b ∷ bs
          → (sweeps ts unswept).last_online id ≡ some b))
sweeps-IsAlternating id ts =
    let (alt, new) = sweeps-IsSound id ts unswept (unfold unswept statuses in (tt, tt)) in
    (alt, λ b bs e. rw e at new)

-- No two regions have one id.
abbrev pub HasNewIds : ℕ → List Region → Type 0
HasNewIds id rs = All (λ r. r.id ≢ id) rs

abbrev pub IsDistinct : List Region → Type 0
IsDistinct [] = Unit
IsDistinct (r ∷ rs) = HasNewIds r.id rs × IsDistinct rs

sweep_region-last_online :
    (r : Region) (online : Bool) (prev : Option Bool) (s : Sweep) (id : ℕ)
    → s.last_online r.id ≡ prev
    → (sweep_region r online prev s).last_online id
      ≡ (if r.id == id then some online else s.last_online id)
unfolding sweep_region
sweep_region-last_online r online none s id e = refl
sweep_region-last_online r online (some prev) s id e = elim (Bool-cases (differs prev online)) [
  | inl flips ↦ rw (flips, sweep_region) refl
  | inr stay ↦ elim (Bool-cases (r.id == id)) [
    | inl same ↦
        rw (stay, sweep_region, same)
          (ap s.last_online (sym ((==_iff r.id id).0 same)) ∙ e ∙ ap some (equal prev online stay))
    | inr other ↦ rw (stay, sweep_region, other) refl
  ]
]
  where
    equal : (p b : Bool) → differs p b ≡ false → p ≡ b
    equal p b h = ground arith

tick_old_id :
    (now id : ℕ) (rs : List Region) (s : Sweep)
    → HasNewIds id rs
    → (tick_region_status now rs s).last_online id ≡ s.last_online id
unfolding tick_region_status
tick_old_id now id [] s h = refl
tick_old_id now id (r ∷ rs) s (n, h) =
    tick_old_id now id rs _ h
    ∙ sweep_region-last_online r _ _ s id refl
    ∙ elim (Bool-cases (r.id == id)) [
      | inl same ↦ absurd (n ((==_iff r.id id).0 same))
      | inr other ↦ rw other refl
    ]

-- A sweep that read each id once leaves the state of each region that it read in the map.
tick-last_online :
    (now : ℕ) (rs : List Region) (s : Sweep)
    → IsDistinct rs
    → All
        (λ r. (tick_region_status now rs s).last_online r.id ≡ some (is_online now r.last_seen_at))
        rs
unfolding tick_region_status
tick-last_online now [] s d = tt
tick-last_online now (r ∷ rs) s (n, d) = (
  tick_old_id now r.id rs _ n ∙ sweep_region-last_online r _ _ s r.id refl ∙ rw (==_refl r.id) refl,
  tick-last_online now rs _ d,
)
