-- ===== src/Heartbeat/Sweep.antt =====
-- What a tick does to the heartbeats, and a ping that comes between its query and its update
-- (src/scheduler.ts, `tickHeartbeats`).
use mathlib.Core.Path.{ap₂}
use oo_workers.Prelude.{
  ℕ, ◌≡◌, refl, ◌≢◌, sym, ◌∙◌, ap, subst, Bool, true, false, ◌&&◌, List, [], ◌∷◌, some, arith, All,
  All-both, All-keep, All-imp, ◌==◌, ==_refl, ==_ne, if◌then◌else◌, keep, keep-All, modify, map,
  any, Bool-cases, Option-cases, inl, inr, and-true,
}
use oo_workers.Db.{failed}
use oo_workers.Alert.{AlertContext, outage}
use oo_workers.Heartbeat.{
  Heartbeat, Board, is_up, is_due, find_overdue, marked, is_markable, mark_overdue, sweep_one,
  sweep_all, tick_heartbeats, heartbeat_alert, overdue_message,
}
use oo_workers.Heartbeat.Rows.{
  IsTable, find_row, if_up, changed, find_row-modify, modify-IsTable, keep-IsTable, found_id,
}
use oo_workers.Heartbeat.Marks.{mark_overdue-eq}

abbrev is_listed : List Heartbeat → Heartbeat → Bool
is_listed hs r = any (λ h. r.id == h.id) hs

-- A row after the whole sweep.
abbrev swept : List Heartbeat → Heartbeat → Heartbeat
swept hs r = if is_listed hs r && is_up r.status then marked r else r

swept-step :
    (h : Heartbeat) (hs : List Heartbeat) (r : Heartbeat)
    → swept hs (if is_markable h.id r then marked r else r) ≡ swept (h ∷ hs) r
unfolding any
swept-step h hs r = elim (Bool-cases (r.id == h.id)) [
  | inl same ↦ elim (Bool-cases (is_up r.status)) [
    | inl waits ↦ rw (same, waits) (ground arith)
    | inr idle ↦ rw (same, idle) (ground (arith, idle))
  ]
  | inr other ↦ rw other refl
]

map-modify :
    (h : Heartbeat) (hs rs : List Heartbeat)
    → map (swept hs) (modify (is_markable h.id) marked rs) ≡ map (swept (h ∷ hs)) rs
unfolding modify
map-modify h hs [] = refl
map-modify h hs (r ∷ rs) = ap₂ ◌∷◌ (swept-step h hs r) (map-modify h hs rs)

pub sweep_one-rows :
    (now : ℕ) (h : Heartbeat) (b : Board)
    → (sweep_one now h b).rows ≡ modify (is_markable h.id) marked b.rows
unfolding sweep_one mark_overdue
sweep_one-rows now h b = elim (Option-cases (mark_overdue h.id b.rows).1) [
  | inl idle ↦ rw (idle, sweep_one) refl
  | inr (r, hit) ↦ rw (hit, sweep_one) refl
]

map_same : (rs : List Heartbeat) → map (swept []) rs ≡ rs
unfolding any
map_same [] = refl
map_same (r ∷ rs) = ap (λ xs. r ∷ xs) (map_same rs)

sweep_all-rows :
    (now : ℕ) (hs : List Heartbeat) (b : Board) → (sweep_all now hs b).rows ≡ map (swept hs) b.rows
unfolding sweep_all
sweep_all-rows now [] b = sym (map_same b.rows)
sweep_all-rows now (h ∷ hs) b =
    sweep_all-rows now hs (sweep_one now h b)
    ∙ ap (map (swept hs)) (sweep_one-rows now h b)
    ∙ map-modify h hs b.rows

-- A row that is overdue already, and one that is not UP.
marked_not_due : (now : ℕ) (r : Heartbeat) → is_due now (marked r) ≡ false
marked_not_due now r = ground arith

idle_not_due : (now : ℕ) (r : Heartbeat) → is_up r.status ≡ false → is_due now r ≡ false
idle_not_due now r h = ground (arith, h)

-- A sweep of a list with every due row leaves none of the rows due.
swept_not_due :
    (now : ℕ) (hs : List Heartbeat) (r : Heartbeat)
    → (is_due now r ≡ true → is_listed hs r ≡ true)
    → is_due now (swept hs r) ≡ false
swept_not_due now hs r h = elim (Bool-cases (is_listed hs r && is_up r.status)) [
  | inl hit ↦
      let e : swept hs r ≡ marked r = rw hit refl in ap (is_due now) e ∙ marked_not_due now r
  | inr miss ↦
      let e : swept hs r ≡ r = rw miss refl in
      ap (is_due now) e ∙ elim (Bool-cases (is_due now r)) [
        | inr fine ↦ fine
        | inl due ↦ idle_not_due now r (rw (h due) at miss)
      ]
]

any_cons :
    (h r : Heartbeat) (hs : List Heartbeat) → is_listed hs r ≡ true → is_listed (h ∷ hs) r ≡ true
unfolding any
any_cons h r hs e = ground arith

-- Every due row of the table is in the list.
abbrev AreListed : ℕ → List Heartbeat → List Heartbeat → Type 0
AreListed now rs hs = All (λ (r : Heartbeat). is_due now r ≡ true → is_listed hs r ≡ true) rs

listed_due : (now : ℕ) (rs : List Heartbeat) → AreListed now rs (keep (is_due now) rs)
unfolding keep any
listed_due now [] = tt
listed_due now (r ∷ rs) = elim (Bool-cases (is_due now r)) [
  | inl due ↦
      let kept : keep (is_due now) (r ∷ rs) ≡ r ∷ keep (is_due now) rs = rw (due, keep) refl in
      subst (AreListed now (r ∷ rs)) (sym kept) (
        (λ e. rw (==_refl r.id) refl),
        All-imp _ _ rs (λ q k e. any_cons r q (keep (is_due now) rs) (k e)) (listed_due now rs),
      )
  | inr fine ↦
      let kept : keep (is_due now) (r ∷ rs) ≡ keep (is_due now) rs = rw (fine, keep) refl in
      subst (AreListed now (r ∷ rs)) (sym kept) ((λ e. cc (e, fine)), listed_due now rs)
]

none_due :
    (now : ℕ) (hs rs : List Heartbeat)
    → AreListed now rs hs
    → keep (is_due now) (map (swept hs) rs) ≡ []
unfolding keep
none_due now hs [] k = refl
none_due now hs (r ∷ rs) (h, k) = rw (swept_not_due now hs r h, keep) (none_due now hs rs k)

-- After a tick no heartbeat is overdue without being marked so.
find_overdue-tick_heartbeats :
    (now : ℕ) (b : Board) → find_overdue now (tick_heartbeats now b).rows ≡ []
unfolding find_overdue tick_heartbeats
find_overdue-tick_heartbeats now b =
    ap (keep (is_due now)) (sweep_all-rows now (keep (is_due now) b.rows) b)
    ∙ none_due now (keep (is_due now) b.rows) b.rows (listed_due now b.rows)

-- The alerts of a tick: one outage for each heartbeat of a list, in its order.
pub outages : ℕ → List Heartbeat → List AlertContext → List AlertContext
outages now [] alerts = alerts
outages now (h ∷ hs) alerts = outages now hs (
    heartbeat_alert h.id h.name outage failed (some (overdue_message now h h.last_ping_at)) now
    ∷ alerts)

-- A heartbeat that is in the table and UP.
abbrev pub IsWaiting : List Heartbeat → Heartbeat → Type 0
IsWaiting rows h = (q : Heartbeat) × (find_row h.id rows ≡ some q) × (is_up q.status ≡ true)

pub sweep_one-alerts :
    (now : ℕ) (h : Heartbeat) (b : Board)
    → IsTable b.rows
    → IsWaiting b.rows h
    → (sweep_one now h b).alerts
      ≡ heartbeat_alert h.id h.name outage failed (some (overdue_message now h h.last_ping_at)) now
        ∷ b.alerts
unfolding sweep_one
sweep_one-alerts now h b t (q, found, waits) =
    rw (mark_overdue-eq h.id b.rows t, found, if_up, waits, sweep_one) refl

-- Another heartbeat still waits.
sweep_one-IsWaiting :
    (now : ℕ) (h g : Heartbeat) (b : Board)
    → g.id ≢ h.id
    → IsWaiting b.rows g
    → IsWaiting (sweep_one now h b).rows g
sweep_one-IsWaiting now h g b n (q, found, waits) =
    let missed : is_markable h.id q ≡ false =
      rw (==_ne q.id h.id (λ e. n (sym (found_id g.id b.rows q found) ∙ e))) refl in
    (
      q,
      ap (find_row g.id) (sweep_one-rows now h b)
          ∙ find_row-modify (is_markable h.id) marked (λ r. refl) (λ r. refl) g.id b.rows
          ∙ rw (found, changed, missed) refl,
      waits,
    )

sweep_one-IsTable :
    (now : ℕ) (h : Heartbeat) (b : Board) → IsTable b.rows → IsTable (sweep_one now h b).rows
sweep_one-IsTable now h b t =
    rw (sweep_one-rows now h b)
      (modify-IsTable (is_markable h.id) marked (λ r. refl) (λ r. refl) b.rows t)

sweep_all-alerts :
    (now : ℕ) (hs : List Heartbeat) (b : Board)
    → IsTable b.rows
    → IsTable hs
    → All (IsWaiting b.rows) hs
    → (sweep_all now hs b).alerts ≡ outages now hs b.alerts
unfolding sweep_all outages
sweep_all-alerts now [] b t d w = refl
sweep_all-alerts now (h ∷ hs) b t (n, d) (w, ws) =
    sweep_all-alerts now hs (sweep_one now h b) (sweep_one-IsTable now h b t) d (
      All-imp _ _ hs (λ g (differs, waits). sweep_one-IsWaiting now h g b differs.0 waits)
        (All-both _ _ hs n ws))
    ∙ ap (outages now hs) (sweep_one-alerts now h b t w)

-- Each row of a table is found by its id.
found-All :
    (rs : List Heartbeat) → IsTable rs → All (λ (r : Heartbeat). find_row r.id rs ≡ some r) rs
unfolding find_row
found-All [] t = tt
found-All (r ∷ rs) (d, t) = (
  rw (==_refl r.id) refl,
  All-imp _ _ rs (λ q (differs, f). rw (==_ne r.id q.id (λ e. differs.0 (sym e))) f)
      (All-both _ _ rs d (found-All rs t)),
)

-- If ids and tokens are unique, a tick sends one outage for each heartbeat that was overdue, in
-- order, and no other alert.
pub tick_heartbeats-alerts :
    (now : ℕ) (b : Board)
    → IsTable b.rows
    → (tick_heartbeats now b).alerts ≡ outages now (find_overdue now b.rows) b.alerts
unfolding tick_heartbeats find_overdue
tick_heartbeats-alerts now b t =
    sweep_all-alerts now (keep (is_due now) b.rows) b t (keep-IsTable (is_due now) b.rows t) (
      All-imp _ _ (keep (is_due now) b.rows)
        (λ r (due, found). (r, found, (and-true _ _ (and-true _ _ due).1).0))
        (All-both _ _ (keep (is_due now) b.rows) (All-keep (is_due now) b.rows)
          (keep-All _ (is_due now) b.rows (found-All b.rows t))))
