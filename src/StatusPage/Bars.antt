-- ===== src/StatusPage/Bars.antt =====
-- The ninety bars of a monitor (src/services/status-page-aggregator.ts, `summarizeMonitor`).
use native.Mathlib.Nat.{div-add-mod, mod-lt}
use oo_workers.Prelude.{
  ℕ, zero, suc, ◌-◌, ◌*◌, ◌≤◌, ◌<◌, ◌≡◌, refl, sym, ◌∙◌, ap, Bool, true, ◌&&◌, ◌↔◌, ◌⊎◌, List, [],
  ◌∷◌, some, arith, ◌==◌, ==_iff, leb, any, keep, head_opt, drop, subst, length, le→leb, Bool-cases,
  inl, inr, and-true,
}
use mathlib.Core.Option.{some-injective}
use oo_workers.Db.{MonitorType, Exec}
use oo_workers.StatusPage.{
  DayState, is_of, is_failure, is_success, day_ms, day_of, bucket, bar_of, bar, bars,
}

-- A failed run of the monitor on a day.
abbrev pub FailedOn : MonitorType → ℕ → ℕ → List Exec → Type 0
FailedOn kind id day [] = ⊥
FailedOn kind id day (r ∷ rows) =
    ((is_of kind id r ≡ true) × (day_of r.start_time ≡ day) × (is_failure r ≡ true))
    ⊎ FailedOn kind id day rows

-- A time on one of the ninety days is not cut off.
in_window :
    (now i t : ℕ)
    → i < 90
    → 90 * day_ms ≤ now
    → day_of t ≡ day_of (now - i * day_ms)
    → now - 90 * day_ms ≤ t
in_window now i t lt long e = omega (
  arith,
  lt,
  long,
  div-add-mod t day_ms,
  div-add-mod (now - i * day_ms) day_ms,
  mod-lt t {m = day_ms} (omega arith),
  mod-lt (now - i * day_ms) {m = day_ms} (omega arith),
  ap (λ (q : ℕ). day_ms * q) e,
)

down_bar : (rows : List Exec) → (bar_of rows ≡ DayState.down) ↔ (any is_failure rows ≡ true)
unfolding bar_of
down_bar rows = (
  λ e. elim (Bool-cases (any is_failure rows)) [
    | inl hit ↦ hit
    | inr miss ↦ elim (Bool-cases (any is_success rows)) [
      | inl good ↦ absurd (up_not_down (rw (miss, good) at e))
      | inr empty ↦ absurd (unknown_not_down (rw (miss, empty) at e))
    ]
  ],
  λ h. rw h refl,
)
  where
    up_not_down : DayState.up ≡ DayState.down → ⊥
    up_not_down e = cc e

    unknown_not_down : DayState.unknown ≡ DayState.down → ⊥
    unknown_not_down e = cc e

abbrev in_bucket : MonitorType → ℕ → ℕ → ℕ → Exec → Bool
in_bucket kind id since day r =
    is_of kind id r && (leb since r.start_time && day_of r.start_time == day)

module _ (kind : MonitorType) (id since day : ℕ) (cut : (t : ℕ) → day_of t ≡ day → since ≤ t) where
  in_bucket_iff :
      (r : Exec)
      → (in_bucket kind id since day r ≡ true)
        ↔ ((is_of kind id r ≡ true) × (day_of r.start_time ≡ day))
  in_bucket_iff r = (
    λ h.
        let (mine, rest) =
          and-true (is_of kind id r) (leb since r.start_time && day_of r.start_time == day) h in
        (
          mine,
          (==_iff (day_of r.start_time) day).0
              (and-true (leb since r.start_time) (day_of r.start_time == day) rest).1,
        ),
    λ (mine, same).
        let late : leb since r.start_time ≡ true =
          le→leb since r.start_time (cut r.start_time same) in
        rw (mine, late, (==_iff (day_of r.start_time) day).1 same) refl,
  )

  any-FailedOn :
      (rows : List Exec)
      → any is_failure (keep (in_bucket kind id since day) rows) ≡ true
      → FailedOn kind id day rows
  unfolding any keep
  any-FailedOn [] h = absurd (ground arith)
  any-FailedOn (r ∷ rows) h = elim (Bool-cases (in_bucket kind id since day r)) [
    | inr miss ↦ inr (any-FailedOn rows (rw (miss, keep) at h))
    | inl hit ↦ elim (Bool-cases (is_failure r)) [
      | inl bad ↦ let (mine, same) = (in_bucket_iff r).0 hit in inl (mine, same, bad)
      | inr fine ↦ inr (any-FailedOn rows (rw (hit, keep, fine) at h))
    ]
  ]

  FailedOn-any :
      (rows : List Exec)
      → FailedOn kind id day rows
      → any is_failure (keep (in_bucket kind id since day) rows) ≡ true
  unfolding any keep
  FailedOn-any [] h = absurd h
  FailedOn-any (r ∷ rows) (inl (mine, same, bad)) =
      rw ((in_bucket_iff r).1 (mine, same), keep, bad) refl
  FailedOn-any (r ∷ rows) (inr h) = elim (Bool-cases (in_bucket kind id since day r)) [
    | inr miss ↦ rw (miss, keep) (FailedOn-any rows h)
    | inl hit ↦ rw (hit, keep, FailedOn-any rows h) (ground arith)
  ]

bar_iff :
    (kind : MonitorType) (id now : ℕ) (rows : List Exec) (i : ℕ)
    → (bar kind id now rows i ≡ DayState.down) ↔ (
        any is_failure
          (keep (in_bucket kind id (now - 90 * day_ms) (day_of (now - i * day_ms))) rows)
        ≡ true)
unfolding bar bucket
bar_iff kind id now rows i =
    down_bar (bucket kind id (now - 90 * day_ms) (day_of (now - i * day_ms)) rows)

module _ (kind : MonitorType) (id now : ℕ) (rows : List Exec) where
  bars-slot :
      (n d : ℕ)
      → d < n
      → head_opt (drop d (bars kind id now rows n)) ≡ some (bar kind id now rows (n - suc d))
  unfolding bars
  bars-slot zero d lt = absurd (omega (arith, lt))
  bars-slot (suc n) zero lt = ap (λ k. some (bar kind id now rows k)) (omega arith)
  bars-slot (suc n) (suc d) lt =
      bars-slot n d (omega (arith, lt)) ∙ ap (λ k. some (bar kind id now rows k)) (omega arith)

  length-bars : (n : ℕ) → length (bars kind id now rows n) ≡ n
  unfolding bars
  length-bars zero = refl
  length-bars (suc n) = ap suc (length-bars n)

  -- If the epoch lies at least ninety days back, there are ninety bars, the oldest day first and today last, and the bar of a day is `down`
  -- exactly if a run of the monitor failed on that day.
  pub bars-down_iff :
      (d : ℕ)
      → d < 90
      → 90 * day_ms ≤ now
      → (length (bars kind id now rows 90) ≡ 90)
        × ((head_opt (drop d (bars kind id now rows 90)) ≡ some DayState.down)
            ↔ FailedOn kind id (day_of (now - (89 - d) * day_ms)) rows)
  bars-down_iff d lt long =
      let i = 90 - suc d in
      let slot = bars-slot 90 d lt in
      let cut : (t : ℕ) → day_of t ≡ day_of (now - i * day_ms) → now - 90 * day_ms ≤ t =
        λ t e. in_window now i t (omega arith) long e in
      let same_day : day_of (now - i * day_ms) ≡ day_of (now - (89 - d) * day_ms) =
        ap (λ k. day_of (now - k * day_ms)) (omega (arith, lt)) in
      (
        length-bars 90,
        (
          λ e.
              subst (λ day. FailedOn kind id day rows) same_day
                (any-FailedOn kind id (now - 90 * day_ms) (day_of (now - i * day_ms)) cut rows
                  ((bar_iff kind id now rows i).0 (some-injective _ _ (sym slot ∙ e)))),
          λ h.
              slot
              ∙ ap some (
                  (bar_iff kind id now rows i).1 (
                    FailedOn-any kind id (now - 90 * day_ms) (day_of (now - i * day_ms)) cut rows
                      (subst (λ day. FailedOn kind id day rows) (sym same_day) h))),
        ),
      )
