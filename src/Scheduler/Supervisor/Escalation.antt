-- ===== src/Scheduler/Supervisor/Escalation.antt =====
-- When a run of failed ticks is escalated (src/scheduler.ts, `startScheduler`).
use native.Mathlib.Nat.{pow-suc, pow-le-pow_right}
use oo_workers.Prelude.{
  ℕ, zero, suc, ◌*◌, ◌^◌, ◌≤◌, ◌<◌, ◌≡◌, refl, ap, ◌∙◌, ◌⊎◌, inl, inr, ◌↔◌, ◌≢◌, true, List, [],
  ◌∷◌, arith, Bool-cases, if◌then◌else◌,
}
use oo_workers.Text.{Text}
use oo_workers.Scheduler.Supervisor.{Supervisor, boot, escalates, on_failure, LogLine, stalled}

-- The state after a number of failed ticks in a row.
unfoldable pub after_failures : Text → ℕ → Supervisor
after_failures message zero = boot
after_failures message (suc n) = on_failure message (after_failures message n)

abbrev step : ℕ → ℕ
step j = 3 * 2 ^ j

step-suc : (j : ℕ) → step (suc j) ≡ 2 * step j
step-suc j = omega (arith, pow-suc 2 j)

step_mono : (i j : ℕ) → i ≤ j → step i ≤ step j
step_mono i j h = omega (arith, pow-le-pow_right {n = 2} (omega arith) h)

-- Either no escalation is due yet, or the last one was at the greatest step reached.
abbrev IsOnTrack : ℕ → ℕ → Type 0
IsOnTrack n last =
    ((n < 3) × (last ≡ 0)) ⊎ ((j : ℕ) × (last ≡ step j) × (step j ≤ n) × (n < step (suc j)))

abbrev IsStep : ℕ → Type 0
IsStep n = (j : ℕ) × (n ≡ step j)

-- Between two steps lies no other.
step_between : (n i j : ℕ) → step j < n → n ≤ step (suc j) → n ≡ step i → i ≡ suc j
step_between n i j lo hi e = omega (arith, below, above)
  where
    below : i ≤ j → ⊥
    below h = omega (arith, step_mono i j h)

    above : suc (suc j) ≤ i → ⊥
    above h =
        omega
          (arith, step_mono (suc (suc j)) i h, step-suc (suc j), step_mono 0 (suc j) (omega arith))

escalates_iff : (n last : ℕ) → IsOnTrack n last → (escalates (suc n) last ≡ true) ↔ IsStep (suc n)
unfolding escalates
escalates_iff n last (inl (small, e)) =
    (λ h. (0, ground (arith, pow-suc 2 0)), λ (j, f). ground (arith, step_mono 0 j (omega arith)))
escalates_iff n last (inr (j, e, lo, hi)) = (
  λ h. (suc j, ground (arith, step-suc j, step_mono 0 j (omega arith))),
  λ (i, f). ground (
    arith,
    step-suc j,
    step_mono 0 j (omega arith),
    f,
    ap step (step_between (suc n) i j (omega arith) (omega arith) f),
  ),
)

next_last : ℕ → ℕ → ℕ
next_last n last = if escalates (suc n) last then suc n else last

next_last-IsOnTrack : (n last : ℕ) → IsOnTrack n last → IsOnTrack (suc n) (next_last n last)
unfolding next_last
next_last-IsOnTrack n last t = elim (Bool-cases (escalates (suc n) last)) [
  | inl up ↦
      let (j, e) = (escalates_iff n last t).0 up in
      rw up (inr (j, e, omega (arith, e), omega (arith, step-suc j, e)))
  | inr stay ↦ rw stay (later t (λ s. cc (stay, (escalates_iff n last t).1 s)))
]
  where
    later : IsOnTrack n last → (IsStep (suc n) → ⊥) → IsOnTrack (suc n) last
    later (inl (small, e)) no_step =
        inl (omega (arith, λ (f : n ≡ 2). no_step (0, omega (arith, f))), e)
    later (inr (j, e, lo, hi)) no_step =
        inr (j, e, omega arith, omega (arith, λ (f : suc n ≡ step (suc j)). no_step (suc j, f)))

on_failure_lem :
    (message : Text) (s : Supervisor)
    → ((on_failure message s).consecutive_failures ≡ suc s.consecutive_failures)
      × ((on_failure message s).last_escalation
          ≡ next_last s.consecutive_failures s.last_escalation)
unfolding on_failure next_last
on_failure_lem message s =
    elim (Bool-cases (escalates (suc s.consecutive_failures) s.last_escalation)) [
      | inl up ↦ rw (up, on_failure) (refl, refl)
      | inr stay ↦ rw (stay, on_failure) (refl, refl)
    ]

after_failures_lem :
    (message : Text) (n : ℕ)
    → ((after_failures message n).consecutive_failures ≡ n)
      × IsOnTrack n (after_failures message n).last_escalation
unfolding after_failures
after_failures_lem message zero = unfold boot in (refl, inl (omega arith, refl))
after_failures_lem message (suc n) =
    let (count, track) = after_failures_lem message n in
    let (fails, last) = on_failure_lem message (after_failures message n) in
    (fails ∙ ap suc count, rw (last, count) (next_last-IsOnTrack n _ track))

-- The escalations in a log.
pub stalls : List LogLine → ℕ
stalls [] = 0
stalls (stalled n ∷ log) = suc (stalls log)
stalls (line ∷ log) = stalls log

stalls-on_failure :
    (message : Text) (s : Supervisor)
    → stalls (on_failure message s).log ≡ (
        if escalates (suc s.consecutive_failures) s.last_escalation
        then suc (stalls s.log)
        else stalls s.log)
unfolding on_failure stalls
stalls-on_failure message s =
    elim (Bool-cases (escalates (suc s.consecutive_failures) s.last_escalation)) [
      | inl up ↦ rw (up, on_failure) refl
      | inr stay ↦ rw (stay, on_failure) refl
    ]

-- The n-th failed tick in a row is escalated exactly when n is 3, 6, 12, 24, … (3 times a power of
-- two); otherwise the escalations logged so far stay as they were.
pub escalation_steps :
    (message : Text) (n : ℕ)
    → ((stalls (after_failures message (suc n)).log ≡ suc (stalls (after_failures message n).log))
        ↔ ((j : ℕ) × (suc n ≡ 3 * 2 ^ j)))
      × (((j : ℕ) → suc n ≢ 3 * 2 ^ j)
          → stalls (after_failures message (suc n)).log ≡ stalls (after_failures message n).log)
unfolding after_failures
escalation_steps message n =
    let s = after_failures message n in
    let (count, track) = after_failures_lem message n in
    let iff = escalates_iff n s.last_escalation track in
    let test : escalates (suc s.consecutive_failures) s.last_escalation
        ≡ escalates (suc n) s.last_escalation =
      ap (λ k. escalates (suc k) s.last_escalation) count in
    elim (Bool-cases (escalates (suc n) s.last_escalation)) [
      | inl up ↦
          let grows : stalls (on_failure message s).log ≡ suc (stalls s.log) =
            stalls-on_failure message s ∙ rw (test, up) refl in
          ((λ _. iff.0 up, λ _. grows), λ none_such. absurd (none_such (iff.0 up).0 (iff.0 up).1))
      | inr stay ↦
          let same : stalls (on_failure message s).log ≡ stalls s.log =
            stalls-on_failure message s ∙ rw (test, stay) refl in
          ((λ g. absurd (omega (arith, same, g)), λ st. cc (stay, iff.1 st)), λ _. same)
    ]
