-- ===== src/Qa/Verdict.antt =====
-- What the master records of a browser-check run (src/processors/qa-project.processor.ts).
use oo_workers.Prelude.{
  any-keep, ℕ, ◌≡◌, refl, sym, ◌∙◌, ap, Bool, true, false, ◌||◌, List, [], ◌∷◌, map, any, keep,
  length, ltb, Bool-cases, inl, inr, arith, if◌then◌else◌,
}
use oo_workers.Text.{Text}
use oo_workers.Db.{success, failed}
use oo_workers.Scheduler.Dispatch.{done, thrown}
use oo_workers.Qa.{QaRun, claim_rows, qa_run_abandoned}
use oo_workers.Qa.Services.{
  Services, Bench, Files, Started, TestStatus, test_passed, test_failed, test_error,
  aggregate_outcome, is_error, is_failure,
}
use oo_workers.Qa.Processor.{Order, settle_test, settle_all, close_out_aborted_run}
use oo_workers.Qa.Settled.{
  SameRuns, status_of, rejects, settle_test-SameRuns, settle_test-status, settle_test-rejects,
  settle_late-SameRuns, close_out-runs,
}

pub any-arrange :
    (O : Order) (p : Started → Bool) (xs : List Started) → any p (O.arrange xs) ≡ any p xs
any-arrange O p xs = any-keep p (O.arrange xs) ∙ ap (ltb 0) (O.same p xs) ∙ sym (any-keep p xs)

abbrev pub falls_short : TestStatus → Bool
falls_short test_passed = false
falls_short _ = true

any-either : (ys : List TestStatus) → (any is_error ys || any is_failure ys) ≡ any falls_short ys
unfolding any
any-either [] = refl
any-either (test_passed ∷ ys) = any-either ys
any-either (test_failed ∷ ys) = ground arith
any-either (test_error ∷ ys) = refl

pub aggregate_outcome-any :
    (xs : List TestStatus) → aggregate_outcome xs ≡ (if any falls_short xs then failed else success)
unfolding aggregate_outcome
aggregate_outcome-any xs =
    ap (λ b. if b then failed else success)
      (ap (λ b. b || ltb 0 (length (keep is_failure xs))) (sym (any-keep is_error xs))
        ∙ ap (λ b. any is_error xs || b) (sym (any-keep is_failure xs))
        ∙ any-either xs)

module _ (S : Services) (files : Files) (project run : ℕ) where
  pub settle_all-good :
      (xs : List Started) (b : Bench)
      → any (rejects S files) xs ≡ false
      → ((settle_all S project run files xs b).1 ≡ done (map (status_of S files) xs))
        × SameRuns (settle_all S project run files xs b).0 b
  unfolding settle_all any
  settle_all-good [] b h = (refl, (refl, refl))
  settle_all-good (x ∷ xs) b h =
      let here : rejects S files x ≡ false = ground (arith, h) in
      let later : any (rejects S files) xs ≡ false = ground (arith, h) in
      let b' = (settle_test S project run files x b).0 in
      let (ended, (runs, calls)) = settle_all-good xs b' later in
      let (runs', calls') = settle_test-SameRuns S files project run x b in
      rw (settle_all, settle_test-status S files project run x b here, ended)
        (refl, (runs ∙ runs', calls ∙ calls'))

  -- A run that is closed out, unless that throws.
  abbrev pub Closed : Bench → Bench → Type 0
  Closed out b =
      (out.qa.runs ≡ (
        if S.close_out_throws
        then b.qa.runs
        else (claim_rows run qa_run_abandoned S.now b.qa.runs).0))
      × (out.qa.alert_calls ≡ b.qa.alert_calls)

  pub settle_all-bad :
      (xs : List Started) (b : Bench)
      → any (rejects S files) xs ≡ true
      → (m : Text) × ((settle_all S project run files xs b).1 ≡ thrown m)
        × Closed (settle_all S project run files xs b).0 b
  unfolding settle_all any
  settle_all-bad [] b h = absurd (ground (arith, h))
  settle_all-bad (x ∷ xs) b h =
      let b' = (settle_test S project run files x b).0 in
      let (runs', calls') = settle_test-SameRuns S files project run x b in
      let close : List QaRun → List QaRun =
        λ rs. if S.close_out_throws then rs else (claim_rows run qa_run_abandoned S.now rs).0 in
      elim (Bool-cases (rejects S files x)) [
        | inl bad ↦
            let (m, e) = settle_test-rejects S files project run x b bad in
            let (late, late_calls) =
              settle_late-SameRuns S files project run xs
                (close_out_aborted_run S project run files m b') in
            let (closed, closed_calls) = close_out-runs S files project run m b' in
            rw (settle_all, e)
              (m, refl, (late ∙ closed ∙ ap close runs', late_calls ∙ closed_calls ∙ calls'))
        | inr good ↦
            let (m, ended, (runs, calls)) = settle_all-bad xs b' (rw (any, good) at h) in
            rw (settle_all, settle_test-status S files project run x b good, ended)
              (m, refl, (runs ∙ ap close runs', calls ∙ calls'))
      ]
