-- ===== src/Qa/Settled.antt =====
-- What the tests of a run come to (src/processors/qa-project.processor.ts), and that they leave the
-- rows of the runs alone.
use oo_workers.Prelude.{
  ℕ, ◌≡◌, refl, ◌∙◌, Bool, true, false, ◌&&◌, List, [], ◌∷◌, ◌==◌, Option-cases, Bool-cases, inl,
  inr, arith, if◌then◌else◌,
}
use oo_workers.Text.{Text}
use oo_workers.Probes.{is_some}
use oo_workers.Scheduler.Dispatch.{QaTest, Attempt, done, thrown}
use oo_workers.Api.Paths.{Attempt-cases}
use oo_workers.Qa.{
  claim_rows, claim_run_alert, finalize_unfinished_qa_run, mark_run_tests_abandoned,
  qa_run_abandoned,
}
use oo_workers.Qa.Services.{
  Services, Bench, Files, Started, refused, running, TestStatus, test_error, PlaywrightResult,
  safe_test_name, read_file, verdict_on,
}
use oo_workers.Qa.Processor.{
  settle_test, settle_late, catch_test, record_test, close_out_aborted_run,
}

-- Two benches with the same runs and the same calls of the detector.
abbrev pub SameRuns : Bench → Bench → Type 0
SameRuns a b = (a.qa.runs ≡ b.qa.runs) × (a.qa.alert_calls ≡ b.qa.alert_calls)

module _ (S : Services) (files : Files) where
  -- What Playwright makes of the file of a test.
  abbrev pub played : QaTest → Attempt PlaywrightResult
  unfolding safe_test_name read_file
  played t = S.play (read_file (safe_test_name t.name) files)

  unfoldable pub status_of : Started → TestStatus
  status_of refused = test_error
  status_of (running t id) = elim (played t) [
    | thrown message ↦ test_error
    | done r ↦ if is_some (S.update_throws id) then test_error else verdict_on r
  ]

  -- The test throws, and so does the update that is to record it.
  unfoldable pub rejects : Started → Bool
  rejects refused = false
  rejects (running t id) =
      is_some (S.second_update_throws id)
      && elim (played t) [ thrown message ↦ true | done r ↦ is_some (S.update_throws id) ]

  module _ (project run : ℕ) where
    catch_test-settles :
        (id : ℕ) (message : Text) (b : Bench)
        → SameRuns (catch_test S project run files id message b).0 b
    unfolding catch_test record_test
    catch_test-settles id message b = elim (Option-cases (S.second_update_throws id)) [
      | inl e ↦ rw (catch_test, e) (refl, refl)
      | inr (m, e) ↦ rw (catch_test, e) (refl, refl)
    ]

    pub settle_test-SameRuns :
        (x : Started) (b : Bench) → SameRuns (settle_test S project run files x b).0 b
    unfolding settle_test record_test
    settle_test-SameRuns refused b = (refl, refl)
    settle_test-SameRuns (running t id) b = elim (Attempt-cases (played t)) [
      | inr (m, e) ↦ rw (settle_test, e) (catch_test-settles id m b)
      | inl (r, e) ↦ elim (Option-cases (S.update_throws id)) [
        | inl u ↦ rw (settle_test, e, u) (refl, refl)
        | inr (m, u) ↦ rw (settle_test, e, u) (catch_test-settles id m b)
      ]
    ]

    pub settle_test-status :
        (x : Started) (b : Bench)
        → rejects x ≡ false
        → (settle_test S project run files x b).1 ≡ done (status_of x)
    unfolding settle_test catch_test rejects status_of
    settle_test-status refused b h = refl
    settle_test-status (running t id) b h = elim (Attempt-cases (played t)) [
      | inr (m, e) ↦ elim (Option-cases (S.second_update_throws id)) [
        | inl s ↦ rw (settle_test, catch_test, status_of, e, s) refl
        | inr (m', s) ↦ absurd (ground (arith, rw (rejects, e, s) at h))
      ]
      | inl (r, e) ↦ elim (Option-cases (S.update_throws id)) [
        | inl u ↦ rw (settle_test, status_of, e, u) refl
        | inr (m, u) ↦ elim (Option-cases (S.second_update_throws id)) [
          | inl s ↦ rw (settle_test, catch_test, status_of, e, u, s) refl
          | inr (m', s) ↦ absurd (ground (arith, rw (rejects, e, u, s) at h))
        ]
      ]
    ]

    pub settle_test-rejects :
        (x : Started) (b : Bench)
        → rejects x ≡ true
        → (m : Text) × ((settle_test S project run files x b).1 ≡ thrown m)
    unfolding settle_test catch_test rejects
    settle_test-rejects refused b h = absurd (ground (arith, h))
    settle_test-rejects (running t id) b h = elim (Option-cases (S.second_update_throws id)) [
      | inl s ↦ absurd (ground (arith, rw (rejects, s) at h))
      | inr (m', s) ↦ elim (Attempt-cases (played t)) [
        | inr (m, e) ↦ (m', rw (settle_test, catch_test, e, s) refl)
        | inl (r, e) ↦ elim (Option-cases (S.update_throws id)) [
          | inl u ↦ absurd (ground (arith, rw (rejects, e, u, s) at h))
          | inr (m, u) ↦ (m', rw (settle_test, catch_test, e, u, s) refl)
        ]
      ]
    ]

    pub settle_late-SameRuns :
        (xs : List Started) (b : Bench) → SameRuns (settle_late S project run files xs b) b
    unfolding settle_late
    settle_late-SameRuns [] b = (refl, refl)
    settle_late-SameRuns (x ∷ xs) b =
        let (r, c) = settle_late-SameRuns xs (settle_test S project run files x b).0 in
        let (r', c') = settle_test-SameRuns x b in (r ∙ r', c ∙ c')

    pub close_out-runs :
        (m : Text) (b : Bench)
        → ((close_out_aborted_run S project run files m b).qa.runs ≡ (
            if S.close_out_throws
            then b.qa.runs
            else (claim_rows run qa_run_abandoned S.now b.qa.runs).0))
          × ((close_out_aborted_run S project run files m b).qa.alert_calls ≡ b.qa.alert_calls)
    unfolding close_out_aborted_run finalize_unfinished_qa_run claim_run_alert
        mark_run_tests_abandoned
    close_out-runs m b = elim (Bool-cases S.close_out_throws) [
      | inl e ↦ rw (close_out_aborted_run, e) (refl, refl)
      | inr e ↦ elim (Bool-cases ((claim_rows run qa_run_abandoned S.now b.qa.runs).1 == 1)) [
        | inl won ↦ rw (close_out_aborted_run, e, won) (refl, refl)
        | inr lost ↦ rw (close_out_aborted_run, e, lost) (refl, refl)
      ]
    ]
