-- ===== src/Qa/Outcome.antt =====
-- The outcome of a run that the master plays (src/processors/qa-project.processor.ts).
use oo_workers.Prelude.{
  any-map, ℕ, ◌≡◌, refl, sym, ◌∙◌, ap, subst, Bool, true, false, ◌||◌, List, [], ◌∷◌, map, any,
  length, Option, none, some, Option-cases, Bool-cases, inl, inr, if◌then◌else◌,
}
use oo_workers.Text.{Text, codes}
use oo_workers.Probes.{is_some}
use oo_workers.Db.{success, failed}
use oo_workers.Scheduler.Dispatch.{QaTest, Attempt, thrown}
use oo_workers.Qa.{create_run, create_qa_execution, qa_run_abandoned}
use oo_workers.Qa.Claim.{IsBelow}
use oo_workers.Qa.Services.{
  Services, Bench, Files, Started, write_scripts, aggregate_outcome, TestStatus,
}
use oo_workers.Qa.Processor.{
  Order, start_tests, settle_all, complete_run, qa_project_processor, play_run,
}
use oo_workers.Qa.Settled.{SameRuns, status_of, rejects}
use oo_workers.Qa.Verdict.{
  any-arrange, falls_short, aggregate_outcome-any, settle_all-good, settle_all-bad,
}
use oo_workers.Qa.Completed.{outcome_at, Closed-outcome, complete_run-good, complete_run-bad}

start_tests-SameRuns :
    (S : Services) (project run : ℕ) (files : Files) (tests : List QaTest) (b : Bench)
    → SameRuns (start_tests S project run files tests b).0 b
unfolding start_tests create_qa_execution
start_tests-SameRuns S project run files [] b = (refl, refl)
start_tests-SameRuns S project run files (t ∷ tests) b =
    elim (Option-cases (S.create_throws t.id)) [
      | inl e ↦
          rw (start_tests, e)
            (start_tests-SameRuns S project run files tests (record b {
              qa = create_qa_execution project (codes "running") none (some run) S.now b.qa;
            }))
      | inr (m, e) ↦ rw (start_tests, e) (start_tests-SameRuns S project run files tests b)
    ]

module _ (S : Services) (O : Order) (project : ℕ) (tests : List QaTest) (b : Bench) where
  abbrev pub scripts : Files
  unfolding write_scripts
  scripts = write_scripts tests []

  -- The tests as they start, the bench with the new run.
  abbrev pub begun_tests : Bench × List Started
  unfolding start_tests create_run
  begun_tests =
      start_tests S project b.qa.next_run scripts tests
        (record b { qa = create_run project none (length tests) S.now b.qa })

  -- A call that the run does not survive throws.
  abbrev pub breaks : Bool
  unfolding any rejects
  breaks = any (rejects S scripts) begun_tests.1 || is_some S.claim_throws

  abbrev pub has_shortfall : Bool
  unfolding any status_of
  has_shortfall = any (λ x. falls_short (status_of S scripts x)) begun_tests.1

  abbrev pub expected_outcome : Option Text
  expected_outcome =
      if breaks
      then (if S.close_out_throws then none else some qa_run_abandoned)
      else some (if has_shortfall then failed else success)

  -- The case where the tests reject.
  broken :
      any (rejects S scripts) begun_tests.1 ≡ true
      → IsBelow b.qa.next_run b.qa.runs
      → (outcome_at b.qa.next_run (play_run S O project tests b).0.qa.runs
          ≡ (if S.close_out_throws then none else some qa_run_abandoned))
        × ((play_run S O project tests b).0.qa.alert_calls ≡ b.qa.alert_calls)
  unfolding play_run create_run
  broken bad below =
      let run = b.qa.next_run in
      let (start, calls0) =
        start_tests-SameRuns S project run scripts tests
          (record b { qa = create_run project none (length tests) S.now b.qa }) in
      let (m, ended, closed) =
        settle_all-bad S scripts project run (O.arrange begun_tests.1) begun_tests.0
          (any-arrange O (rejects S scripts) begun_tests.1 ∙ bad) in
      let out = (settle_all S project run scripts (O.arrange begun_tests.1) begun_tests.0).0 in
      let (outcome, calls) =
        Closed-outcome S project run (length tests) scripts b.qa.runs below out begun_tests.0 start
          closed in
      rw (play_run, ended) (outcome, calls ∙ calls0)

  -- The cases where no test rejects.
  module _ (good : any (rejects S scripts) begun_tests.1 ≡ false)
      (below : IsBelow b.qa.next_run b.qa.runs) where
    abbrev statuses : List TestStatus
    statuses = map (status_of S scripts) (O.arrange begun_tests.1)

    aggregate_outcome-shortfall :
        aggregate_outcome statuses ≡ (if has_shortfall then failed else success)
    unfolding has_shortfall any
    aggregate_outcome-shortfall =
        aggregate_outcome-any statuses
        ∙ ap (λ c. if c then failed else success)
            (any-map falls_short (status_of S scripts) (O.arrange begun_tests.1)
              ∙ any-arrange O (λ x. falls_short (status_of S scripts x)) begun_tests.1)

    completed :
        S.claim_throws ≡ none
        → (outcome_at b.qa.next_run (play_run S O project tests b).0.qa.runs
            ≡ some (if has_shortfall then failed else success))
          × ((play_run S O project tests b).0.qa.alert_calls ≡ b.qa.next_run ∷ b.qa.alert_calls)
    unfolding play_run create_run
    completed claims =
        let run = b.qa.next_run in
        let (start, calls0) =
          start_tests-SameRuns S project run scripts tests
            (record b { qa = create_run project none (length tests) S.now b.qa }) in
        let (ended, (runs, calls)) =
          settle_all-good S scripts project run (O.arrange begun_tests.1) begun_tests.0
            (any-arrange O (rejects S scripts) begun_tests.1 ∙ good) in
        let after = (settle_all S project run scripts (O.arrange begun_tests.1) begun_tests.0).0 in
        let (outcome, calls') =
          complete_run-good S project run (length tests) scripts b.qa.runs below statuses after
            claims (runs ∙ start) in
        rw (play_run, ended)
          (
            outcome ∙ ap some aggregate_outcome-shortfall,
            calls' ∙ ap (λ c. run ∷ c) (calls ∙ calls0),
          )

    unclaimed :
        (m : Text)
        → S.claim_throws ≡ some m
        → (outcome_at b.qa.next_run (play_run S O project tests b).0.qa.runs
            ≡ (if S.close_out_throws then none else some qa_run_abandoned))
          × ((play_run S O project tests b).0.qa.alert_calls ≡ b.qa.alert_calls)
    unfolding play_run create_run
    unclaimed m claims =
        let run = b.qa.next_run in
        let (start, calls0) =
          start_tests-SameRuns S project run scripts tests
            (record b { qa = create_run project none (length tests) S.now b.qa }) in
        let (ended, (runs, calls)) =
          settle_all-good S scripts project run (O.arrange begun_tests.1) begun_tests.0
            (any-arrange O (rejects S scripts) begun_tests.1 ∙ good) in
        let after = (settle_all S project run scripts (O.arrange begun_tests.1) begun_tests.0).0 in
        let out = (complete_run S project run scripts statuses after).0 in
        let (outcome, calls') =
          Closed-outcome S project run (length tests) scripts b.qa.runs below out after
            (runs ∙ start)
            (complete_run-bad S project run (length tests) scripts b.qa.runs below statuses after m
              claims) in
        rw (play_run, ended) (outcome, calls' ∙ calls ∙ calls0)

  play_run-outcome :
      IsBelow b.qa.next_run b.qa.runs
      → (outcome_at b.qa.next_run (play_run S O project tests b).0.qa.runs ≡ expected_outcome)
        × ((play_run S O project tests b).0.qa.alert_calls
            ≡ (if breaks then b.qa.alert_calls else b.qa.next_run ∷ b.qa.alert_calls))
  unfolding breaks any
  play_run-outcome below = elim (Bool-cases (any (rejects S scripts) begun_tests.1)) [
    | inl bad ↦ held true (ap (λ c. c || is_some S.claim_throws) bad) (broken bad below)
    | inr good ↦ elim (Option-cases S.claim_throws) [
      | inl fine ↦
          held false (ap (λ c. c || is_some S.claim_throws) good ∙ ap is_some fine)
            (completed good below fine)
      | inr (m, bad) ↦
          held true (ap (λ c. c || is_some S.claim_throws) good ∙ ap is_some bad)
            (unclaimed good below m bad)
    ]
  ]
    where
      held :
          (c : Bool)
          → breaks ≡ c
          → (outcome_at b.qa.next_run (play_run S O project tests b).0.qa.runs ≡ (
              if c
              then (if S.close_out_throws then none else some qa_run_abandoned)
              else some (if has_shortfall then failed else success)))
            × ((play_run S O project tests b).0.qa.alert_calls
                ≡ (if c then b.qa.alert_calls else b.qa.next_run ∷ b.qa.alert_calls))
          → (outcome_at b.qa.next_run (play_run S O project tests b).0.qa.runs ≡ expected_outcome)
            × ((play_run S O project tests b).0.qa.alert_calls
                ≡ (if breaks then b.qa.alert_calls else b.qa.next_run ∷ b.qa.alert_calls))
      held c e h = rw e h

  plays :
      S.files_throw ≡ none
      → S.create_run_throws ≡ none
      → qa_project_processor S O project tests b ≡ play_run S O project tests b
  unfolding qa_project_processor
  plays files_fine run_fine =
      ap
        (λ (o : Option Text). elim o [
          | some message ↦ (b, thrown message)
          | none ↦ elim S.create_run_throws [
            | some message ↦ (b, thrown message)
            | none ↦ play_run S O project tests b
          ]
        ])
        files_fine
      ∙ ap
          (λ (o : Option Text). elim o [
            | some message ↦ (b, thrown message)
            | none ↦ play_run S O project tests b
          ])
          run_fine

  -- Once the scripts are written and the run is created, and in whatever order the tests end: the run
  -- is recorded as a success if each test passes and as failed otherwise, and the detector is called
  -- for it once, even if the update of the project throws after that. If a test throws whose end
  -- cannot be recorded, or the claim throws, the detector is not called and the run is recorded as
  -- abandoned, or stays open if closing it out throws too.
  pub qa_project_processor-outcome :
      S.files_throw ≡ none
      → S.create_run_throws ≡ none
      → IsBelow b.qa.next_run b.qa.runs
      → (outcome_at b.qa.next_run (qa_project_processor S O project tests b).0.qa.runs
          ≡ expected_outcome)
        × ((qa_project_processor S O project tests b).0.qa.alert_calls
            ≡ (if breaks then b.qa.alert_calls else b.qa.next_run ∷ b.qa.alert_calls))
  qa_project_processor-outcome files_fine run_fine below =
      subst
        (λ (out : Bench × Attempt Text).
          (outcome_at b.qa.next_run out.0.qa.runs ≡ expected_outcome)
          × (out.0.qa.alert_calls
              ≡ (if breaks then b.qa.alert_calls else b.qa.next_run ∷ b.qa.alert_calls)))
        (sym (plays files_fine run_fine)) (play_run-outcome below)
