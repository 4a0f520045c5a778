-- ===== src/Qa/Processor.antt =====
-- The master's processor of browser checks: src/processors/qa-project.processor.ts. What the services
-- around it run into is a record, and so is the order in which the tests of a run come to an end.
-- Messages to subscribers, which never throw, are left out.
use oo_workers.Prelude.{
  ℕ, Bool, true, List, [], ◌∷◌, ◌++◌, Option, none, some, length, keep, if◌then◌else◌, ◌≡◌,
}
use oo_workers.Text.{Text, codes}
use oo_workers.Db.{MonitorType, Exec, artifacts, is_row, update_where}
use oo_workers.Scheduler.Dispatch.{QaTest, Attempt, done, thrown}
use oo_workers.Qa.{create_run, create_qa_execution, claim_run_alert, finalize_unfinished_qa_run}
use oo_workers.Qa.Services.{
  Bench, Files, Services, Started, TestStatus, Uploaded, aggregate_outcome, read_file, refused,
  running, safe_test_name, status_name, stored_artifacts, test_error, verdict_on, write_scripts,
}

module _ (S : Services) where
  module _ (project run : ℕ) (files : Files) where
    -- `testPromises`, up to the first wait of each: the row of the execution.
    unfoldable pub start_tests : List QaTest → Bench → Bench × List Started
    unfolding create_qa_execution
    start_tests [] b = (b, [])
    start_tests (t ∷ tests) b =
        let id = b.qa.next_exec in
        let made = start_tests tests (record b {
          qa = create_qa_execution project (codes "running") none (some run) S.now b.qa;
        }) in
        let missed = start_tests tests b in
        elim (S.create_throws t.id) [
          | none ↦ (made.0, running t id ∷ made.1)
          | some message ↦ (missed.0, refused ∷ missed.1)
        ]

    -- The row and the event of a test that has come to an end.
    unfoldable pub record_test : ℕ → TestStatus → ℕ → Option Text → Option Uploaded → Bench → Bench
    unfolding update_where
    record_test exec_id status took message uploaded b = record b {
      qa = record b.qa {
        execs =
            update_where (is_row MonitorType.qa exec_id)
              (λ (e : Exec). record e {
                status = status_name status;
                end_time = some S.now;
                latency_ms = some took;
                error_message = message;
                extra = elim uploaded [
                  | none ↦ e.extra
                  | some u ↦ artifacts u.trace_url u.screenshot_urls
                ];
              })
              b.qa.execs;
      };
      emitted =
          record {
            kind = MonitorType.qa;
            monitor_id = project;
            id = exec_id;
            status = status_name status;
            latency_ms = some took;
            status_code = none;
            error_message = message;
            region_id = none;
          }
          ∷ b.emitted;
    }

    -- The inner `catch`, whose own update may throw.
    unfoldable pub catch_test : ℕ → Text → Bench → Bench × Attempt TestStatus
    unfolding record_test
    catch_test exec_id message b = elim (S.second_update_throws exec_id) [
      | some message' ↦ (b, thrown message')
      | none ↦ (
        record_test exec_id test_error (S.failed_after_ms exec_id) (some message) none b,
        done test_error,
      )
    ]

    -- What one of `testPromises` comes to.
    unfoldable pub settle_test : Started → Bench → Bench × Attempt TestStatus
    unfolding catch_test record_test stored_artifacts read_file safe_test_name
    settle_test refused b = (b, done test_error)
    settle_test (running t exec_id) b = elim (S.play (read_file (safe_test_name t.name) files)) [
      | thrown message ↦ catch_test exec_id message b
      | done r ↦ elim (S.update_throws exec_id) [
        | some message ↦ catch_test exec_id message b
        | none ↦ (
          record_test exec_id (verdict_on r) r.duration_ms r.error
              (some (stored_artifacts S exec_id r)) b,
          done (verdict_on r),
        )
      ]
    ]

    -- `closeOutAbortedRun`.
    unfoldable pub close_out_aborted_run : Text → Bench → Bench
    unfolding finalize_unfinished_qa_run
    close_out_aborted_run message b = if S.close_out_throws then b else record b {
      qa = (finalize_unfinished_qa_run run (codes "run aborted: " ++ message) S.now b.qa).0;
    }

    -- Tests that end after the run has been closed out.
    unfoldable pub settle_late : List Started → Bench → Bench
    unfolding settle_test
    settle_late [] b = b
    settle_late (x ∷ rest) b = settle_late rest (settle_test x b).0

    -- `Promise.all`, with the close-out as soon as one test rejects; the others go on.
    unfoldable pub settle_all : List Started → Bench → Bench × Attempt (List TestStatus)
    unfolding settle_test settle_late close_out_aborted_run
    settle_all [] b = (b, done [])
    settle_all (x ∷ rest) b =
        let (b', ended) = settle_test x b in
        let (b'', statuses) = settle_all rest b' in
        elim ended [
          | thrown message ↦ (settle_late rest (close_out_aborted_run message b'), thrown message)
          | done status ↦ elim statuses [
            | thrown message ↦ (b'', thrown message)
            | done others ↦ (b'', done (status ∷ others))
          ]
        ]

    -- From the claim to the return.
    unfoldable pub complete_run : List TestStatus → Bench → Bench × Attempt Text
    unfolding aggregate_outcome claim_run_alert close_out_aborted_run
    complete_run results b = elim S.claim_throws [
      | some message ↦ (close_out_aborted_run message b, thrown message)
      | none ↦
          let (qa, won) = claim_run_alert run (aggregate_outcome results) S.now b.qa in
          let b' = record b {
            qa = if won then record qa { alert_calls = run ∷ qa.alert_calls } else qa;
          } in
          elim S.touch_throws [
            | some message ↦ (close_out_aborted_run message b', thrown message)
            | none ↦ (record b' { touched = true }, done (aggregate_outcome results))
          ]
    ]

-- The order in which the tests of a run come to an end: each of them does, once.
pub record Order : Type 0 where
  pub arrange : List Started → List Started
  pub same :
      (p : Started → Bool) (xs : List Started) → length (keep p (arrange xs)) ≡ length (keep p xs)

module _ (S : Services) (O : Order) (project : ℕ) (tests : List QaTest) where
  -- From the creation of the run on.
  unfoldable pub play_run : Bench → Bench × Attempt Text
  unfolding create_run start_tests settle_all complete_run write_scripts
  play_run b =
      let run = b.qa.next_run in
      let files = write_scripts tests [] in
      let (b1, started) =
        start_tests S project run files tests
          (record b { qa = create_run project none (length tests) S.now b.qa }) in
      let (b2, ended) = settle_all S project run files (O.arrange started) b1 in
      elim ended [
        | thrown message ↦ (b2, thrown message)
        | done results ↦ complete_run S project run files results b2
      ]

  -- The processor, on a job of a project with its tests.
  unfoldable pub qa_project_processor : Bench → Bench × Attempt Text
  unfolding play_run
  qa_project_processor b = elim S.files_throw [
    | some message ↦ (b, thrown message)
    | none ↦ elim S.create_run_throws [ some message ↦ (b, thrown message) | none ↦ play_run b ]
  ]
