-- ===== src/Tests/Browser.antt =====
-- Runs of the processor of browser checks: src/processors/qa-project.processor.ts.
use oo_workers.Prelude.{
  ◌≡◌, refl, Bool, true, false, List, [], ◌∷◌, none, some, arith, if◌then◌else◌,
}
use oo_workers.Text.{codes, text_eq}
use oo_workers.Scheduler.Dispatch.{QaTest, done}
use oo_workers.Qa.{QaRun}
use oo_workers.Qa.Completed.{outcome_at}
use oo_workers.Qa.Outcome.{breaks, expected_outcome, qa_project_processor-outcome}
use oo_workers.Qa.Services.{
  Services, Bench, PlaywrightResult, write_scripts, read_file, safe_test_name,
}
use oo_workers.Qa.Processor.{Order, qa_project_processor}

abbrev result : Bool → PlaywrightResult
result good = record {
  success = good;
  duration_ms = 40;
  error = if good then none else some (codes "Timed out");
  logs = [];
  artifacts =
      record {
        name = codes "trace";
        path = codes "/tmp/trace.zip";
        content_type = codes "application/zip";
      }
      ∷ [];
}

-- A blip of the database at the end of the run.
abbrev services : Services
services = record {
  files_throw = none;
  create_run_throws = none;
  create_throws = λ test. none;
  play = λ script. done (result (text_eq script (codes "ok")));
  storage_configured = true;
  artifact_key = λ id file. file;
  artifact_throws = λ key. false;
  update_throws = λ id. none;
  second_update_throws = λ id. none;
  claim_throws = none;
  touch_throws = some (codes "connection lost");
  close_out_throws = false;
  now = 5000;
  failed_after_ms = λ id. 9;
}

abbrev in_turn : Order
in_turn = record { arrange = λ xs. xs; same = λ p xs. refl }

abbrev two_tests : List QaTest
two_tests =
    record { id = 1; name = codes "Log in"; script = codes "ok" }
    ∷ record { id = 2; name = codes "log-in"; script = codes "fail" }
    ∷ []

abbrev old_run : QaRun
old_run = record {
  id = 6;
  project_id = 3;
  region_id = none;
  expected_tests = 2;
  started_at = 1000;
  outcome = some (codes "SUCCESS");
  alerted_at = some 2000;
}

abbrev bench : Bench
bench = record {
  qa = record {
    runs = old_run ∷ [];
    next_run = 7;
    execs = [];
    next_exec = 20;
    alert_calls = 6 ∷ [];
    abandoned = [];
  };
  emitted = [];
  touched = false;
}

qa_project_processor-outcome_example :
    (outcome_at 7 (qa_project_processor services in_turn 3 two_tests bench).0.qa.runs
      ≡ expected_outcome services in_turn 3 two_tests bench)
    × ((qa_project_processor services in_turn 3 two_tests bench).0.qa.alert_calls
        ≡ (if breaks services in_turn 3 two_tests bench then 6 ∷ [] else 7 ∷ 6 ∷ []))
qa_project_processor-outcome_example =
    qa_project_processor-outcome services in_turn 3 two_tests bench refl refl (omega arith, tt)

-- Both tests have one file, and the second script is what it holds.
same_file : read_file (safe_test_name (codes "Log in")) (write_scripts two_tests []) ≡ codes "fail"
unfolding read_file safe_test_name write_scripts
same_file = refl
