-- ===== src/Tests/Runs.antt =====
-- Runs of browser checks: src/db/repositories/qa-project.repo.ts and its callers.
use oo_workers.Prelude.{◌≤◌, List, [], ◌∷◌, none, some}
use oo_workers.Text.{codes}
use oo_workers.Qa.{QaResult}
use oo_workers.Qa.Once.{
  Op, open_run, open_test, report, give_up, sweep, apply_all, no_runs, finalized, finalized-le-one,
}

abbrev passed : QaResult
passed = record {
  execution_id = 1;
  status = codes "passed";
  latency_ms = some 900;
  error_message = none;
  trace_url = none;
  screenshot_urls = [];
}

abbrev late_report : List Op
late_report =
    open_run 4 (some 7) 1 1000
    ∷ open_test 4 (codes "running") (some 7) (some 1) 1000
    ∷ sweep 2000000
    ∷ report 7 passed 2000001
    ∷ give_up 1 (codes "no result") 2000002
    ∷ []

finalized-le-one_example : finalized 1 (apply_all late_report no_runs) ≤ 1
finalized-le-one_example = finalized-le-one 1 late_report
