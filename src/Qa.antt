-- ===== src/Qa.antt =====
-- The life of a browser-check run: src/db/repositories/qa-project.repo.ts (`createRun`,
-- `createExecution`, `runProgress`, `claimRunAlert`, `findAbandonedRuns`, `markRunTestsAbandoned`),
-- src/services/qa-run-closeout.ts, `writeQaAgentResult` of src/services/agent-result-writers.ts and
-- `tickAbandonedQaRuns` of src/scheduler.ts. `Claim` and `Once` have the laws of the claim.
pub mod Claim
pub mod Once
pub mod Services
pub mod Processor
pub mod Settled
pub mod Verdict
pub mod Completed
pub mod Outcome
use oo_workers.Prelude.{
  ℕ, suc, ◌+◌, ◌-◌, ◌*◌, ◌/◌, Bool, true, false, ◌&&◌, ◌||◌, List, [], ◌∷◌, ◌++◌, Option, none,
  some, ◌==◌, ltb, leb, if◌then◌else◌, opt_eq, keep, take, length, map,
}
use oo_workers.Text.{Text, codes, text_eq, to_upper}
use oo_workers.Text.Decimal.{show}
use oo_workers.Db.{
  MonitorType, Extra, Exec, no_extra, artifacts, is_row, update_where, success, failed,
}

-- A row of `qa_runs`; `alerted_at` is set once the run is finalized.
pub record QaRun : Type 0 where
  pub id : ℕ
  pub project_id : ℕ
  pub region_id : Option ℕ
  pub expected_tests : ℕ
  pub started_at : ℕ
  pub outcome : Option Text
  pub alerted_at : Option ℕ

abbrev pub qa_run_abandoned : Text
qa_run_abandoned = codes "ABANDONED"

abbrev pub qa_exec_abandoned : Text
qa_exec_abandoned = codes "abandoned"

abbrev pub is_none {ℓ} : {A : Type ℓ} → Option A → Bool
is_none none = true
is_none (some a) = false

abbrev pub is_some {ℓ} : {A : Type ℓ} → Option A → Bool
is_some none = false
is_some (some a) = true

-- The tables, the runs for which the detector has been called, and the runs that were closed out.
pub record QaState : Type 0 where
  pub runs : List QaRun
  pub next_run : ℕ
  pub execs : List Exec
  pub next_exec : ℕ
  pub alert_calls : List ℕ
  pub abandoned : List ℕ

-- `createRun`.
unfoldable pub create_run : ℕ → Option ℕ → ℕ → ℕ → QaState → QaState
create_run project region expected now s = record s {
  runs =
      record {
        id = s.next_run;
        project_id = project;
        region_id = region;
        expected_tests = expected;
        started_at = now;
        outcome = none;
        alerted_at = none;
      }
      ∷ s.runs;
  next_run = suc s.next_run;
}

-- `createExecution` of a test of a run.
unfoldable pub create_qa_execution : ℕ → Text → Option ℕ → Option ℕ → ℕ → QaState → QaState
create_qa_execution project status region run now s = record s {
  execs =
      record {
        kind = MonitorType.qa;
        id = s.next_exec;
        monitor_id = project;
        region_id = region;
        run_id = run;
        status = status;
        latency_ms = none;
        error_message = none;
        extra = no_extra;
        start_time = now;
        end_time = none;
      }
      ∷ s.execs;
  next_exec = suc s.next_exec;
}

pub record Progress : Type 0 where
  pub expected_tests : ℕ
  pub completed : ℕ
  pub down_count : ℕ

abbrev of_run : ℕ → Exec → Bool
of_run run e = opt_eq e.run_id (some run)

abbrev pub is_completed : Exec → Bool
is_completed e = is_some e.end_time

-- `UPPER(status) IN ('FAILED','FAILURE','ERROR')`.
abbrev pub is_down : Exec → Bool
is_down e =
    let s = to_upper e.status in
    text_eq s (codes "FAILED") || text_eq s (codes "FAILURE") || text_eq s (codes "ERROR")

unfoldable pub find_run : ℕ → List QaRun → Option QaRun
find_run id [] = none
find_run id (r ∷ rs) = if r.id == id then some r else find_run id rs

abbrev progress_of : List Exec → Option QaRun → Option Progress
progress_of es none = none
progress_of es (some r) = some (record {
  expected_tests = r.expected_tests;
  completed = length (keep is_completed es);
  down_count = length (keep (λ e. is_completed e && is_down e) es);
})

-- `runProgress`.
unfoldable pub run_progress : ℕ → QaState → Option Progress
unfolding find_run keep
run_progress run s = progress_of (keep (of_run run) s.execs) (find_run run s.runs)

-- `UPDATE qa_runs SET … WHERE id = … AND alerted_at IS NULL`, with the number of rows it changed.
unfoldable pub claim_rows : ℕ → Text → ℕ → List QaRun → List QaRun × ℕ
claim_rows id outcome now [] = ([], 0)
claim_rows id outcome now (r ∷ rs) =
    let (rs', n) = claim_rows id outcome now rs in
    if r.id == id && is_none r.alerted_at
    then (record r { outcome = some outcome; alerted_at = some now } ∷ rs', suc n)
    else (r ∷ rs', n)

-- `claimRunAlert`.
unfoldable pub claim_run_alert : ℕ → Text → ℕ → QaState → QaState × Bool
unfolding claim_rows
claim_run_alert id outcome now s =
    let (runs, n) = claim_rows id outcome now s.runs in (record s { runs = runs }, n == 1)

-- `markRunTestsAbandoned`: the rows of the run without a `completedAt`, and their ids.
abbrev is_stranded : ℕ → Exec → Bool
is_stranded run e = of_run run e && is_none e.end_time

unfoldable pub mark_run_tests_abandoned : ℕ → Text → ℕ → QaState → QaState × List ℕ
unfolding keep update_where
mark_run_tests_abandoned run message now s = (
  record s {
    execs =
        update_where (is_stranded run)
          (λ e. record e {
            status = qa_exec_abandoned;
            error_message = some message;
            end_time = some now;
          })
          s.execs;
  },
  map (λ e. e.id) (keep (is_stranded run) s.execs),
)

-- `finalizeUnfinishedQaRun`; the events for the stranded rows are the ids that it stamps.
unfoldable pub finalize_unfinished_qa_run : ℕ → Text → ℕ → QaState → QaState × Bool
unfolding claim_run_alert mark_run_tests_abandoned
finalize_unfinished_qa_run run message now s =
    let (s', won) = claim_run_alert run qa_run_abandoned now s in
    if won
    then (let s'' = (mark_run_tests_abandoned run message now s').0 in
        (record s'' { abandoned = run ∷ s''.abandoned }, true))
    else (s', false)

-- `ORDER BY id`.
insert_by_id : QaRun → List QaRun → List QaRun
insert_by_id r [] = r ∷ []
insert_by_id r (q ∷ qs) = if leb r.id q.id then r ∷ q ∷ qs else q ∷ insert_by_id r qs

sort_by_id : List QaRun → List QaRun
unfolding insert_by_id
sort_by_id [] = []
sort_by_id (r ∷ rs) = insert_by_id r (sort_by_id rs)

-- `findAbandonedRuns`, with its limit of 100.
unfoldable pub find_abandoned_runs : ℕ → QaState → List QaRun
unfolding sort_by_id keep
find_abandoned_runs cutoff s = take 100 (
    sort_by_id
      (keep (λ r. is_none r.outcome && (is_none r.alerted_at && ltb r.started_at cutoff)) s.runs))

abbrev pub qa_run_abandoned_ms : ℕ
qa_run_abandoned_ms = 900000

-- `Math.round(x / 60_000)`.
abbrev pub minutes : ℕ → ℕ
minutes ms = (ms + 30000) / 60000

sweep_runs : ℕ → List QaRun → QaState → QaState
unfolding finalize_unfinished_qa_run
sweep_runs now [] s = s
sweep_runs now (r ∷ rs) s =
    sweep_runs now rs
      (finalize_unfinished_qa_run r.id
        (codes "abandoned: run produced no result within "
          ++ (show (minutes (now - r.started_at)) ++ codes "m"))
        now s).0

-- `tickAbandonedQaRuns`.
unfoldable pub tick_abandoned_qa_runs : ℕ → QaState → QaState
unfolding sweep_runs find_abandoned_runs
tick_abandoned_qa_runs now s = sweep_runs now (find_abandoned_runs (now - qa_run_abandoned_ms) s) s

-- What an agent reports of one test.
pub record QaResult : Type 0 where
  pub execution_id : ℕ
  pub status : Text
  pub latency_ms : Option ℕ
  pub error_message : Option Text
  pub trace_url : Option Text
  pub screenshot_urls : List Text

abbrev pub owned_row : ℕ → ℕ → Exec → Bool
owned_row region id e = is_row MonitorType.qa id e && opt_eq e.region_id (some region)

-- The aggregate of a run, once all its tests have reported.
unfoldable pub verdict_of : Progress → Option Text
verdict_of p =
    if leb p.expected_tests p.completed
    then some (if ltb 0 p.down_count then failed else success)
    else none

conclude : ℕ → ℕ → Option Text → QaState → QaState
unfolding claim_run_alert
conclude run now none s = s
conclude run now (some outcome) s =
    let (s', won) = claim_run_alert run outcome now s in
    if won then record s' { alert_calls = run ∷ s'.alert_calls } else s'

abbrev verdict_opt : Option Progress → Option Text
verdict_opt none = none
verdict_opt (some p) = verdict_of p

settle_run : ℕ → Option ℕ → QaState → QaState
unfolding conclude run_progress verdict_of
settle_run now none s = s
settle_run now (some run) s = conclude run now (verdict_opt (run_progress run s)) s

after_update : ℕ → List Exec → QaState → QaState × Bool
unfolding settle_run
after_update now (row ∷ []) s = (settle_run now row.run_id s, true)
after_update now _ s = (s, false)

-- `writeQaAgentResult`: whether the row was the region's, and the new state.
unfoldable pub write_qa_agent_result : ℕ → QaResult → ℕ → QaState → QaState × Bool
unfolding after_update keep update_where
write_qa_agent_result region b now s =
    after_update now (keep (owned_row region b.execution_id) s.execs) (record s {
      execs =
          update_where (owned_row region b.execution_id)
            (λ e. record e {
              status = b.status;
              latency_ms = b.latency_ms;
              error_message = b.error_message;
              end_time = some now;
              extra = artifacts b.trace_url b.screenshot_urls;
            })
            s.execs;
    })
