-- ===== src/Transition/Runs.antt =====
-- `maybeAlertOnQaRunTransition` of src/services/transition-detector.ts: the verdict of a whole run
-- against the one before it. `Rows` has what it finds, `Verdicts` its law.
pub mod Rows
pub mod Verdicts
use oo_workers.Prelude.{
  ℕ, Bool, false, ◌&&◌, ◌||◌, List, [], Option, none, some, ◌==◌, ltb, opt_eq, keep, if◌then◌else◌,
}
use oo_workers.Text.{Text, text_eq}
use oo_workers.Db.{MonitorType, success, failed}
use oo_workers.Alert.{AlertContext}
use oo_workers.Qa.{QaRun, find_run}
use oo_workers.Transition.{normalize_outcome}
use oo_workers.Transition.Latest.{latest}
use oo_workers.Transition.Probes.{Lookups, ◌>>=◌, event_of, monitor_meta, region_slug_by_id}

-- `outcome IN ('SUCCESS', 'FAILED')`, which a null is not.
abbrev pub is_verdict : Option Text → Bool
is_verdict none = false
is_verdict (some s) = text_eq s success || text_eq s failed

-- The `WHERE` of the previous run: `IS NULL` for a run of the master, `=` for one of a region.
unfoldable pub is_previous_run : QaRun → QaRun → Bool
is_previous_run run r =
    r.project_id == run.project_id
    && (opt_eq r.region_id run.region_id
        && (ltb r.started_at run.started_at && is_verdict r.outcome))

-- What `if (!run?.outcome) return` lets through.
abbrev pub truthy : Option Text → Option Text
truthy none = none
truthy (some s) = if text_eq s [] then none else some s

-- `maybeAlertOnQaRunTransition`: the context that is handed to `dispatchAlert`, if any.
unfoldable pub maybe_alert_on_qa_run_transition : Lookups → List QaRun → ℕ → Option AlertContext
unfolding find_run keep latest is_previous_run event_of monitor_meta normalize_outcome
maybe_alert_on_qa_run_transition l runs run_id = if l.throws then none else do
  run ← find_run run_id runs
  outcome ← truthy run.outcome
  prev ← latest (λ r. r.started_at) (keep (is_previous_run run) runs)
  prev_outcome ← truthy prev.outcome
  event ← event_of (normalize_outcome prev_outcome) (normalize_outcome outcome)
  (name, target) ← monitor_meta l MonitorType.qa run.project_id
  some (record {
    type = MonitorType.qa;
    id = run.project_id;
    name = name;
    target = target;
    event = event;
    status = outcome;
    status_code = none;
    error_message = none;
    duration_ms = none;
    start_time = run.started_at;
    region_slug = region_slug_by_id l.slug run.region_id;
  })
