-- ===== src/Results/Agent.antt =====
-- `writeAgentResult` and its tails: src/services/agent-dispatch.ts, and `writeUrlAgentResult` and
-- `writeApiAgentResult` of src/services/agent-result-writers.ts.
use oo_workers.Prelude.{
  ℕ, Bool, true, false, ◌&&◌, ◌||◌, List, [], ◌∷◌, Option, none, some, opt_eq, keep, if◌then◌else◌,
}
use oo_workers.Text.{Text, text_eq}
use oo_workers.Db.{
  MonitorType, Days, Extra, Exec, AssertionResult, http, response, banner, response_bytes,
  certificate, no_extra, is_row, update_where, success, failed,
}
use oo_workers.Results.{Desk, AlertCall, ExecutionEvent, call, emit}

-- `AgentResultBody`, without the fields of browser checks.
pub record AgentResult : Type 0 where
  pub type : MonitorType
  pub execution_id : ℕ
  pub status : Text
  pub latency_ms : Option ℕ
  pub error_message : Option Text
  pub status_code : Option ℕ
  pub assertion_results : Option (List AssertionResult)
  pub response_status : Option ℕ
  pub response_time_ms : Option ℕ
  pub response_body : Option Text
  pub response_headers : Option (List (Text × Text))
  pub response_bytes : Option ℕ
  pub banner : Option Text
  pub days_remaining : Option Days
  pub valid_to : Option ℕ
  pub cert_summary : Option Text

-- `WHERE id = … AND region_id = …`
abbrev pub is_owned : MonitorType → ℕ → ℕ → Exec → Bool
is_owned kind region id r = is_row kind id r && opt_eq r.region_id (some region)

abbrev or_else {ℓ} : {A : Type ℓ} → Option A → Option A → Option A
or_else none b = b
or_else (some a) b = some a

-- How long the result took, and the HTTP status that an alert about it names.
abbrev pub duration_of : AgentResult → Option ℕ
duration_of b = elim b.type [
  | MonitorType.api ↦ or_else b.response_time_ms b.latency_ms
  | _ ↦ b.latency_ms
]

abbrev pub code_of : AgentResult → Option ℕ
code_of b = elim b.type [
  | MonitorType.url ↦ b.status_code
  | MonitorType.api ↦ b.response_status
  | _ ↦ none
]

abbrev extra_of : AgentResult → Extra
extra_of b = elim b.type [
  | MonitorType.url ↦ http b.status_code b.assertion_results
  | MonitorType.api ↦
      response b.response_status b.response_body b.response_headers b.assertion_results
  | MonitorType.tcp ↦ banner b.banner
  | MonitorType.udp ↦ response_bytes b.response_bytes
  | MonitorType.tls ↦ certificate b.days_remaining b.valid_to b.cert_summary
  | _ ↦ no_extra
]

-- The columns that the UPDATE sets.
abbrev pub reported : AgentResult → ℕ → Exec → Exec
reported b now r = record r {
  status = b.status;
  latency_ms = duration_of b;
  error_message = b.error_message;
  extra = extra_of b;
  end_time = some now;
}

abbrev pub is_terminal : Text → Bool
is_terminal s = text_eq s success || text_eq s failed

-- The tail: nothing if the UPDATE did not hit one row, else the detector on a terminal status and
-- the event. `finishLatencyResult` is the same for the kinds without HTTP fields.
unfoldable pub finish_result : ℕ → AgentResult → List Exec → Desk → Desk × Bool
finish_result region b [] d = (d, false)
finish_result region b (r ∷ []) d =
    let event : ExecutionEvent = record {
      kind = b.type;
      monitor_id = r.monitor_id;
      id = b.execution_id;
      status = b.status;
      latency_ms = duration_of b;
      status_code = code_of b;
      error_message = b.error_message;
      region_id = some region;
    } in
    let asked : AlertCall = record {
      kind = b.type;
      monitor_id = r.monitor_id;
      exec_id = b.execution_id;
      status = b.status;
      status_code = code_of b;
      duration_ms = duration_of b;
      error_message = b.error_message;
      region_id = some region;
      start_time = none;
    } in
    (emit event (if is_terminal b.status then call asked d else d), true)
finish_result region b (r ∷ r' ∷ rows) d = (d, false)

-- `writeAgentResult`, for every kind but browser checks, which `Qa` has.
unfoldable pub write_agent_result : ℕ → AgentResult → ℕ → Desk → Desk × Bool
unfolding finish_result update_where keep
write_agent_result region b now d =
    finish_result region b (keep (is_owned b.type region b.execution_id) d.rows) (record d {
      rows = update_where (is_owned b.type region b.execution_id) (reported b now) d.rows;
    })
