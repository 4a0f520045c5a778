-- ===== src/Results.antt =====
-- How a result is written: what the processors of the master and the result route of the agents
-- share (src/processors, src/services/agent-dispatch.ts, src/services/agent-result-writers.ts,
-- `emitExecution` of src/services/exec-events.ts). The calls of the transition detector are logged;
-- they run on their own, after the write.
pub mod Agent
pub mod Ownership
pub mod Probe
pub mod Url
pub mod Api
pub mod Net
pub mod Wire
pub mod ApiCalls
pub mod Attempts
pub mod Twice
use oo_workers.Prelude.{ℕ, List, ◌∷◌, Option}
use oo_workers.Text.{Text}
use oo_workers.Db.{MonitorType, Exec, update_where, is_row}

-- One call of `maybeAlertOnTransition`; a field that the caller leaves out is none.
pub record AlertCall : Type 0 where
  pub kind : MonitorType
  pub monitor_id : ℕ
  pub exec_id : ℕ
  pub status : Text
  pub status_code : Option ℕ
  pub duration_ms : Option ℕ
  pub error_message : Option Text
  pub region_id : Option ℕ
  pub start_time : Option ℕ

-- One `execution` event.
pub record ExecutionEvent : Type 0 where
  pub kind : MonitorType
  pub monitor_id : ℕ
  pub id : ℕ
  pub status : Text
  pub latency_ms : Option ℕ
  pub status_code : Option ℕ
  pub error_message : Option Text
  pub region_id : Option ℕ

-- The execution rows, and the calls and events so far, the newest first.
pub record Desk : Type 0 where
  pub rows : List Exec
  pub calls : List AlertCall
  pub sent : List ExecutionEvent

-- `updateExecution(id, fields)` in the table of a kind.
unfoldable pub update_execution : MonitorType → ℕ → (Exec → Exec) → Desk → Desk
unfolding update_where
update_execution kind id f d = record d { rows = update_where (is_row kind id) f d.rows }

abbrev pub call : AlertCall → Desk → Desk
call c d = record d { calls = c ∷ d.calls }

abbrev pub emit : ExecutionEvent → Desk → Desk
emit e d = record d { sent = e ∷ d.sent }
