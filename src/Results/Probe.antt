-- ===== src/Results/Probe.antt =====
-- `runProbeProcessor` of src/processors/_run-probe.ts, and the processors that it serves:
-- src/processors/tcp-monitor.processor.ts, udp-, db- and tls-monitor.processor.ts.
use oo_workers.Prelude.{
  ℕ, zero, suc, ◌+◌, Bool, true, false, ◌++◌, Option, none, some, from_option, leb, ◌==◌,
  if◌then◌else◌,
}
use oo_workers.Text.{Text, codes, to_upper}
use oo_workers.Db.{MonitorType, Extra, Exec, type_name, success, failed, pending}
use oo_workers.Results.{Desk, AlertCall, ExecutionEvent, call, emit, update_execution}

-- What the processors read of a BullMQ job.
pub record Job : Type 0 where
  pub execution_id : ℕ
  pub monitor_id : ℕ
  pub attempts_made : ℕ
  pub attempts : Option ℕ

-- `job.attemptsMade + 1 >= (job.opts.attempts || 1)`, where 0 is as good as missing.
abbrev pub attempts_of : Option ℕ → ℕ
attempts_of none = 1
attempts_of (some n) = if n == 0 then 1 else n

unfoldable pub is_final_attempt : Job → Bool
is_final_attempt j = leb (attempts_of j.attempts) (j.attempts_made + 1)

-- What a probe came to, with the columns of its kind (`successFields` and `failFields`).
pub record ProbeResult : Type 0 where
  pub ok : Bool
  pub latency_ms : Option ℕ
  pub error_message : Option Text
  pub extra : Option Extra

-- A processor returns `{ success: true }` or throws.
pub data Ended : Type 0 where
  returned : Ended
  threw : Text → Ended

abbrev event : MonitorType → Job → Text → Option ℕ → Option Text → ExecutionEvent
event kind j status latency message = record {
  kind = kind;
  monitor_id = j.monitor_id;
  id = j.execution_id;
  status = status;
  latency_ms = latency;
  status_code = none;
  error_message = message;
  region_id = none;
}

abbrev asked : MonitorType → Job → Text → Option ℕ → Option Text → AlertCall
asked kind j status latency message = record {
  kind = kind;
  monitor_id = j.monitor_id;
  exec_id = j.execution_id;
  status = status;
  status_code = none;
  duration_ms = latency;
  error_message = message;
  region_id = none;
  start_time = none;
}

-- The row after a success: its error message is not among the columns that are set.
abbrev pub succeeded : ProbeResult → ℕ → Exec → Exec
succeeded p now r = record r {
  status = success;
  latency_ms = p.latency_ms;
  extra = from_option r.extra p.extra;
  end_time = some now;
}

abbrev pub not_succeeded : ProbeResult → Text → ℕ → Exec → Exec
not_succeeded p status now r = record r {
  status = status;
  latency_ms = p.latency_ms;
  error_message = p.error_message;
  extra = from_option r.extra p.extra;
  end_time = some now;
}

unfoldable pub run_probe_processor : MonitorType → Job → ProbeResult → ℕ → Desk → Desk × Ended
unfolding update_execution is_final_attempt
run_probe_processor kind j p now d =
    if p.ok
    then (
      call (asked kind j success p.latency_ms none) (
          emit (event kind j success p.latency_ms none)
            (update_execution kind j.execution_id (succeeded p now) d)),
      returned,
    )
    else (let final = is_final_attempt j in
        let status = if final then failed else pending in
        let d' =
          emit (event kind j status p.latency_ms p.error_message)
            (update_execution kind j.execution_id (not_succeeded p status now) d) in
        (
          (if final then call (asked kind j failed p.latency_ms p.error_message) d' else d'),
          threw (from_option (to_upper (type_name kind) ++ codes " probe failed") p.error_message),
        ))

-- The columns that a processor gives to the skeleton for its kind; on a failure udp and db give none.
abbrev pub fields_of : MonitorType → ProbeResult → ProbeResult
fields_of MonitorType.db p = record p { extra = none }
fields_of MonitorType.udp p = record p { extra = if p.ok then p.extra else none }
fields_of kind p = p

-- A payload that `parseHexPayload` refuses ends the job before the probe, on any attempt; the tcp
-- processor asks the detector, the udp processor does not.
abbrev pub refused : Text → ℕ → Exec → Exec
refused message now r = record r {
  status = failed;
  error_message = some message;
  end_time = some now;
}

abbrev asks_on_refusal : MonitorType → Bool
asks_on_refusal MonitorType.tcp = true
asks_on_refusal _ = false

unfoldable pub refuse_payload : MonitorType → Job → Text → ℕ → Desk → Desk × Ended
unfolding update_execution
refuse_payload kind j message now d =
    let d' =
      emit (event kind j failed none (some message))
        (update_execution kind j.execution_id (refused message now) d) in
    (
      (if asks_on_refusal kind then call (asked kind j failed none (some message)) d' else d'),
      threw message,
    )

-- What the probe runs into: a payload that is refused, or a result.
pub data Probed : Type 0 where
  bad_payload : Text → Probed
  probed : ProbeResult → Probed

-- `tcpMonitorProcessor`, `udpMonitorProcessor`, `dbMonitorProcessor`, `tlsMonitorProcessor`.
unfoldable pub probe_monitor_processor : MonitorType → Job → Probed → ℕ → Desk → Desk × Ended
unfolding refuse_payload run_probe_processor
probe_monitor_processor kind j (bad_payload message) now d = refuse_payload kind j message now d
probe_monitor_processor kind j (probed p) now d =
    run_probe_processor kind j (fields_of kind p) now d

-- BullMQ runs a job again after a throw, until its attempts are used up.
abbrev again : Ended → Desk → Desk → Desk
again returned d rest = d
again (threw message) d rest = rest

unfoldable pub run_job : MonitorType → Job → (ℕ → ProbeResult) → (ℕ → ℕ) → ℕ → ℕ → Desk → Desk
unfolding probe_monitor_processor
run_job kind j results clock zero i d = d
run_job kind j results clock (suc left) i d =
    let (d', ended) =
      probe_monitor_processor kind (record j { attempts_made = i }) (probed (results i)) (clock i)
        d in
    again ended d' (run_job kind j results clock left (suc i) d')
