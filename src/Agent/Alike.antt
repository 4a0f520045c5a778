-- ===== src/Agent/Alike.antt =====
-- A result of a probe, as the agent (src/agent.ts) has it written and as a processor writes it.
use oo_workers.Prelude.{
  ℕ, ◌≡◌, refl, true, List, [], ◌∷◌, map, Option, none, some, Bool-cases, inl, inr, keep, ==_refl,
}
use oo_workers.Db.{MonitorType, Exec, no_extra, pending, failed, update_where, is_row, type_index}
use oo_workers.Scheduler.Dispatch.{Body, tcp_body, udp_body, db_body, tls_body}
use oo_workers.Results.{Desk, AlertCall, update_execution}
use oo_workers.Results.Agent.{
  AgentResult, write_agent_result, finish_result, reported, is_owned, duration_of, code_of,
}
use oo_workers.Results.Net.{of_tcp, of_udp, of_db, of_tls, hex_message}
use oo_workers.Results.Probe.{
  Job, Probed, ProbeResult, probed, probe_monitor_processor, refuse_payload, run_probe_processor,
  is_final_attempt, fields_of,
}
use oo_workers.Agent.{status_of, blank, tcp_result, udp_result, db_result, tls_result}
use oo_workers.Probes.Tcp.{TcpProbeResult}
use oo_workers.Probes.Udp.{UdpProbeResult}
use oo_workers.Probes.Db.{DbProbeResult}
use oo_workers.Probes.Tls.{TlsProbeResult}

abbrev pub kind_of : Body → MonitorType
kind_of (tcp_body _ _ _ _ _ _) = MonitorType.tcp
kind_of (udp_body _ _ _ _ _ _) = MonitorType.udp
kind_of (db_body _ _ _ _ _ _) = MonitorType.db
kind_of (tls_body _ _ _ _ _ _ _ _ _) = MonitorType.tls
kind_of _ = MonitorType.url

abbrev pub fresh_row : MonitorType → Option ℕ → Job → ℕ → Exec
fresh_row kind region j start = record {
  kind = kind;
  id = j.execution_id;
  monitor_id = j.monitor_id;
  region_id = region;
  run_id = none;
  status = pending;
  latency_ms = none;
  error_message = none;
  extra = no_extra;
  start_time = start;
  end_time = none;
}

-- A desk with the one row that the scheduler has made.
abbrev pub fresh : MonitorType → Option ℕ → Job → ℕ → Desk
fresh kind region j start = record {
  rows = fresh_row kind region j start ∷ [];
  calls = [];
  sent = [];
}

-- The rows and the calls of the detector, but for the region and the columns of the kind.
abbrev pub seen : Desk → List Exec × List AlertCall
seen d = (
  map (λ (r : Exec). record r { region_id = none; extra = no_extra }) d.rows,
  map (λ (c : AlertCall). record c { region_id = none }) d.calls,
)

module _ (j : Job) (last : is_final_attempt j ≡ true) (region start now : ℕ) where
  -- What both sides leave behind.
  abbrev pub Alike : MonitorType → Probed → AgentResult → Type 0
  Alike kind p a =
      seen (probe_monitor_processor kind j p now (fresh kind none j start)).0
      ≡ seen (write_agent_result region a now (fresh kind (some region) j start)).0

  -- A row that the agent owns, alone.
  write_agent_result-fresh :
      (a : AgentResult) (kind : MonitorType)
      → is_owned a.type region a.execution_id (fresh_row kind (some region) j start) ≡ true
      → write_agent_result region a now (fresh kind (some region) j start)
        ≡ finish_result region a
            (fresh_row kind (some region) j start ∷ [])
            (record (fresh kind (some region) j start) {
              rows = reported a now (fresh_row kind (some region) j start) ∷ [];
            })
  unfolding write_agent_result update_where keep
  write_agent_result-fresh a kind owned = rw (owned, write_agent_result, update_where) refl

  -- A probe that ran, on both sides.
  ran-seen :
      (kind : MonitorType) (p : ProbeResult) (a : AgentResult)
      → (p.ok ≡ true → p.error_message ≡ none)
      → a.type ≡ kind
      → a.execution_id ≡ j.execution_id
      → is_owned kind region j.execution_id (fresh_row kind (some region) j start) ≡ true
      → is_row kind j.execution_id (fresh_row kind none j start) ≡ true
      → a.status ≡ status_of p.ok
      → a.error_message ≡ p.error_message
      → duration_of a ≡ p.latency_ms
      → code_of a ≡ none
      → seen (run_probe_processor kind j p now (fresh kind none j start)).0
        ≡ seen (write_agent_result region a now (fresh kind (some region) j start)).0
  unfolding run_probe_processor finish_result update_execution
  ran-seen kind p a quiet_p type id owned row status message took code =
      let written = write_agent_result-fresh a kind (rw (type, id) owned) in
      elim (Bool-cases p.ok) [
        | inl good ↦
            rw
              (
                written,
                finish_result,
                took,
                code,
                type,
                id,
                good,
                row,
                rw good at status,
                message,
                quiet_p good,
              )
              refl
        | inr bad ↦
            rw
              (
                written,
                finish_result,
                took,
                code,
                type,
                id,
                bad,
                last,
                row,
                rw bad at status,
                message,
              )
              refl
      ]

  fresh_row-owned :
      (kind : MonitorType)
      → is_owned kind region j.execution_id (fresh_row kind (some region) j start) ≡ true
  fresh_row-owned kind = rw (==_refl (type_index kind), ==_refl j.execution_id, ==_refl region) refl

  fresh_row-row :
      (kind : MonitorType) → is_row kind j.execution_id (fresh_row kind none j start) ≡ true
  fresh_row-row kind = rw (==_refl (type_index kind), ==_refl j.execution_id) refl

  pub refused-seen :
      seen (refuse_payload MonitorType.tcp j hex_message now (fresh MonitorType.tcp none j start)).0
      ≡ seen
          (write_agent_result region
            (blank MonitorType.tcp j.execution_id failed (some hex_message))
            now
            (fresh MonitorType.tcp (some region) j start)).0
  unfolding refuse_payload finish_result update_execution
  refused-seen =
      rw
        (
          write_agent_result-fresh (blank MonitorType.tcp j.execution_id failed (some hex_message))
              MonitorType.tcp (fresh_row-owned MonitorType.tcp),
          finish_result,
          fresh_row-row MonitorType.tcp,
        )
        refl

  pub tcp_ran :
      (r : TcpProbeResult)
      → (r.ok ≡ true → r.error_message ≡ none)
      → Alike MonitorType.tcp (probed (of_tcp r)) (tcp_result j.execution_id r)
  unfolding probe_monitor_processor
  tcp_ran r quiet_r =
      ran-seen MonitorType.tcp (of_tcp r) (tcp_result j.execution_id r) quiet_r refl refl
        (fresh_row-owned MonitorType.tcp) (fresh_row-row MonitorType.tcp) refl refl refl refl

  -- Of a failed udp probe the master keeps no columns of the kind.
  pub udp_ran :
      (r : UdpProbeResult)
      → (r.ok ≡ true → r.error_message ≡ none)
      → Alike MonitorType.udp (probed (of_udp r)) (udp_result j.execution_id r)
  unfolding probe_monitor_processor
  udp_ran r quiet_r =
      ran-seen MonitorType.udp (fields_of MonitorType.udp (of_udp r)) (udp_result j.execution_id r)
        quiet_r refl refl (fresh_row-owned MonitorType.udp) (fresh_row-row MonitorType.udp) refl
        refl refl refl

  pub db_ran :
      (r : DbProbeResult)
      → (r.ok ≡ true → r.error_message ≡ none)
      → Alike MonitorType.db (probed (of_db r)) (db_result j.execution_id r)
  unfolding probe_monitor_processor
  db_ran r quiet_r =
      ran-seen MonitorType.db (fields_of MonitorType.db (of_db r)) (db_result j.execution_id r)
        quiet_r refl refl (fresh_row-owned MonitorType.db) (fresh_row-row MonitorType.db) refl refl
        refl refl

  pub tls_ran :
      (r : TlsProbeResult)
      → (r.ok ≡ true → r.error_message ≡ none)
      → Alike MonitorType.tls (probed (of_tls r)) (tls_result j.execution_id r)
  unfolding probe_monitor_processor
  tls_ran r quiet_r =
      ran-seen MonitorType.tls (of_tls r) (tls_result j.execution_id r) quiet_r refl refl
        (fresh_row-owned MonitorType.tls) (fresh_row-row MonitorType.tls) refl refl refl refl
