-- ===== src/Agent.antt =====
-- The regional agent: `runProbe` of src/agent.ts with its functions per kind. Browser checks go
-- through src/agent-qa.ts instead.
pub mod Loop
pub mod Alike
pub mod Mirrors
pub mod Named
pub mod Turns
use oo_workers.Prelude.{
  ℕ, Bool, true, false, List, [], ◌∷◌, Option, none, some, take, ◌==◌, if◌then◌else◌, concat,
}
use oo_workers.Text.{Text, codes}
use oo_workers.Db.{MonitorType, success, failed}
use oo_workers.Scheduler.Dispatch.{
  JobPayload, Body, UrlAssertion, ApiAssertion, Attempt, done, thrown, url_body, api_body, tcp_body,
  udp_body, db_body, tls_body, qa_body,
}
use oo_workers.Redaction.{UrlApi, classify_fetch_error}
use oo_workers.Payload.{parse_hex_payload}
use oo_workers.Probes.Tcp.{TcpProbeResult}
use oo_workers.Probes.Udp.{UdpProbeResult}
use oo_workers.Probes.Db.{DbProbeResult}
use oo_workers.Probes.Tls.{TlsProbeResult}
use oo_workers.Api.{JsApi, Outcome, evaluate_assertions}
use oo_workers.Results.Agent.{AgentResult}
use oo_workers.Results.Api
use oo_workers.Results.Api.{
  ApiCheck, ApiFetched, all_assertions_passed, request_with, response_body_truncate_chars, stored,
  assertions_message, api_timeout,
}
use oo_workers.Results.Net.{
  Net, socket_timeout, hex_message, with_payload, tcp_options, udp_options,
}
use oo_workers.Results.Url
use oo_workers.Results.Url.{Fetched, evaluate_url_monitor_assertions, all_passed, url_timeout}

-- `['POST', 'PUT', 'PATCH']`.
abbrev pub agent_body_methods : List Text
agent_body_methods = codes "POST" ∷ codes "PUT" ∷ codes "PATCH" ∷ []

-- A result with a status, and no more.
abbrev pub blank : MonitorType → ℕ → Text → Option Text → AgentResult
blank type execution_id status message = record {
  type = type;
  execution_id = execution_id;
  status = status;
  latency_ms = none;
  error_message = message;
  status_code = none;
  assertion_results = none;
  response_status = none;
  response_time_ms = none;
  response_body = none;
  response_headers = none;
  response_bytes = none;
  banner = none;
  days_remaining = none;
  valid_to = none;
  cert_summary = none;
}

abbrev pub status_of : Bool → Text
status_of ok = if ok then success else failed

abbrev message_of : Bool → Option Text
message_of passed = if passed then none else some assertions_message

abbrev pub tcp_result : ℕ → TcpProbeResult → AgentResult
tcp_result exec_id r = record (blank MonitorType.tcp exec_id (status_of r.ok) r.error_message) {
  latency_ms = some r.latency_ms;
  banner = r.banner;
}

abbrev pub udp_result : ℕ → UdpProbeResult → AgentResult
udp_result exec_id r = record (blank MonitorType.udp exec_id (status_of r.ok) r.error_message) {
  latency_ms = some r.latency_ms;
  response_bytes = r.response_bytes;
}

abbrev pub db_result : ℕ → DbProbeResult → AgentResult
db_result exec_id r = record (blank MonitorType.db exec_id (status_of r.ok) r.error_message) {
  latency_ms = some r.latency_ms;
}

abbrev pub tls_result : ℕ → TlsProbeResult → AgentResult
tls_result exec_id r = record (blank MonitorType.tls exec_id (status_of r.ok) r.error_message) {
  latency_ms = some r.latency_ms;
  days_remaining = r.days_remaining;
  valid_to = r.valid_to;
  cert_summary = r.cert_summary;
}

module _ (U : UrlApi) (N : Net) where
  unfoldable pub probe_url : ℕ → Text → ℕ → List UrlAssertion → AgentResult
  unfolding evaluate_url_monitor_assertions all_passed classify_fetch_error
  probe_url exec_id url timeout_ms assertions = elim (N.head url (url_timeout timeout_ms)) [
    | Url.responded code took caught ↦
        let results = evaluate_url_monitor_assertions assertions code in
        let passed = all_passed results in
        record (blank MonitorType.url exec_id (status_of passed) (message_of passed)) {
          status_code = some code;
          latency_ms = some took;
          assertion_results = some results;
        }
    | Url.rejected e took ↦
        record (blank MonitorType.url exec_id failed
          (some (classify_fetch_error U e url (url_timeout timeout_ms)))) { latency_ms = some took }
  ]

module _ (N : Net) where
  unfoldable pub probe_tcp : ℕ → Text → ℕ → Option Text → Option Text → ℕ → AgentResult
  unfolding parse_hex_payload
  probe_tcp exec_id host port payload_hex expect_banner timeout_ms =
      with_payload (parse_hex_payload payload_hex)
        (blank MonitorType.tcp exec_id failed (some hex_message))
        (λ payload.
          tcp_result exec_id (N.tcp (tcp_options host port expect_banner timeout_ms payload)))

  unfoldable pub probe_udp : ℕ → Text → ℕ → Option Text → Bool → ℕ → AgentResult
  unfolding parse_hex_payload
  probe_udp exec_id host port payload_hex expect_response timeout_ms =
      with_payload (parse_hex_payload payload_hex)
        (blank MonitorType.udp exec_id failed (some hex_message))
        (λ payload.
          udp_result exec_id (N.udp (udp_options host port expect_response timeout_ms payload)))

  unfoldable pub probe_db : ℕ → Text → Bool → Text → ℕ → ℕ → AgentResult
  probe_db exec_id protocol tls host port timeout_ms =
      db_result exec_id (N.db host port protocol tls (socket_timeout timeout_ms))

  -- The assertions on the chain, the name and the subject are not handed on.
  unfoldable pub probe_tls : ℕ → Text → ℕ → Option Text → ℕ → ℕ → AgentResult
  probe_tls exec_id host port servername warn_days timeout_ms = tls_result exec_id (
      N.tls (record {
        host = host;
        port = port;
        timeout_ms = socket_timeout timeout_ms;
        warn_days = warn_days;
        servername = servername;
        verify_chain = false;
        verify_hostname = false;
        expect_cn_regex = none;
      }))

-- `job.apiCheck`, with the assertions.
abbrev pub api_check :
    ℕ → Text → Text → List (Text × Text) → Option Text → ℕ → List ApiAssertion → ApiCheck
api_check id url method headers body timeout_ms assertions = record {
  id = id;
  url = url;
  method = some method;
  headers = headers;
  body = body;
  timeout_ms = timeout_ms;
  assertions = assertions;
}

module _ (U : UrlApi) (J : JsApi) (query : J.Value → Text → Attempt (List J.Value))
    (utf8 : List ℕ → Text) (N : Net) where
  -- The whole body is read, however long it is.
  unfoldable pub probe_api : ℕ → ApiCheck → AgentResult
  unfolding evaluate_assertions classify_fetch_error request_with
  probe_api exec_id c =
      elim (N.request c.url (request_with agent_body_methods c) (api_timeout c.timeout_ms)) [
        | Api.responded status chunks headers took caught ↦
            let body = utf8 (concat chunks) in
            let results =
              evaluate_assertions J query c.assertions (record {
                status = status;
                response_time = took;
                body = body;
                headers = headers;
              }) in
            let passed = all_assertions_passed J results in
            record (blank MonitorType.api exec_id (status_of passed) (message_of passed)) {
              response_status = some status;
              response_time_ms = some took;
              response_body = some (take response_body_truncate_chars body);
              response_headers = some headers;
              assertion_results = some (stored J results);
            }
        | Api.rejected e took ↦
            blank MonitorType.api exec_id failed
              (some (classify_fetch_error U e c.url (api_timeout c.timeout_ms)))
      ]

  -- `runProbe`.
  unfoldable pub run_probe : ℕ → Body → Attempt AgentResult
  unfolding probe_url probe_api probe_tcp probe_udp probe_db probe_tls
  run_probe exec_id (url_body id url timeout_ms assertions) =
      done (probe_url U N exec_id url timeout_ms assertions)
  run_probe exec_id (api_body id url method headers body timeout_ms assertions) =
      done (probe_api exec_id (api_check id url method headers body timeout_ms assertions))
  run_probe exec_id (tcp_body id host port payload_hex expect_banner timeout_ms) =
      done (probe_tcp N exec_id host port payload_hex expect_banner timeout_ms)
  run_probe exec_id (udp_body id host port payload_hex expect_response timeout_ms) =
      done (probe_udp N exec_id host port payload_hex expect_response timeout_ms)
  run_probe exec_id (db_body id protocol tls host port timeout_ms) =
      done (probe_db N exec_id protocol tls host port timeout_ms)
  run_probe exec_id
        (tls_body id host port servername warn_days timeout_ms verify_chain verify_hostname
          expect_cn_regex) =
      done (probe_tls N exec_id host port servername warn_days timeout_ms)
  run_probe exec_id (qa_body project_id target_url credentials config tests triggered_at) =
      thrown (codes "runProbe(qa) is not callable — QA jobs go through handleQaJob")
