-- ===== src/Results/Net.antt =====
-- What the processors of src/processors/tcp-monitor.processor.ts, udp-, db- and tls-monitor.processor.ts
-- give to their probes. What the probes and requests come to is a record of functions of their options.
use oo_workers.Prelude.{ℕ, Bool, Option, none, some, List, ◌==◌, if◌then◌else◌}
use oo_workers.Text.{Text, codes}
use oo_workers.Db.{banner, response_bytes, certificate}
use oo_workers.Scheduler.Dispatch.{Body, tcp_body, udp_body, db_body, tls_body}
use oo_workers.Payload.{Payload, absent, buffer, malformed, parse_hex_payload}
use oo_workers.Probes.Tcp.{TcpProbeOptions, TcpProbeResult}
use oo_workers.Probes.Udp.{UdpProbeOptions, UdpProbeResult}
use oo_workers.Probes.Db.{DbProbeResult}
use oo_workers.Probes.Tls.{TlsProbeOptions, TlsProbeResult}
use oo_workers.Results.Api.{RequestOptions, ApiFetched}
use oo_workers.Results.Probe.{Probed, ProbeResult, bad_payload, probed}
use oo_workers.Results.Url.{Fetched}

pub record Net : Type 0 where
  -- The `HEAD` request of a url check, and the request of an api check, with the timeout.
  pub head : Text → ℕ → Fetched
  pub request : Text → RequestOptions → ℕ → ApiFetched
  pub tcp : TcpProbeOptions → TcpProbeResult
  pub udp : UdpProbeOptions → UdpProbeResult
  pub db : (host : Text) (port : ℕ) (protocol : Text) (tls : Bool) (timeout_ms : ℕ) → DbProbeResult
  pub tls : TlsProbeOptions → TlsProbeResult

-- `timeoutMs || DEFAULTS.TCP_TIMEOUT_MS`; the defaults of udp, db and api are the same.
abbrev pub socket_timeout : ℕ → ℕ
socket_timeout ms = if ms == 0 then 5000 else ms

abbrev pub hex_message : Text
hex_message = codes "payload_hex must be an even-length string of hex characters"

-- A value for each payload that parses, and one for the payload that does not.
abbrev pub with_payload {ℓ} : {A : Type ℓ} → Payload → A → (Option (List ℕ) → A) → A
with_payload absent refused k = k none
with_payload (buffer bytes) refused k = k (some bytes)
with_payload malformed refused k = refused

abbrev pub tcp_options : Text → ℕ → Option Text → ℕ → Option (List ℕ) → TcpProbeOptions
tcp_options host port expect_banner timeout_ms payload = record {
  host = host;
  port = port;
  timeout_ms = socket_timeout timeout_ms;
  payload = payload;
  expect_banner = expect_banner;
}

abbrev pub udp_options : Text → ℕ → Bool → ℕ → Option (List ℕ) → UdpProbeOptions
udp_options host port expect_response timeout_ms payload = record {
  host = host;
  port = port;
  payload = payload;
  expect_response = expect_response;
  timeout_ms = socket_timeout timeout_ms;
}

abbrev pub of_tcp : TcpProbeResult → ProbeResult
of_tcp r = record {
  ok = r.ok;
  latency_ms = some r.latency_ms;
  error_message = r.error_message;
  extra = some (banner r.banner);
}

abbrev pub of_udp : UdpProbeResult → ProbeResult
of_udp r = record {
  ok = r.ok;
  latency_ms = some r.latency_ms;
  error_message = r.error_message;
  extra = some (response_bytes r.response_bytes);
}

abbrev pub of_db : DbProbeResult → ProbeResult
of_db r = record {
  ok = r.ok;
  latency_ms = some r.latency_ms;
  error_message = r.error_message;
  extra = none;
}

abbrev pub of_tls : TlsProbeResult → ProbeResult
of_tls r = record {
  ok = r.ok;
  latency_ms = some r.latency_ms;
  error_message = r.error_message;
  extra = some (certificate r.days_remaining r.valid_to r.cert_summary);
}

-- What the master's processor for the kind of a payload runs into; none for the kinds that are not probes.
unfoldable pub master_probed : Net → Body → Option Probed
unfolding parse_hex_payload
master_probed n (tcp_body id host port payload_hex expect_banner timeout_ms) = some (
    with_payload (parse_hex_payload payload_hex) (bad_payload hex_message)
      (λ payload. probed (of_tcp (n.tcp (tcp_options host port expect_banner timeout_ms payload)))))
master_probed n (udp_body id host port payload_hex expect_response timeout_ms) = some (
    with_payload (parse_hex_payload payload_hex) (bad_payload hex_message) (λ payload.
      probed (of_udp (n.udp (udp_options host port expect_response timeout_ms payload)))))
master_probed n (db_body id protocol tls host port timeout_ms) =
    some (probed (of_db (n.db host port protocol tls (socket_timeout timeout_ms))))
master_probed n
      (tls_body id host port servername warn_days timeout_ms verify_chain verify_hostname
        expect_cn_regex) =
    some (
      probed (
        of_tls (
          n.tls (record {
            host = host;
            port = port;
            timeout_ms = socket_timeout timeout_ms;
            warn_days = warn_days;
            servername = servername;
            verify_chain = verify_chain;
            verify_hostname = verify_hostname;
            expect_cn_regex = expect_cn_regex;
          }))))
master_probed n _ = none
