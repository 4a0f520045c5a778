-- ===== src/Agent/Mirrors.antt =====
-- What the agent's probes (src/agent.ts) write, next to what the master's processors write.
use oo_workers.Prelude.{
  ℕ, ◌≡◌, refl, Bool, true, false, not, ◌&&◌, List, Option, none, some, arith, inl, inr, ◌⊎◌,
}
use oo_workers.Text.{Text}
use oo_workers.Scheduler.Dispatch.{
  Body, Attempt, done, url_body, api_body, qa_body, tcp_body, udp_body, db_body, tls_body,
}
use oo_workers.Redaction.{UrlApi}
use oo_workers.Payload.{Payload, absent, buffer, malformed, parse_hex_payload}
use oo_workers.Probes.{is_some}
use oo_workers.Api.{JsApi}
use oo_workers.Results.Agent.{AgentResult, write_agent_result}
use oo_workers.Results.Net.{Net, master_probed, tcp_options, udp_options, socket_timeout}
use oo_workers.Results.Probe.{Job, Probed, probe_monitor_processor, is_final_attempt, attempts_of}
use oo_workers.Agent.{run_probe, probe_tcp, probe_udp, probe_db, probe_tls}
use oo_workers.Probes.Tcp.{TcpProbeOptions}
use oo_workers.Probes.Udp.{UdpProbeOptions}
use oo_workers.Agent.Alike.{
  kind_of, fresh, seen, Alike, tcp_ran, udp_ran, db_ran, tls_ran, refused-seen,
}
use oo_workers.Probes.Tls.{TlsApi}
use oo_workers.Results.Wire.{Wire, IsQuiet, net_of, net_of-IsQuiet}

abbrev pub parses : Payload → Bool
parses malformed = false
parses _ = true

-- The probes that the agent and the master are to run alike: udp with a payload that parses, and tls
-- without the assertions that the agent does not hand on.
unfoldable pub is_mirrored : Body → Bool
unfolding parse_hex_payload
is_mirrored (tcp_body _ _ _ _ _ _) = true
is_mirrored (udp_body _ _ _ payload_hex _ _) = parses (parse_hex_payload payload_hex)
is_mirrored (db_body _ _ _ _ _ _) = true
is_mirrored (tls_body _ _ _ _ _ _ verify_chain verify_hostname expect_cn_regex) =
    not verify_chain && (not verify_hostname && not (is_some expect_cn_regex))
is_mirrored _ = false

Payload-cases :
    (p : Payload) → (p ≡ absent) ⊎ (((bytes : List ℕ) × (p ≡ buffer bytes)) ⊎ (p ≡ malformed))
Payload-cases absent = inl refl
Payload-cases (buffer bytes) = inr (inl (bytes, refl))
Payload-cases malformed = inr (inr refl)

module _ (U : UrlApi) (J : JsApi) (query : J.Value → Text → Attempt (List J.Value))
    (utf8 : List ℕ → Text) (N : Net) (quiet : IsQuiet N) (j : Job)
    (last : is_final_attempt j ≡ true) (region start now : ℕ) where
  abbrev Mirrors : Body → Type 0
  Mirrors b =
      (p : Probed) × (a : AgentResult) × (master_probed N b ≡ some p)
      × (run_probe U J query utf8 N j.execution_id b ≡ done a)
      × Alike j last region start now (kind_of b) p a

  mirror_tcp :
      (id : ℕ) (host : Text) (port : ℕ) (payload_hex expect_banner : Option Text) (timeout_ms : ℕ)
      → Mirrors (tcp_body id host port payload_hex expect_banner timeout_ms)
  unfolding master_probed run_probe probe_tcp
  mirror_tcp id host port payload_hex expect_banner timeout_ms =
      let run : Option (List ℕ) → TcpProbeOptions =
        tcp_options host port expect_banner timeout_ms in
      elim (Payload-cases (parse_hex_payload payload_hex)) [
        | inr (inr bad) ↦ rw bad (
          _,
          _,
          refl,
          refl,
          unfold probe_monitor_processor in refused-seen j last region start now,
        )
        | inr (inl (bytes, good)) ↦ rw good (
          _,
          _,
          refl,
          refl,
          tcp_ran j last region start now (N.tcp (run (some bytes))) (quiet.tcp (run (some bytes))),
        )
        | inl none_given ↦ rw none_given (
          _,
          _,
          refl,
          refl,
          tcp_ran j last region start now (N.tcp (run none)) (quiet.tcp (run none)),
        )
      ]

  mirror_udp :
      (id : ℕ) (host : Text) (port : ℕ) (payload_hex : Option Text) (expect_response : Bool)
      (timeout_ms : ℕ)
      → parses (parse_hex_payload payload_hex) ≡ true
      → Mirrors (udp_body id host port payload_hex expect_response timeout_ms)
  unfolding master_probed run_probe probe_udp
  mirror_udp id host port payload_hex expect_response timeout_ms parsed =
      let run : Option (List ℕ) → UdpProbeOptions =
        udp_options host port expect_response timeout_ms in
      elim (Payload-cases (parse_hex_payload payload_hex)) [
        | inr (inr bad) ↦ absurd (ground (arith, rw bad at parsed))
        | inr (inl (bytes, good)) ↦ rw good (
          _,
          _,
          refl,
          refl,
          udp_ran j last region start now (N.udp (run (some bytes))) (quiet.udp (run (some bytes))),
        )
        | inl none_given ↦ rw none_given (
          _,
          _,
          refl,
          refl,
          udp_ran j last region start now (N.udp (run none)) (quiet.udp (run none)),
        )
      ]

  mirrored : (b : Body) → is_mirrored b ≡ true → Mirrors b
  unfolding is_mirrored master_probed run_probe probe_db probe_tls
  mirrored (tcp_body id host port payload_hex expect_banner timeout_ms) h =
      mirror_tcp id host port payload_hex expect_banner timeout_ms
  mirrored (udp_body id host port payload_hex expect_response timeout_ms) h =
      mirror_udp id host port payload_hex expect_response timeout_ms h
  mirrored (db_body id protocol tls host port timeout_ms) h = (
    _,
    _,
    refl,
    refl,
    db_ran j last region start now (N.db host port protocol tls (socket_timeout timeout_ms))
        (quiet.db _ _ _ _ _),
  )
  mirrored (tls_body id host port servername warn_days timeout_ms false false none) h =
      (_, _, refl, refl, tls_ran j last region start now _ (quiet.tls _))
  mirrored (tls_body id host port servername warn_days timeout_ms true _ _) h =
      absurd (ground (arith, h))
  mirrored (tls_body id host port servername warn_days timeout_ms false true _) h =
      absurd (ground (arith, h))
  mirrored (tls_body id host port servername warn_days timeout_ms false false (some _)) h =
      absurd (ground (arith, h))
  mirrored (url_body _ _ _ _) h = absurd (ground (arith, h))
  mirrored (api_body _ _ _ _ _ _ _) h = absurd (ground (arith, h))
  mirrored (qa_body _ _ _ _ _ _) h = absurd (ground (arith, h))

-- Whatever the sockets of the probes run into: for a job that is tried once, as the scheduler places
-- it, and its fresh row, the agent and the master leave the same status, latency, error and end in
-- the row of a tcp, udp, db or tls check, and ask the detector the same, but for the region. So it is
-- for every tcp and db payload, for a udp payload whose bytes parse, and for a tls payload without
-- assertions on chain, name and subject.
pub run_probe-mirrors :
    (U : UrlApi) (J : JsApi) (query : J.Value → Text → Attempt (List J.Value))
    (utf8 : List ℕ → Text) (T : TlsApi) (W : Wire) (j : Job) (region start now : ℕ) (b : Body)
    → attempts_of j.attempts ≡ 1
    → j.attempts_made ≡ 0
    → is_mirrored b ≡ true
    → (p : Probed) × (a : AgentResult) × (master_probed (net_of utf8 T W) b ≡ some p)
      × (run_probe U J query utf8 (net_of utf8 T W) j.execution_id b ≡ done a)
      × (seen (probe_monitor_processor (kind_of b) j p now (fresh (kind_of b) none j start)).0
          ≡ seen (write_agent_result region a now (fresh (kind_of b) (some region) j start)).0)
unfolding is_final_attempt
run_probe-mirrors U J query utf8 T W j region start now b once first h =
    mirrored U J query utf8 (net_of utf8 T W) (net_of-IsQuiet utf8 T W) j
      (ground (arith, once, first)) region start now b h
