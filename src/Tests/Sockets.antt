-- ===== src/Tests/Sockets.antt =====
-- Runs of the probes: src/services/tcp-probe.ts, udp-probe.ts, db-probe.ts, tls-probe.ts.
use oo_workers.Prelude.{
  ℕ, ◌≡◌, ◌↔◌, refl, Bool, true, false, List, [], ◌∷◌, ◌++◌, map, none, some, any, arith, Option,
}
use oo_workers.Text.{Text, codes, includes}
use oo_workers.Probes.Tcp.{
  TcpProbeOptions, TcpProbeResult, tcp_probe, tcp_start, connect, timeout, closed,
}
use oo_workers.Probes.Tcp.Banner.{shows, packets, tcp_probe-shows}
use oo_workers.Probes.Udp
use oo_workers.Probes.Udp.{
  UdpProbeOptions, UdpProbe, UdpEvent, LookupAddress, Datagram, udp_probe, udp_start, is_reply,
}
use oo_workers.Probes.Udp.Replies.{udp_answer, first_decision, udp_probe-first_decision}
use oo_workers.Probes.Db
use oo_workers.Probes.Db.{
  DbProbeOptions, DbProbe, DbEvent, db_probe, db_start, redis, db_step, speaks_protocol, finish_db,
  greeting,
}
use oo_workers.Probes.Tls.{TlsApi, TlsProbeOptions, TlsSession, PeerCertificate, judge}
use oo_workers.Probes.Tls.Judged.{Passes, judge-ok}
use oo_workers.Probes.Tcp.Closed.{tcp_probe-closed}

-- ASCII.
abbrev ascii : List ℕ → Text
ascii bytes = bytes

abbrev smtp : TcpProbeOptions
smtp = record {
  host = codes "mail";
  port = 25;
  timeout_ms = 5000;
  payload = none;
  expect_banner = some (codes "220");
}

abbrev greeting_in_two : List (ℕ × List ℕ)
greeting_in_two = (10, codes "2") ∷ (20, codes "20 mail") ∷ []

tcp_probe-shows_example :
    (r : TcpProbeResult) × ((tcp_probe ascii smtp
        ((5, connect) ∷ (packets ascii smtp greeting_in_two ++ (5000, timeout) ∷ []))
        tcp_start).settled
      ≡ some r)
    × (r.ok ≡ shows ascii smtp (codes "220") [] greeting_in_two)
tcp_probe-shows_example = tcp_probe-shows ascii smtp (codes "220") refl 5 greeting_in_two 5000 []

tcp_probe-closed_example :
    (tcp_probe ascii smtp
      ((5, connect) ∷ (packets ascii smtp ((10, codes "421 busy") ∷ []) ++ (20, closed) ∷ []))
      tcp_start).settled
    ≡ none
tcp_probe-closed_example =
    tcp_probe-closed ascii smtp (codes "220") refl 5 ((10, codes "421 busy") ∷ []) 20
      (unfold shows includes in refl) (omega arith)

greeting_shows : shows ascii smtp (codes "220") [] greeting_in_two ≡ true
unfolding shows includes
greeting_shows = refl

abbrev dns : UdpProbeOptions
dns = record {
  host = codes "ns";
  port = 53;
  payload = none;
  expect_response = true;
  timeout_ms = 5000;
}

abbrev ns_address : LookupAddress
ns_address = record { address = codes "10.0.0.1"; family = 4 }

-- A datagram from another port, and then the answer.
abbrev replies : List (ℕ × UdpEvent)
replies =
    (2, Udp.sent none)
    ∷ (3, Udp.message (record { port = 99; address = codes "10.0.0.1"; size = 4 }))
    ∷ (4, Udp.message (record { port = 53; address = codes "10.0.0.1"; size = 20 }))
    ∷ []

udp_probe-first_decision_example :
    udp_answer (udp_probe dns ((1, Udp.resolved none (ns_address ∷ [])) ∷ replies) udp_start)
    ≡ first_decision dns (map (λ (a : LookupAddress). a.address) (ns_address ∷ [])) replies
udp_probe-first_decision_example = udp_probe-first_decision dns 1 ns_address [] replies

replies_decide : first_decision dns (codes "10.0.0.1" ∷ []) replies ≡ some true
unfolding first_decision is_reply any
replies_decide = refl

abbrev cache_server : DbProbeOptions
cache_server = record { host = codes "cache"; port = 6379; protocol = redis; timeout_ms = 5000 }

-- Dates are ignored, patterns are parts of a text.
abbrev toy_tls : TlsApi
toy_tls = record {
  parse_date = λ s. some 8640000000;
  check_server_identity = λ host c. none;
  is_ip = λ s. false;
  Pattern = Text;
  compile = λ s. s;
  compile_error = λ s. none;
  matches = includes;
}

abbrev web : TlsProbeOptions
web = record {
  host = codes "web";
  port = 443;
  timeout_ms = 5000;
  warn_days = 30;
  servername = none;
  verify_chain = true;
  verify_hostname = true;
  expect_cn_regex = some (codes "we");
}

abbrev certificate : PeerCertificate
certificate = record {
  valid_to = codes "later";
  subject_cn = some (codes "web");
  issuer_cn = none;
  subjectaltname = none;
}

abbrev session : TlsSession
session = record { certificate = some certificate; authorized = true; authorization_error = none }

judge-ok_example :
    ((judge toy_tls web 12 1000 session).ok ≡ true)
    ↔ ((c : PeerCertificate) × ((valid_to : ℕ) × Passes toy_tls web 1000 session c valid_to))
judge-ok_example = judge-ok toy_tls web 12 1000 session

abbrev db_answer : DbProbe → Option Bool
db_answer p = elim p.settled [ none ↦ none | some r ↦ some r.ok ]

redis_answers :
    db_answer (db_probe cache_server ((1, Db.ready) ∷ (2, Db.chunk (codes "+PONG")) ∷ []) db_start)
    ≡ some true
unfolding db_probe db_step speaks_protocol finish_db greeting
redis_answers = refl
