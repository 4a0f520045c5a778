-- ===== src/Probes/Quiet.antt =====
-- A probe of src/services that succeeds has no error to tell.
use oo_workers.Prelude.{ℕ, ◌≡◌, Bool, true, false, List, [], ◌∷◌, Option, none, some, arith}
use oo_workers.Text.{Text}
use oo_workers.Probes.Tcp
use oo_workers.Probes.Tcp.{
  TcpProbeOptions, TcpProbeResult, TcpProbe, TcpEvent, tcp_step, tcp_probe, finish_tcp, on_connect,
  on_data, store,
}
use oo_workers.Probes.Udp
use oo_workers.Probes.Udp.{
  UdpProbeOptions, UdpProbeResult, UdpProbe, UdpEvent, udp_probe, udp_step, finish_udp, on_resolved,
  on_message, on_sent,
}
use oo_workers.Probes.Db
use oo_workers.Probes.Db.{
  DbProbeOptions, DbProbeResult, DbProbe, DbEvent, db_probe, db_step, finish_db,
}
use oo_workers.Probes.Tls
use oo_workers.Probes.Tls.{
  TlsApi, TlsProbeOptions, TlsProbeResult, TlsProbe, TlsEvent, tls_probe, tls_step, finish_tls,
  judge, judge_dated,
}

-- Of an outcome: a success comes without a message.
abbrev pub is_quiet : Bool → Option Text → Bool
is_quiet true none = true
is_quiet true (some m) = false
is_quiet false m = true

abbrev pub tcp_quiet : TcpProbe → Bool
tcp_quiet p = elim p.settled [ none ↦ true | some r ↦ is_quiet r.ok r.error_message ]

abbrev pub udp_quiet : UdpProbe → Bool
udp_quiet p = elim p.settled [ none ↦ true | some r ↦ is_quiet r.ok r.error_message ]

abbrev pub db_quiet : DbProbe → Bool
db_quiet p = elim p.settled [ none ↦ true | some r ↦ is_quiet r.ok r.error_message ]

abbrev pub tls_quiet : TlsProbe → Bool
tls_quiet p = elim p.settled [ none ↦ true | some r ↦ is_quiet r.ok r.error_message ]

module _ (utf8 : List ℕ → Text) (o : TcpProbeOptions) where
  tcp_step-quiet :
      (e : ℕ × TcpEvent) (p : TcpProbe)
      → tcp_quiet p ≡ true
      → tcp_quiet (tcp_step utf8 o e p) ≡ true
  unfolding tcp_step on_connect on_data finish_tcp store
  tcp_step-quiet (ms, Tcp.connect) p h = ground arith
  tcp_step-quiet (ms, Tcp.chunk d) p h = ground arith
  tcp_step-quiet (ms, Tcp.timeout) p h = ground arith
  tcp_step-quiet (ms, Tcp.error e) p h = ground arith
  tcp_step-quiet (ms, Tcp.closed) p h = h

  pub tcp_probe-quiet :
      (es : List (ℕ × TcpEvent)) (p : TcpProbe)
      → tcp_quiet p ≡ true
      → tcp_quiet (tcp_probe utf8 o es p) ≡ true
  unfolding tcp_probe
  tcp_probe-quiet [] p h = h
  tcp_probe-quiet (e ∷ es) p h = tcp_probe-quiet es (tcp_step utf8 o e p) (tcp_step-quiet e p h)

module _ (o : UdpProbeOptions) where
  udp_step-quiet :
      (e : ℕ × UdpEvent) (p : UdpProbe) → udp_quiet p ≡ true → udp_quiet (udp_step o e p) ≡ true
  unfolding udp_step on_resolved on_message on_sent finish_udp
  udp_step-quiet (ms, Udp.timer) p h = ground arith
  udp_step-quiet (ms, Udp.resolved none []) p h = ground arith
  udp_step-quiet (ms, Udp.resolved none (a ∷ others)) p h = ground arith
  udp_step-quiet (ms, Udp.resolved (some e) others) p h = ground arith
  udp_step-quiet (ms, Udp.socket_error e) p h = ground arith
  udp_step-quiet (ms, Udp.message d) p h = ground arith
  udp_step-quiet (ms, Udp.sent none) p h = ground arith
  udp_step-quiet (ms, Udp.sent (some e)) p h = ground arith

  pub udp_probe-quiet :
      (es : List (ℕ × UdpEvent)) (p : UdpProbe)
      → udp_quiet p ≡ true
      → udp_quiet (udp_probe o es p) ≡ true
  unfolding udp_probe
  udp_probe-quiet [] p h = h
  udp_probe-quiet (e ∷ es) p h = udp_probe-quiet es (udp_step o e p) (udp_step-quiet e p h)

module _ (o : DbProbeOptions) where
  db_step-quiet :
      (e : ℕ × DbEvent) (p : DbProbe) → db_quiet p ≡ true → db_quiet (db_step o e p) ≡ true
  unfolding db_step finish_db
  db_step-quiet (ms, Db.timer) p h = ground arith
  db_step-quiet (ms, Db.ready) p h = ground arith
  db_step-quiet (ms, Db.chunk d) p h = ground arith
  db_step-quiet (ms, Db.error e) p h = ground arith
  db_step-quiet (ms, Db.close) p h = ground arith

  pub db_probe-quiet :
      (es : List (ℕ × DbEvent)) (p : DbProbe)
      → db_quiet p ≡ true
      → db_quiet (db_probe o es p) ≡ true
  unfolding db_probe
  db_probe-quiet [] p h = h
  db_probe-quiet (e ∷ es) p h = db_probe-quiet es (db_step o e p) (db_step-quiet e p h)

module _ (T : TlsApi) (o : TlsProbeOptions) where
  judge-quiet :
      (ms now : ℕ) (s : _)
      → is_quiet (judge T o ms now s).ok (judge T o ms now s).error_message ≡ true
  unfolding judge judge_dated
  judge-quiet ms now s = ground arith

  tls_step-quiet :
      (e : ℕ × TlsEvent) (p : TlsProbe) → tls_quiet p ≡ true → tls_quiet (tls_step T o e p) ≡ true
  unfolding tls_step finish_tls
  tls_step-quiet (ms, Tls.secure_connect now s) p h = ground (arith, judge-quiet ms now s)
  tls_step-quiet (ms, Tls.timeout) p h = ground arith
  tls_step-quiet (ms, Tls.error e) p h = ground arith

  pub tls_probe-quiet :
      (es : List (ℕ × TlsEvent)) (p : TlsProbe)
      → tls_quiet p ≡ true
      → tls_quiet (tls_probe T o es p) ≡ true
  unfolding tls_probe
  tls_probe-quiet [] p h = h
  tls_probe-quiet (e ∷ es) p h = tls_probe-quiet es (tls_step T o e p) (tls_step-quiet e p h)
