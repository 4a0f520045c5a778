-- ===== src/Results/Wire.antt =====
-- The probes of src/services on what their sockets run into: the lookups, packets, errors and timers
-- that come for the options of a probe, its timer among them.
use oo_workers.Prelude.{
  ℕ, ◌≡◌, refl, Bool, true, false, List, Option, none, some, from_option, if◌then◌else◌, arith,
}
use oo_workers.Text.{Text, codes, text_eq}
use oo_workers.Probes.Tcp.{TcpProbeOptions, TcpProbeResult, TcpEvent, tcp_probe, tcp_start}
use oo_workers.Probes.Udp.{UdpProbeOptions, UdpProbeResult, UdpEvent, udp_probe, udp_start}
use oo_workers.Probes.Db.{
  DbProbeOptions, DbProtocol, postgres, mysql, redis, DbProbeResult, DbEvent, db_probe, db_start,
}
use oo_workers.Probes.Tls.{TlsApi, TlsProbeOptions, TlsProbeResult, TlsEvent, tls_probe, tls_start}
use oo_workers.Probes.Quiet.{
  is_quiet, tcp_probe-quiet, udp_probe-quiet, db_probe-quiet, tls_probe-quiet,
}
use oo_workers.Results.Api.{RequestOptions, ApiFetched}
use oo_workers.Results.Url.{Fetched}
use oo_workers.Results.Net.{Net}

pub record Wire : Type 0 where
  pub head : Text → ℕ → Fetched
  pub request : Text → RequestOptions → ℕ → ApiFetched
  pub tcp : TcpProbeOptions → List (ℕ × TcpEvent)
  pub udp : UdpProbeOptions → List (ℕ × UdpEvent)
  pub db : DbProbeOptions → (tls : Bool) → List (ℕ × DbEvent)
  pub tls : TlsProbeOptions → List (ℕ × TlsEvent)

-- `protocol as DbProtocol`, of one of the three that the routes let through.
abbrev pub protocol_of : Text → DbProtocol
protocol_of s =
    if text_eq s (codes "postgres")
    then postgres
    else if text_eq s (codes "mysql")
    then mysql
    else redis

-- In place of the answer that does not come if the events lack the timer.
abbrev no_tcp : TcpProbeResult
no_tcp = record { ok = false; latency_ms = 0; banner = none; error_message = none }

abbrev no_udp : UdpProbeResult
no_udp = record { ok = false; latency_ms = 0; response_bytes = none; error_message = none }

abbrev no_db : DbProbeResult
no_db = record { ok = false; latency_ms = 0; error_message = none }

abbrev no_tls : TlsProbeResult
no_tls = record {
  ok = false;
  latency_ms = 0;
  days_remaining = none;
  valid_to = none;
  cert_summary = none;
  error_message = none;
}

-- A probe that succeeds has no error to tell.
pub record IsQuiet (n : Net) : Type 0 where
  pub tcp : (o : TcpProbeOptions) → (n.tcp o).ok ≡ true → (n.tcp o).error_message ≡ none
  pub udp : (o : UdpProbeOptions) → (n.udp o).ok ≡ true → (n.udp o).error_message ≡ none
  pub db :
      (host : Text) (port : ℕ) (protocol : Text) (tls : Bool) (timeout_ms : ℕ)
      → (n.db host port protocol tls timeout_ms).ok ≡ true
      → (n.db host port protocol tls timeout_ms).error_message ≡ none
  pub tls : (o : TlsProbeOptions) → (n.tls o).ok ≡ true → (n.tls o).error_message ≡ none

is_quiet-message :
    (ok : Bool) (message : Option Text) → is_quiet ok message ≡ true → ok ≡ true → message ≡ none
is_quiet-message true none h e = refl
is_quiet-message true (some m) h e = absurd (ground (arith, h))
is_quiet-message false message h e = absurd (ground (arith, e))

settled-message {ℓ} :
    {R : Type ℓ} (ok : R → Bool) (message : R → Option Text) (fallback : R) (settled : Option R)
    → ok fallback ≡ false
    → elim settled [ none ↦ true | some r ↦ is_quiet (ok r) (message r) ] ≡ true
    → ok (from_option fallback settled) ≡ true
    → message (from_option fallback settled) ≡ none
settled-message ok message fallback none fails h e = absurd (ground (arith, fails, e))
settled-message ok message fallback (some r) fails h e = is_quiet-message (ok r) (message r) h e

module _ (utf8 : List ℕ → Text) (T : TlsApi) (W : Wire) where
  abbrev pub db_options : Text → ℕ → Text → ℕ → DbProbeOptions
  db_options host port protocol timeout_ms = record {
    host = host;
    port = port;
    protocol = protocol_of protocol;
    timeout_ms = timeout_ms;
  }

  unfoldable pub net_of : Net
  unfolding tcp_probe udp_probe db_probe tls_probe
  net_of = record {
    head = W.head;
    request = W.request;
    tcp = λ o. from_option no_tcp (tcp_probe utf8 o (W.tcp o) tcp_start).settled;
    udp = λ o. from_option no_udp (udp_probe o (W.udp o) udp_start).settled;
    db = λ host port protocol tls timeout_ms.
        from_option no_db
          (db_probe (db_options host port protocol timeout_ms)
            (W.db (db_options host port protocol timeout_ms) tls) db_start).settled;
    tls = λ o. from_option no_tls (tls_probe T o (W.tls o) tls_start).settled;
  }

  pub net_of-IsQuiet : IsQuiet net_of
  unfolding net_of
  net_of-IsQuiet = record {
    tcp = λ o.
        settled-message (λ (r : TcpProbeResult). r.ok) (λ (r : TcpProbeResult). r.error_message)
          no_tcp (tcp_probe utf8 o (W.tcp o) tcp_start).settled refl
          (tcp_probe-quiet utf8 o (W.tcp o) tcp_start refl);
    udp = λ o.
        settled-message (λ (r : UdpProbeResult). r.ok) (λ (r : UdpProbeResult). r.error_message)
          no_udp (udp_probe o (W.udp o) udp_start).settled refl
          (udp_probe-quiet o (W.udp o) udp_start refl);
    db = λ host port protocol tls timeout_ms.
        let o : DbProbeOptions = db_options host port protocol timeout_ms in
        settled-message (λ (r : DbProbeResult). r.ok) (λ (r : DbProbeResult). r.error_message) no_db
          (db_probe o (W.db o tls) db_start).settled refl
          (db_probe-quiet o (W.db o tls) db_start refl);
    tls = λ o.
        settled-message (λ (r : TlsProbeResult). r.ok) (λ (r : TlsProbeResult). r.error_message)
          no_tls (tls_probe T o (W.tls o) tls_start).settled refl
          (tls_probe-quiet T o (W.tls o) tls_start refl);
  }
