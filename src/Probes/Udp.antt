-- ===== src/Probes/Udp.antt =====
-- `udpProbe` of src/services/udp-probe.ts, as the callbacks of its timer, its lookup and its socket.
-- An event carries the milliseconds since the start.
pub mod Replies
use oo_workers.Prelude.{
  ℕ, Bool, true, false, not, ◌&&◌, ◌||◌, List, [], ◌∷◌, ◌++◌, map, Option, none, some, ◌==◌, any,
  from_option, if◌then◌else◌,
}
use oo_workers.Text.{Text, codes, text_eq}
use oo_workers.Text.Decimal.{show}
use oo_workers.Probes.{SocketError, has_code, address}

pub record UdpProbeOptions : Type 0 where
  pub host : Text
  pub port : ℕ
  pub payload : Option (List ℕ)
  pub expect_response : Bool
  pub timeout_ms : ℕ

pub record UdpProbeResult : Type 0 where
  pub ok : Bool
  pub latency_ms : ℕ
  pub response_bytes : Option ℕ
  pub error_message : Option Text

pub record LookupAddress : Type 0 where
  pub address : Text
  pub family : ℕ

pub record Datagram : Type 0 where
  pub port : ℕ
  pub address : Text
  pub size : ℕ

pub data UdpEvent : Type 0 where
  timer : UdpEvent
  resolved : Option SocketError → List LookupAddress → UdpEvent
  socket_error : SocketError → UdpEvent
  message : Datagram → UdpEvent
  sent : Option SocketError → UdpEvent

-- The socket: its family, and where an answer may come from. `sends` logs what was sent, and where.
pub record UdpSocket : Type 0 where
  pub type : Text
  pub valid_sources : List Text

pub record UdpProbe : Type 0 where
  pub settled : Option UdpProbeResult
  pub socket : Option UdpSocket
  pub sends : List (List ℕ × (ℕ × Text))

abbrev pub udp_start : UdpProbe
udp_start = record { settled = none; socket = none; sends = [] }

unfoldable pub map_udp_error : SocketError → Text → ℕ → Text
map_udp_error e host port =
    if has_code e (codes "ENOTFOUND")
    then codes "DNS resolution failed: Host not found (" ++ (host ++ codes ")")
    else if has_code e (codes "EAI_AGAIN")
    then codes "DNS resolution failed: temporary failure (" ++ (host ++ codes ")")
    else if has_code e (codes "EHOSTUNREACH")
    then codes "Host unreachable (" ++ (host ++ codes ")")
    else if has_code e (codes "ENETUNREACH")
    then codes "Network unreachable (" ++ (host ++ codes ")")
    else if has_code e (codes "EACCES")
    then codes "Permission denied sending to "
      ++ (address host port ++ codes " (port likely privileged)")
    else elim e.message [ none ↦ codes "Unknown socket error" | some m ↦ m ]

unfoldable pub finish_udp : UdpProbeResult → UdpProbe → UdpProbe
finish_udp r p = elim p.settled [ none ↦ record p { settled = some r } | some _ ↦ p ]

abbrev pub udp_ok : ℕ → Option ℕ → UdpProbeResult
udp_ok ms bytes = record {
  ok = true;
  latency_ms = ms;
  response_bytes = bytes;
  error_message = none;
}

abbrev pub udp_failed : ℕ → Text → UdpProbeResult
udp_failed ms text = record {
  ok = false;
  latency_ms = ms;
  response_bytes = none;
  error_message = some text;
}

abbrev pub not_found : SocketError
not_found = record { code = some (codes "ENOTFOUND"); message = none }

abbrev pub socket_type : ℕ → Text
socket_type family = if family == 6 then codes "udp6" else codes "udp4"

-- `rinfo.port !== opts.port || !validSources.has(rinfo.address)` does not hold.
unfoldable pub is_reply : ℕ → List Text → Datagram → Bool
is_reply port sources d = d.port == port && any (text_eq d.address) sources

module _ (o : UdpProbeOptions) where
  abbrev timer_message : Text
  timer_message =
      (if o.expect_response then codes "No response within " else codes "send timed out after ")
      ++ (show o.timeout_ms ++ (codes "ms (" ++ (address o.host o.port ++ codes ")")))

  abbrev refuse : ℕ → SocketError → UdpProbe → UdpProbe
  refuse ms e p = finish_udp (udp_failed ms (map_udp_error e o.host o.port)) p

  -- The callback of the lookup: it runs once.
  unfoldable pub on_resolved : ℕ → Option SocketError → List LookupAddress → UdpProbe → UdpProbe
  unfolding finish_udp map_udp_error
  on_resolved ms (some e) addresses p = refuse ms e p
  on_resolved ms none [] p = refuse ms not_found p
  on_resolved ms none (target ∷ others) p = elim p.settled [
    | some _ ↦ p
    | none ↦ record p {
      socket = some (record {
        type = socket_type target.family;
        valid_sources = map (λ (a : LookupAddress). a.address) (target ∷ others);
      });
      sends = (from_option [] o.payload, (o.port, target.address)) ∷ p.sends;
    }
  ]

  unfoldable pub on_message : ℕ → Datagram → UdpSocket → UdpProbe → UdpProbe
  unfolding is_reply finish_udp
  on_message ms d s p =
      if o.expect_response && is_reply o.port s.valid_sources d
      then finish_udp (udp_ok ms (some d.size)) p
      else p

  unfoldable pub on_sent : ℕ → Option SocketError → UdpProbe → UdpProbe
  unfolding finish_udp map_udp_error
  on_sent ms (some e) p = refuse ms e p
  on_sent ms none p = if o.expect_response then p else finish_udp (udp_ok ms none) p

  -- The events of the socket come only once there is one.
  unfoldable pub udp_step : ℕ × UdpEvent → UdpProbe → UdpProbe
  unfolding on_resolved on_message on_sent finish_udp map_udp_error
  udp_step (ms, timer) p = finish_udp (udp_failed ms timer_message) p
  udp_step (ms, resolved e addresses) p = elim p.socket [
    | some _ ↦ p
    | none ↦ on_resolved ms e addresses p
  ]
  udp_step (ms, socket_error e) p = elim p.socket [ none ↦ p | some s ↦ refuse ms e p ]
  udp_step (ms, message d) p = elim p.socket [ none ↦ p | some s ↦ on_message ms d s p ]
  udp_step (ms, sent e) p = elim p.socket [ none ↦ p | some s ↦ on_sent ms e p ]

  unfoldable pub udp_probe : List (ℕ × UdpEvent) → UdpProbe → UdpProbe
  unfolding udp_step
  udp_probe [] p = p
  udp_probe (e ∷ es) p = udp_probe es (udp_step e p)
