-- ===== src/Probes/Tcp.antt =====
-- `tcpProbe` of src/services/tcp-probe.ts, as the handlers of its socket. The decoder of UTF-8 is a
-- parameter; an event carries the milliseconds since the start.
pub mod Banner
pub mod Closed
use oo_workers.Prelude.{
  ℕ, ◌+◌, ◌-◌, min, Bool, true, false, ◌&&◌, ◌||◌, List, [], ◌∷◌, ◌++◌, Option, none, some, ltb,
  leb, length, take, concat, if◌then◌else◌,
}
use oo_workers.Text.{Text, codes, includes}
use oo_workers.Text.Decimal.{show}
use oo_workers.Probes.{SocketError, has_code, address, non_empty, is_some}

abbrev pub banner_cap : ℕ
banner_cap = 256

pub record TcpProbeOptions : Type 0 where
  pub host : Text
  pub port : ℕ
  pub timeout_ms : ℕ
  pub payload : Option (List ℕ)
  pub expect_banner : Option Text

pub record TcpProbeResult : Type 0 where
  pub ok : Bool
  pub latency_ms : ℕ
  pub banner : Option Text
  pub error_message : Option Text

pub data TcpEvent : Type 0 where
  connect : TcpEvent
  chunk : List ℕ → TcpEvent
  timeout : TcpEvent
  error : SocketError → TcpEvent
  -- `end` and `close`, which the probe has no handler for.
  closed : TcpEvent

-- `connected` tells whether the handler that `once` registered is used up; `written` logs the writes.
pub record TcpProbe : Type 0 where
  pub settled : Option TcpProbeResult
  pub connected : Bool
  pub chunks : List (List ℕ)
  pub received : ℕ
  pub written : List (List ℕ)

abbrev pub tcp_start : TcpProbe
tcp_start = record { settled = none; connected = false; chunks = []; received = 0; written = [] }

unfoldable pub want_banner : TcpProbeOptions → Bool
want_banner o = is_some o.payload || is_some (non_empty o.expect_banner)

unfoldable pub map_socket_error : SocketError → Text → ℕ → Text
map_socket_error e host port =
    if has_code e (codes "ENOTFOUND")
    then codes "DNS resolution failed: Host not found (" ++ (host ++ codes ")")
    else if has_code e (codes "ECONNREFUSED")
    then codes "Connection refused: Target machine actively refused it ("
      ++ (address host port ++ codes ")")
    else if has_code e (codes "ETIMEDOUT")
    then codes "Connection timed out (" ++ (address host port ++ codes ")")
    else if has_code e (codes "EHOSTUNREACH")
    then codes "Host unreachable (" ++ (host ++ codes ")")
    else if has_code e (codes "ENETUNREACH")
    then codes "Network unreachable (" ++ (host ++ codes ")")
    else elim e.message [ none ↦ codes "Unknown socket error" | some m ↦ m ]

unfoldable pub finish_tcp : TcpProbeResult → TcpProbe → TcpProbe
finish_tcp r p = elim p.settled [ none ↦ record p { settled = some r } | some _ ↦ p ]

abbrev pub succeeds : ℕ → Option Text → TcpProbeResult
succeeds ms banner = record { ok = true; latency_ms = ms; banner = banner; error_message = none }

abbrev pub fails : ℕ → Option Text → Text → TcpProbeResult
fails ms banner message = record {
  ok = false;
  latency_ms = ms;
  banner = banner;
  error_message = some message;
}

module _ (utf8 : List ℕ → Text) (o : TcpProbeOptions) where
  unfoldable pub on_connect : ℕ → TcpProbe → TcpProbe
  unfolding want_banner finish_tcp
  on_connect ms p =
      if p.connected
      then p
      else if want_banner o
      then elim o.payload [
        | none ↦ record p { connected = true }
        | some bytes ↦ record p { connected = true; written = bytes ∷ p.written }
      ]
      else finish_tcp (succeeds ms none) (record p { connected = true })

  -- What is kept of a packet.
  unfoldable pub store : List ℕ → TcpProbe → TcpProbe
  store d p =
      let room = banner_cap - p.received in
      if ltb 0 room
      then record p {
        chunks = p.chunks ++ take room d ∷ [];
        received = p.received + min (length d) room;
      }
      else p

  abbrev pub no_match : Text
  no_match = codes "Banner did not contain expected text (" ++ (address o.host o.port ++ codes ")")

  unfoldable pub on_data : ℕ → List ℕ → TcpProbe → TcpProbe
  unfolding store finish_tcp
  on_data ms d p =
      let p' = store d p in
      let banner = utf8 (concat p'.chunks) in
      elim (non_empty o.expect_banner) [
        | none ↦ finish_tcp (succeeds ms (some banner)) p'
        | some text ↦
            if includes text banner
            then finish_tcp (succeeds ms (some banner)) p'
            else if leb banner_cap p'.received
            then finish_tcp (fails ms (some banner) no_match) p'
            else p'
      ]

  abbrev pub banner_so_far : TcpProbe → Option Text
  banner_so_far p = elim p.chunks [ [] ↦ none | d ∷ ds ↦ some (utf8 (concat (d ∷ ds))) ]

  abbrev pub within : Text
  within = show o.timeout_ms ++ (codes "ms (" ++ (address o.host o.port ++ codes ")"))

  unfoldable pub timeout_message : TcpProbe → Text
  unfolding want_banner
  timeout_message p =
      if is_some (non_empty o.expect_banner) && is_some (banner_so_far p)
      then codes "Banner did not contain expected text within " ++ within
      else if want_banner o
      then codes "No banner within " ++ within
      else codes "Connection timed out after " ++ within

  unfoldable pub tcp_step : ℕ × TcpEvent → TcpProbe → TcpProbe
  unfolding on_connect on_data finish_tcp timeout_message map_socket_error
  tcp_step (ms, connect) p = on_connect ms p
  tcp_step (ms, chunk d) p = on_data ms d p
  tcp_step (ms, timeout) p = finish_tcp (fails ms (banner_so_far p) (timeout_message p)) p
  tcp_step (ms, error e) p = finish_tcp (fails ms none (map_socket_error e o.host o.port)) p
  tcp_step (ms, closed) p = p

  -- The probe on a run of events.
  unfoldable pub tcp_probe : List (ℕ × TcpEvent) → TcpProbe → TcpProbe
  unfolding tcp_step
  tcp_probe [] p = p
  tcp_probe (e ∷ es) p = tcp_probe es (tcp_step e p)
