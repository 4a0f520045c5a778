-- ===== src/Probes/Db.antt =====
-- `dbProbe` of src/services/db-probe.ts, as the handlers of its socket and its timer.
use oo_workers.Prelude.{
  ℕ, Bool, true, false, ◌&&◌, ◌||◌, List, [], ◌∷◌, ◌++◌, Option, none, some, ◌==◌, leb, length,
  drop, head_opt, if◌then◌else◌,
}
use oo_workers.Text.{Text, codes}
use oo_workers.Text.Decimal.{show}
use oo_workers.Probes.{SocketError, has_code, address}

pub data DbProtocol : Type 0 where
  postgres mysql redis : DbProtocol

abbrev pub protocol_name : DbProtocol → Text
protocol_name postgres = codes "postgres"
protocol_name mysql = codes "mysql"
protocol_name redis = codes "redis"

pub record DbProbeOptions : Type 0 where
  pub host : Text
  pub port : ℕ
  pub protocol : DbProtocol
  pub timeout_ms : ℕ

pub record DbProbeResult : Type 0 where
  pub ok : Bool
  pub latency_ms : ℕ
  pub error_message : Option Text

-- `ready` is `connect`, or `secureConnect` where the socket is wrapped in TLS.
pub data DbEvent : Type 0 where
  timer : DbEvent
  ready : DbEvent
  chunk : List ℕ → DbEvent
  error : SocketError → DbEvent
  close : DbEvent

pub record DbProbe : Type 0 where
  pub settled : Option DbProbeResult
  pub asked : Bool
  pub written : List (List ℕ)

abbrev pub db_start : DbProbe
db_start = record { settled = none; asked = false; written = [] }

-- The StartupMessage: its length and the protocol, 3.0, in four bytes each, then the parameters.
unfoldable pub pg_startup : List ℕ
pg_startup =
    0 ∷ 0 ∷ 0 ∷ 23 ∷ 0 ∷ 3 ∷ 0 ∷ 0 ∷ (codes "user" ++ (0 ∷ (codes "liveness" ++ (0 ∷ 0 ∷ []))))

abbrev pub byte_is : Option ℕ → ℕ → Bool
byte_is none k = false
byte_is (some b) k = b == k

abbrev pub byte_at : ℕ → List ℕ → Option ℕ
byte_at i bytes = head_opt (drop i bytes)

unfoldable pub speaks_protocol : DbProtocol → List ℕ → Bool
speaks_protocol redis bytes = byte_is (byte_at 0 bytes) 0x2b || byte_is (byte_at 0 bytes) 0x2d
speaks_protocol mysql bytes =
    leb 5 (length bytes)
    && (byte_is (byte_at 4 bytes) 0x0a
        || (byte_is (byte_at 4 bytes) 0x09 || byte_is (byte_at 4 bytes) 0xff))
speaks_protocol postgres bytes = byte_is (byte_at 0 bytes) 0x52 || byte_is (byte_at 0 bytes) 0x45

unfoldable pub map_err : SocketError → Text → ℕ → Text
map_err e host port =
    if has_code e (codes "ECONNREFUSED")
    then codes "connection refused (" ++ (address host port ++ codes ") — nothing listening")
    else if has_code e (codes "ETIMEDOUT")
    then codes "connect timed out (" ++ (address host port ++ codes ")")
    else if has_code e (codes "ENOTFOUND")
    then codes "DNS resolution failed: host not found (" ++ (host ++ codes ")")
    else if has_code e (codes "EHOSTUNREACH")
    then codes "host unreachable (" ++ (host ++ codes ")")
    else if has_code e (codes "ENETUNREACH")
    then codes "network unreachable (" ++ (host ++ codes ")")
    else elim e.message [ none ↦ codes "unknown socket error" | some m ↦ m ]

unfoldable pub finish_db : DbProbeResult → DbProbe → DbProbe
finish_db r p = elim p.settled [ none ↦ record p { settled = some r } | some _ ↦ p ]

abbrev pub fail_db : ℕ → Text → DbProbe → DbProbe
fail_db ms text = finish_db (record { ok = false; latency_ms = ms; error_message = some text })

-- What the probe says first; a mysql server speaks first.
unfoldable pub greeting : DbProtocol → List (List ℕ)
unfolding pg_startup
greeting redis = (codes "PING" ++ (13 ∷ 10 ∷ [])) ∷ []
greeting postgres = pg_startup ∷ []
greeting mysql = []

module _ (o : DbProbeOptions) where
  abbrev pub target : Text
  target = codes " (" ++ (address o.host o.port ++ codes ")")

  unfoldable pub db_step : ℕ × DbEvent → DbProbe → DbProbe
  unfolding finish_db map_err speaks_protocol greeting
  db_step (ms, timer) p =
      fail_db ms
        (codes "timed out after "
          ++ (show o.timeout_ms
              ++ (codes "ms ("
                  ++ (protocol_name o.protocol
                      ++ (codes " " ++ (address o.host o.port ++ codes ")"))))))
        p
  db_step (ms, ready) p =
      if p.asked then p else record p { asked = true; written = greeting o.protocol ++ p.written }
  db_step (ms, chunk bytes) p =
      if speaks_protocol o.protocol bytes
      then finish_db (record { ok = true; latency_ms = ms; error_message = none }) p
      else fail_db ms (codes "response did not look like " ++ (protocol_name o.protocol ++ target))
          p
  db_step (ms, error e) p = fail_db ms (map_err e o.host o.port) p
  db_step (ms, close) p =
      fail_db ms
        (codes "closed before a " ++ (protocol_name o.protocol ++ (codes " response" ++ target))) p

  unfoldable pub db_probe : List (ℕ × DbEvent) → DbProbe → DbProbe
  unfolding db_step
  db_probe [] p = p
  db_probe (e ∷ es) p = db_probe es (db_step e p)
