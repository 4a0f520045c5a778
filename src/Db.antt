-- ===== src/Db.antt =====
-- Rows that several components share (src/db/schema.ts, src/db/repositories): the kinds of monitor,
-- and the execution rows. The source has one table of executions for each kind; here a row carries
-- its kind, and a query names it.
use oo_workers.Prelude.{ℕ, Bool, ◌&&◌, List, [], ◌∷◌, Option, ◌==◌, if◌then◌else◌}
use oo_workers.Text.{Text, codes}

pub data MonitorType : Type 0 where
  url api tcp udp qa db tls heartbeat : MonitorType

abbrev pub type_name : MonitorType → Text
type_name url = codes "url"
type_name api = codes "api"
type_name tcp = codes "tcp"
type_name udp = codes "udp"
type_name qa = codes "qa"
type_name db = codes "db"
type_name tls = codes "tls"
type_name heartbeat = codes "heartbeat"

abbrev pub type_index : MonitorType → ℕ
type_index url = 0
type_index api = 1
type_index tcp = 2
type_index udp = 3
type_index qa = 4
type_index db = 5
type_index tls = 6
type_index heartbeat = 7

-- `===` on the type tag.
abbrev pub type_eq : MonitorType → MonitorType → Bool
type_eq a b = type_index a == type_index b

-- What one assertion came to, as it is stored.
pub record AssertionResult : Type 0 where
  pub operator : Text
  pub passed : Bool
  pub message : Text

-- A whole number of days, also below zero: `ago n` is -n.
pub data Days : Type 0 where
  left : ℕ → Days
  ago : ℕ → Days

-- The columns that only some kinds have.
pub data Extra : Type 0 where
  no_extra : Extra
  http : (status_code : Option ℕ) (assertion_results : Option (List AssertionResult)) → Extra
  response :
      (status : Option ℕ) (body : Option Text) (headers : Option (List (Text × Text)))
      (assertion_results : Option (List AssertionResult))
      → Extra
  banner : Option Text → Extra
  response_bytes : Option ℕ → Extra
  certificate : (days_remaining : Option Days) (valid_to : Option ℕ) (summary : Option Text) → Extra
  artifacts : (trace_url : Option Text) → (screenshots : List Text) → Extra

pub record Exec : Type 0 where
  pub kind : MonitorType
  pub id : ℕ
  pub monitor_id : ℕ
  pub region_id : Option ℕ
  pub run_id : Option ℕ
  pub status : Text
  pub latency_ms : Option ℕ
  pub error_message : Option Text
  pub extra : Extra
  pub start_time : ℕ
  pub end_time : Option ℕ

abbrev pub success : Text
success = codes "SUCCESS"

abbrev pub failed : Text
failed = codes "FAILED"

abbrev pub pending : Text
pending = codes "PENDING"

-- `WHERE id = …` in the table of one kind.
abbrev pub is_row : MonitorType → ℕ → Exec → Bool
is_row kind id r = type_eq r.kind kind && r.id == id

-- `UPDATE … SET … WHERE id = …`.
unfoldable pub update_where : (Exec → Bool) → (Exec → Exec) → List Exec → List Exec
update_where p f [] = []
update_where p f (r ∷ rows) = (if p r then f r else r) ∷ update_where p f rows
