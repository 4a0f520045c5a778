-- ===== src/StatusPage.antt =====
-- The public status page: src/services/status-page-aggregator.ts and
-- src/services/exec-projection.ts. `Overall`, `Uptime`, `Bars` and `Stalled` have the laws. A day is
-- a day of UTC, which the database session is taken to use.
pub mod Overall
pub mod Uptime
pub mod Bars
pub mod Stalled
use oo_workers.Prelude.{
  ℕ, zero, suc, ◌+◌, ◌-◌, ◌*◌, ◌/◌, Bool, true, false, ◌&&◌, ◌||◌, List, [], ◌∷◌, Option, none,
  some, ◌==◌, ltb, leb, any, all, keep, length, from_option, if◌then◌else◌,
}
use oo_workers.Double.{rounded}
use oo_workers.Text.{Text, codes, text_eq, to_upper}
use oo_workers.Db.{MonitorType, Exec, type_eq, pending, failed}
use oo_workers.Transition.Latest.{latest}

pub data DayState : Type 0 where
  up down unknown : DayState

pub data OverallStatus : Type 0 where
  up down degraded unknown : OverallStatus

-- `normalize`.
unfoldable pub normalize : Text → DayState
normalize status =
    let s = to_upper status in
    if text_eq s (codes "SUCCESS") || text_eq s (codes "PASSED")
    then DayState.up
    else if text_eq s (codes "FAILED") || (text_eq s (codes "FAILURE") || text_eq s (codes "ERROR"))
    then DayState.down
    else DayState.unknown

-- The rows of a monitor, and the two sets of statuses that the queries name.
abbrev pub is_of : MonitorType → ℕ → Exec → Bool
is_of kind id r = type_eq r.kind kind && r.monitor_id == id

unfoldable pub is_success : Exec → Bool
is_success r = text_eq r.status (codes "SUCCESS") || text_eq r.status (codes "passed")

unfoldable pub is_failure : Exec → Bool
is_failure r =
    text_eq r.status (codes "FAILED")
    || (text_eq r.status (codes "failed")
        || (text_eq r.status (codes "ERROR") || text_eq r.status (codes "error")))

abbrev pub day_ms : ℕ
day_ms = 86400000

abbrev pub day_of : ℕ → ℕ
day_of t = t / day_ms

-- `dayBuckets`: the rows of one day among those since a time; none if the day has no bucket.
unfoldable pub bucket : MonitorType → ℕ → ℕ → ℕ → List Exec → List Exec
unfolding keep
bucket kind id since day rows =
    keep (λ r. is_of kind id r && (leb since r.start_time && day_of r.start_time == day)) rows

-- One bar: a day without bucket has no row, so neither test holds.
unfoldable pub bar_of : List Exec → DayState
unfolding any is_success is_failure
bar_of rows =
    if any is_failure rows
    then DayState.down
    else if any is_success rows
    then DayState.up
    else DayState.unknown

unfoldable pub bar : MonitorType → ℕ → ℕ → List Exec → ℕ → DayState
unfolding bucket bar_of
bar kind id now rows i =
    bar_of (bucket kind id (now - 90 * day_ms) (day_of (now - i * day_ms)) rows)

-- The slots of the loop from `i = n - 1` down to 0.
unfoldable pub bars : MonitorType → ℕ → ℕ → List Exec → ℕ → List DayState
unfolding bar
bars kind id now rows zero = []
bars kind id now rows (suc i) = bar kind id now rows i ∷ bars kind id now rows i

abbrev pub bars90d : MonitorType → ℕ → ℕ → List Exec → List DayState
bars90d kind id now rows = bars kind id now rows 90

-- `uptime24h`, in tenths of a percent.
unfoldable pub uptime24h : MonitorType → ℕ → ℕ → List Exec → Option ℕ
unfolding keep is_success rounded
uptime24h kind id since rows =
    let window = keep (λ r. is_of kind id r && leb since r.start_time) rows in
    let total = length window in
    if total == 0 then none else some (rounded (length (keep is_success window)) total)

abbrev pub state_of : ℕ → ℕ → Option Exec → DayState
state_of now interval none = DayState.unknown
state_of now interval (some r) =
    if text_eq r.status pending && ltb (interval * 2000) (now - r.start_time)
    then DayState.down
    else normalize r.status

-- `currentStatus`.
unfoldable pub current_status : MonitorType → ℕ → ℕ → ℕ → List Exec → DayState
unfolding latest keep normalize
current_status kind id now interval rows =
    state_of now interval (latest (λ r. r.start_time) (keep (is_of kind id) rows))

-- `projectStalled` of src/services/exec-projection.ts.
unfoldable pub project_stalled : ℕ → ℕ → Exec → Exec
project_stalled now interval r =
    if text_eq r.status pending
    then if leb (now - r.start_time) (interval * 2000) then r else record r {
      status = failed;
      error_message =
          some (from_option (codes "no result within 2× interval (stalled)") r.error_message);
    }
    else r

abbrev pub is_state_up : DayState → Bool
is_state_up DayState.up = true
is_state_up _ = false

abbrev pub is_state_down : DayState → Bool
is_state_down DayState.down = true
is_state_down _ = false

abbrev pub is_state_unknown : DayState → Bool
is_state_unknown DayState.unknown = true
is_state_unknown _ = false

-- The banner of `summarizeStatusPage`, from the current status of each monitor.
unfoldable pub overall : List DayState → OverallStatus
unfolding any all
overall states =
    if any is_state_down states
    then OverallStatus.down
    else if all is_state_unknown states
    then OverallStatus.unknown
    else if ltb 0 (length states) && all is_state_up states
    then OverallStatus.up
    else OverallStatus.degraded
