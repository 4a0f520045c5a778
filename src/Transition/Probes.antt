-- ===== src/Transition/Probes.antt =====
-- `previousStatus` and `maybeAlertOnTransition`: monitors with one execution row for each probe.
pub mod Previous
pub mod History
pub mod FanOut
use oo_workers.Prelude.{
  ℕ, ◌≡◌, Bool, true, false, not, ◌&&◌, ◌||◌, List, [], ◌∷◌, Option, none, some, ◌==◌, from_option,
  if◌then◌else◌, keep,
}
use oo_workers.Text.{Text, codes, text_eq}
use oo_workers.Db.{MonitorType, Exec, type_eq}
use oo_workers.Alert.{AlertContext, AlertEvent, outage, recovery}
use oo_workers.Transition.{Outcome, up, down, other, normalize_outcome}
use oo_workers.Transition.Latest.{latest}

-- The rows without a verdict, which only the lookup of a QA project leaves out.
abbrev pub qa_exec_abandoned : Text
qa_exec_abandoned = codes "abandoned"

abbrev pub is_qa : MonitorType → Bool
is_qa MonitorType.qa = true
is_qa _ = false

unfoldable pub is_previous : MonitorType → ℕ → ℕ → Exec → Bool
is_previous kind monitor_id current r =
    type_eq r.kind kind
    && (r.monitor_id == monitor_id
        && (not (r.id == current)
            && not (
                is_qa kind
                && (text_eq r.status qa_exec_abandoned || text_eq r.status (codes "running")))))

abbrev pub status_of : Option Exec → Option Text
status_of none = none
status_of (some r) = some r.status

-- `previousStatus`, for every kind of monitor.
unfoldable pub previous_status : List Exec → MonitorType → ℕ → ℕ → Option Text
unfolding is_previous latest keep
previous_status rows kind monitor_id current =
    status_of (latest (λ r. r.start_time) (keep (is_previous kind monitor_id current) rows))

-- What the other tables answer: `fetchMonitorMeta`, the region's slug, and whether a query throws.
pub record Lookups : Type 0 where
  pub meta : MonitorType → ℕ → Option (Text × Text)
  pub slug : ℕ → Option Text
  pub throws : Bool

-- `TransitionDetail`; `start_time` is the time of the call where the caller gives none.
pub record TransitionDetail : Type 0 where
  pub status_code : Option ℕ
  pub error_message : Option Text
  pub duration_ms : Option ℕ
  pub region_id : Option ℕ
  pub start_time : ℕ

abbrev pub region_slug_by_id : (ℕ → Option Text) → Option ℕ → Option Text
region_slug_by_id slug none = none
region_slug_by_id slug (some id) = slug id

-- The event of a change between two outcomes, if it is one.
unfoldable pub event_of : Outcome → Outcome → Option AlertEvent
event_of up down = some outage
event_of down up = some recovery
event_of _ _ = none

infixl 5 ◌>>=◌
abbrev pub ◌>>=◌ {ℓ κ} : {A : Type ℓ} {B : Type κ} → Option A → (A → Option B) → Option B
none >>= f = none
some a >>= f = f a

-- `monitorMeta`: a heartbeat has none.
unfoldable pub monitor_meta : Lookups → MonitorType → ℕ → Option (Text × Text)
monitor_meta l MonitorType.heartbeat id = none
monitor_meta l kind id = l.meta kind id

-- `maybeAlertOnTransition`: the context that is handed to `dispatchAlert`, if any.
unfoldable pub maybe_alert_on_transition :
    Lookups → List Exec → MonitorType → ℕ → ℕ → Text → TransitionDetail → Option AlertContext
unfolding previous_status event_of monitor_meta normalize_outcome
maybe_alert_on_transition l rows kind monitor_id exec_id status detail =
    if l.throws then none else do
      prev ← previous_status rows kind monitor_id exec_id
      event ← event_of (normalize_outcome prev) (normalize_outcome status)
      (name, target) ← monitor_meta l kind monitor_id
      some (record {
        type = kind;
        id = monitor_id;
        name = name;
        target = target;
        event = event;
        status = status;
        status_code = detail.status_code;
        error_message = detail.error_message;
        duration_ms = detail.duration_ms;
        start_time = detail.start_time;
        region_slug = region_slug_by_id l.slug detail.region_id;
      })
