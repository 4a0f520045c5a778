-- ===== src/Heartbeat.antt =====
-- Heartbeats, the monitors that a service pings: src/db/repositories/heartbeat.repo.ts,
-- src/routes/heartbeat-public.ts and `tickHeartbeats` of src/scheduler.ts. `Rows` has lemmas on the
-- table, `Turns` and `Sweep` the laws.
pub mod Rows
pub mod Soundness
pub mod Marks
pub mod Pings
pub mod Turns
pub mod Sweep
pub mod Stale
use oo_workers.Prelude.{
  ℕ, suc, ◌+◌, ◌-◌, ◌*◌, ◌/◌, Bool, true, false, ◌&&◌, List, [], ◌∷◌, ◌++◌, Option, none, some, not,
  ◌==◌, ltb, any, keep, modify, head_opt, from_option, map, if◌then◌else◌,
}
use oo_workers.Text.{Text, codes, text_eq}
use oo_workers.Text.Decimal.{show}
use oo_workers.Db.{MonitorType, success, failed}
use oo_workers.Alert.{AlertContext, AlertEvent, outage, recovery}

pub data Status : Type 0 where
  awaited up overdue : Status

abbrev pub is_up : Status → Bool
is_up up = true
is_up _ = false

abbrev pub is_overdue : Status → Bool
is_overdue overdue = true
is_overdue _ = false

-- A row of `heartbeat_monitors`; the status `PENDING` is `awaited`.
pub record Heartbeat : Type 0 where
  pub id : ℕ
  pub name : Text
  pub description : Option Text
  pub token : Text
  pub period_seconds : ℕ
  pub grace_seconds : ℕ
  pub enabled : Bool
  pub status : Status
  pub last_ping_at : Option ℕ

-- The table, what was handed to `dispatchAlert`, and the `monitor-state` events, newest first.
pub record Board : Type 0 where
  pub rows : List Heartbeat
  pub next_id : ℕ
  pub alerts : List AlertContext
  pub sent : List (ℕ × Status)

-- `create`: the column `token` is unique, so an insert of one that is taken fails. `fresh` is what
-- `generateToken` would draw.
pub record NewHeartbeat : Type 0 where
  pub name : Text
  pub description : Option Text
  pub period_seconds : ℕ
  pub grace_seconds : Option ℕ
  pub enabled : Option Bool
  pub token : Option Text

abbrev pub taken : Text → List Heartbeat → Bool
taken token rows = any (λ r. text_eq r.token token) rows

unfoldable pub create : NewHeartbeat → Text → Board → Option (Board × Heartbeat)
unfolding any
create d fresh b =
    let token = from_option fresh d.token in
    let row : Heartbeat = record {
      id = b.next_id;
      name = d.name;
      description = d.description;
      token = token;
      period_seconds = d.period_seconds;
      grace_seconds = from_option 60 d.grace_seconds;
      enabled = from_option true d.enabled;
      status = awaited;
      last_ping_at = none;
    } in
    if taken token b.rows
    then none
    else some (record b { rows = row ∷ b.rows; next_id = suc b.next_id }, row)

-- The columns that `update` sets; a missing one is left as it is.
pub record Patch : Type 0 where
  pub name : Option Text
  pub description : Option (Option Text)
  pub period_seconds : Option ℕ
  pub grace_seconds : Option ℕ
  pub enabled : Option Bool

abbrev pub patched : Patch → Heartbeat → Heartbeat
patched p r = record r {
  name = from_option r.name p.name;
  description = from_option r.description p.description;
  period_seconds = from_option r.period_seconds p.period_seconds;
  grace_seconds = from_option r.grace_seconds p.grace_seconds;
  enabled = from_option r.enabled p.enabled;
}

unfoldable pub update : ℕ → Patch → Board → Board
unfolding modify
update id p b = record b { rows = modify (λ r. r.id == id) (patched p) b.rows }

unfoldable pub delete : ℕ → Board → Board
unfolding keep
delete id b = record b { rows = keep (λ r. not (r.id == id)) b.rows }

-- `WHERE token = … AND enabled`.
abbrev pub answers : Text → Heartbeat → Bool
answers token r = text_eq r.token token && r.enabled

-- `findByPublicToken`.
unfoldable pub find_by_public_token : Text → List Heartbeat → Option Heartbeat
unfolding keep
find_by_public_token token rows = head_opt (keep (answers token) rows)

abbrev pub pinged : ℕ → Heartbeat → Heartbeat
pinged now r = record r { last_ping_at = some now; status = up }

-- The debounce: `prior.lastPingAt && Date.now() - prior.lastPingAt.getTime() < 1000`.
abbrev pub is_rapid : ℕ → Option ℕ → Bool
is_rapid now none = false
is_rapid now (some t) = ltb (now - t) 1000

-- `recordPing`: null, or the row and whether it had been overdue.
record_found :
    Text → ℕ → Option Heartbeat → List Heartbeat → List Heartbeat × Option (Heartbeat × Bool)
unfolding modify keep
record_found token now none rows = (rows, none)
record_found token now (some prior) rows =
    if is_rapid now prior.last_ping_at
    then (rows, some (prior, false))
    else (let rows' = modify (answers token) (pinged now) rows in
        (rows', answer (head_opt (keep (answers token) rows')) (is_overdue prior.status)))
  where
    answer : Option Heartbeat → Bool → Option (Heartbeat × Bool)
    answer none late = none
    answer (some r) late = some (r, late)

unfoldable pub record_ping : Text → ℕ → List Heartbeat → List Heartbeat × Option (Heartbeat × Bool)
unfolding record_found find_by_public_token
record_ping token now rows = record_found token now (find_by_public_token token rows) rows

-- The condition of `findOverdue`: enabled, UP, and the last ping longer ago than period and grace.
-- A null `last_ping_at` makes the comparison null, which selects nothing.
abbrev pub is_late : ℕ → Heartbeat → Option ℕ → Bool
is_late now r none = false
is_late now r (some t) = ltb ((r.period_seconds + r.grace_seconds) * 1000) (now - t)

abbrev pub is_due : ℕ → Heartbeat → Bool
is_due now r = r.enabled && (is_up r.status && is_late now r r.last_ping_at)

unfoldable pub find_overdue : ℕ → List Heartbeat → List Heartbeat
unfolding keep
find_overdue now rows = keep (is_due now) rows

-- `markOverdue`: the rows that are still UP, whenever they were pinged.
abbrev pub is_markable : ℕ → Heartbeat → Bool
is_markable id r = r.id == id && is_up r.status

abbrev pub marked : Heartbeat → Heartbeat
marked r = record r { status = overdue }

unfoldable pub mark_overdue : ℕ → List Heartbeat → List Heartbeat × Option Heartbeat
unfolding modify keep
mark_overdue id rows =
    (modify (is_markable id) marked rows, head_opt (map marked (keep (is_markable id) rows)))

-- `Math.round(ms / 1000)`
abbrev seconds : ℕ → ℕ
seconds ms = (ms + 500) / 1000

abbrev pub overdue_message : ℕ → Heartbeat → Option ℕ → Text
overdue_message now h none = codes "no ping received yet"
overdue_message now h (some t) =
    codes "no ping in "
    ++ (show (seconds (now - t))
        ++ (codes "s (expected every "
            ++ (show h.period_seconds
                ++ (codes "s + " ++ (show h.grace_seconds ++ codes "s grace)")))))

-- The context of an alert about a heartbeat: its target is its name.
unfoldable pub heartbeat_alert : ℕ → Text → AlertEvent → Text → Option Text → ℕ → AlertContext
heartbeat_alert id name event status message now = record {
  type = MonitorType.heartbeat;
  id = id;
  name = name;
  target = name;
  event = event;
  status = status;
  status_code = none;
  error_message = message;
  duration_ms = none;
  start_time = now;
  region_slug = none;
}

-- The body of the loop in `tickHeartbeats`, for a row that `findOverdue` gave.
announce : ℕ → Heartbeat → Option Heartbeat → Board → Board
unfolding heartbeat_alert
announce now h none b = b
announce now h (some r) b = record b {
  sent = (h.id, overdue) ∷ b.sent;
  alerts =
      heartbeat_alert h.id h.name outage failed (some (overdue_message now h h.last_ping_at)) now
      ∷ b.alerts;
}

unfoldable pub sweep_one : ℕ → Heartbeat → Board → Board
unfolding announce mark_overdue
sweep_one now h b =
    let (rows, transitioned) = mark_overdue h.id b.rows in
    announce now h transitioned (record b { rows = rows })

unfoldable pub sweep_all : ℕ → List Heartbeat → Board → Board
unfolding sweep_one
sweep_all now [] b = b
sweep_all now (h ∷ hs) b = sweep_all now hs (sweep_one now h b)

-- `tickHeartbeats`.
unfoldable pub tick_heartbeats : ℕ → Board → Board
unfolding sweep_all find_overdue
tick_heartbeats now b = sweep_all now (find_overdue now b.rows) b

pub data Reply : Type 0 where
  bad_request not_found : Reply
  ok : Status → Option ℕ → Reply

abbrev recover : ℕ → Heartbeat → Bool → List AlertContext → List AlertContext
recover now r false alerts = alerts
recover now r true alerts = heartbeat_alert r.id r.name recovery success none now ∷ alerts

-- `POST /heartbeat/:token`, after its token was found to be there.
answer_ping : ℕ → Option (Heartbeat × Bool) → Board → Board × Reply
unfolding heartbeat_alert
answer_ping now none b = (b, not_found)
answer_ping now (some (r, was_overdue)) b = (
  record b { alerts = recover now r was_overdue b.alerts; sent = (r.id, r.status) ∷ b.sent },
  ok r.status r.last_ping_at,
)

unfoldable pub post_heartbeat : ℕ → Text → Board → Board × Reply
unfolding record_ping answer_ping
post_heartbeat now [] b = (b, bad_request)
post_heartbeat now (c ∷ token) b =
    let (rows, result) = record_ping (c ∷ token) now b.rows in
    answer_ping now result (record b { rows = rows })

-- `GET /heartbeat/:token`.
abbrev reply_row : Option Heartbeat → Reply
reply_row none = not_found
reply_row (some r) = ok r.status r.last_ping_at

unfoldable pub get_heartbeat : Text → Board → Reply
unfolding find_by_public_token
get_heartbeat [] b = bad_request
get_heartbeat (c ∷ token) b = reply_row (find_by_public_token (c ∷ token) b.rows)
