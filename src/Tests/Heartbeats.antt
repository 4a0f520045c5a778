-- ===== src/Tests/Heartbeats.antt =====
-- Runs of heartbeats: src/db/repositories/heartbeat.repo.ts and its callers.
use oo_workers.Prelude.{◌≡◌, refl, Bool, true, false, List, [], ◌∷◌, none, some, arith}
use oo_workers.Text.{codes}
use oo_workers.Db.{failed}
use oo_workers.Alert.{outage}
use oo_workers.Heartbeat.{
  Heartbeat, Board, NewHeartbeat, Status, is_overdue, find_overdue, tick_heartbeats, post_heartbeat,
  sweep_one, is_due, pinged, marked, heartbeat_alert, overdue_message, find_by_public_token,
}
use oo_workers.Heartbeat.Rows.{find_row}
use oo_workers.Heartbeat.Soundness.{events_of, TakesTurns}
use oo_workers.Heartbeat.Turns.{Op, insert, post, tick, apply_all, no_heartbeats, events-TakesTurns}
use oo_workers.Heartbeat.Sweep.{outages, tick_heartbeats-alerts}
use oo_workers.Heartbeat.Stale.{stale_sweep}

abbrev backup_job : NewHeartbeat
backup_job = record {
  name = codes "backup";
  description = none;
  period_seconds = 60;
  grace_seconds = none;
  enabled = none;
  token = none;
}

abbrev missed_once : List Op
missed_once =
    insert backup_job (codes "t0k3n")
    ∷ post 1000 (codes "t0k3n")
    ∷ tick 122000
    ∷ tick 127000
    ∷ post 130000 (codes "t0k3n")
    ∷ []

events-TakesTurns_example :
    (late : Bool) × TakesTurns late (events_of 1 (apply_all missed_once no_heartbeats).alerts)
    × ((r : Heartbeat)
        → find_row 1 (apply_all missed_once no_heartbeats).rows ≡ some r
        → is_overdue r.status ≡ late)
events-TakesTurns_example = events-TakesTurns 1 missed_once

abbrev job : Heartbeat
job = record {
  id = 1;
  name = codes "backup";
  description = none;
  token = codes "t0k3n";
  period_seconds = 60;
  grace_seconds = 60;
  enabled = true;
  status = Status.up;
  last_ping_at = some 1000;
}

abbrev board : Board
board = record { rows = job ∷ []; next_id = 2; alerts = []; sent = [] }

tick_heartbeats-alerts_example :
    (tick_heartbeats 122000 board).alerts ≡ outages 122000 (find_overdue 122000 (job ∷ [])) []
tick_heartbeats-alerts_example = tick_heartbeats-alerts 122000 board (tt, tt)

abbrev just_pinged : Board
just_pinged = (post_heartbeat 122001 (codes "t0k3n") board).0

stale_sweep_example :
    (is_due 122002 (pinged 122001 job) ≡ false)
    × (find_row 1 just_pinged.rows ≡ some (pinged 122001 job))
    × (find_row 1 (sweep_one 122002 job just_pinged).rows ≡ some (marked (pinged 122001 job)))
    × ((sweep_one 122002 job just_pinged).alerts
        ≡ heartbeat_alert 1
            (codes "backup")
            outage
            failed
            (some (overdue_message 122002 job (some 1000)))
            122002
          ∷ just_pinged.alerts)
stale_sweep_example =
    stale_sweep b't' (codes "0k3n") 122001 122002 board job (tt, tt)
      (unfold find_by_public_token in refl) refl (omega arith)
