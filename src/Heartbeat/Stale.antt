-- ===== src/Heartbeat/Stale.antt =====
-- A ping between the query of a tick and its update (src/scheduler.ts, `tickHeartbeats`;
-- `markOverdue` asks only whether the row is UP, not when it was pinged).
use oo_workers.Prelude.{
  ℕ, ◌+◌, ◌*◌, ◌-◌, ◌≤◌, ◌≡◌, refl, ◌∙◌, ap, true, false, ◌∷◌, some, arith, head_opt, head-keep,
  keep, modify, ==_refl,
}
use oo_workers.Text.{Text}
use oo_workers.Db.{failed}
use oo_workers.Alert.{outage}
use oo_workers.Heartbeat.{
  Heartbeat, Board, answers, pinged, is_rapid, is_due, is_markable, marked, post_heartbeat,
  record_ping, record_found, answer_ping, find_by_public_token, sweep_one, heartbeat_alert,
  overdue_message,
}
use oo_workers.Heartbeat.Rows.{
  IsTable, find_row, changed, find_row-modify, modify-IsTable, head-keep-find_row,
}
use oo_workers.Heartbeat.Pings.{keep-modify}
use oo_workers.Heartbeat.Sweep.{sweep_one-alerts, sweep_one-rows}

module _ (c : ℕ) (cs : Text) (t u : ℕ) (b : Board) (prior : Heartbeat) (table : IsTable b.rows)
    (found : find_by_public_token (c ∷ cs) b.rows ≡ some prior)
    (fresh : is_rapid t prior.last_ping_at ≡ false) where
  abbrev after_ping : Board
  after_ping = (post_heartbeat t (c ∷ cs) b).0

  rows-after_ping :
      (post_heartbeat t (c ∷ cs) b).0.rows ≡ modify (answers (c ∷ cs)) (pinged t) b.rows
  unfolding post_heartbeat record_ping record_found answer_ping find_by_public_token
  rows-after_ping =
      let answered : head_opt
            (keep (answers (c ∷ cs)) (modify (answers (c ∷ cs)) (pinged t) b.rows))
          ≡ some (pinged t prior) =
        keep-modify (answers (c ∷ cs)) (pinged t) b.rows (λ r. refl)
        ∙ ap (changed (λ r. true) (pinged t)) found in
      rw (post_heartbeat, found, post_heartbeat, fresh, post_heartbeat, answered, post_heartbeat)
        refl

  row-after_ping : find_row prior.id after_ping.rows ≡ some (pinged t prior)
  unfolding find_by_public_token
  row-after_ping =
      let hit : answers (c ∷ cs) prior ≡ true = head-keep (answers (c ∷ cs)) b.rows prior found in
      ap (find_row prior.id) rows-after_ping
      ∙ find_row-modify (answers (c ∷ cs)) (pinged t) (λ r. refl) (λ r. refl) prior.id b.rows
      ∙ ap (changed (answers (c ∷ cs)) (pinged t))
          (head-keep-find_row (answers (c ∷ cs)) b.rows prior table found)
      ∙ rw hit refl

  IsTable-after_ping : IsTable after_ping.rows
  IsTable-after_ping =
      rw rows-after_ping
        (modify-IsTable (answers (c ∷ cs)) (pinged t) (λ r. refl) (λ r. refl) b.rows table)

  -- Ids and tokens are unique. A tick that read a heartbeat, and a ping that is not debounced and
  -- comes before the tick marks it: the row is not due then, and yet it is marked OVERDUE beside the
  -- new time of its last ping, and an outage goes out.
  pub stale_sweep :
      u - t ≤ (prior.period_seconds + prior.grace_seconds) * 1000
      → (is_due u (pinged t prior) ≡ false)
        × (find_row prior.id after_ping.rows ≡ some (pinged t prior))
        × (find_row prior.id (sweep_one u prior after_ping).rows ≡ some (marked (pinged t prior)))
        × ((sweep_one u prior after_ping).alerts
            ≡ heartbeat_alert prior.id prior.name outage failed
                (some (overdue_message u prior prior.last_ping_at))
                u
              ∷ after_ping.alerts)
  stale_sweep soon =
      let hit : is_markable prior.id (pinged t prior) ≡ true = rw (==_refl prior.id) refl in
      (
        ground (arith, soon),
        row-after_ping,
        ap (find_row prior.id) (sweep_one-rows u prior after_ping)
            ∙ find_row-modify (is_markable prior.id) marked (λ r. refl) (λ r. refl) prior.id
                after_ping.rows
            ∙ ap (changed (is_markable prior.id) marked) row-after_ping
            ∙ rw hit refl,
        sweep_one-alerts u prior after_ping IsTable-after_ping
            (pinged t prior, row-after_ping, refl),
      )
