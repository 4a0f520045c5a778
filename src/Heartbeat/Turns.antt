-- ===== src/Heartbeat/Turns.antt =====
-- Outages and recoveries of a heartbeat under every interleaving of pings, sweeps and edits
-- (src/scheduler.ts, src/routes/heartbeat-public.ts, src/db/repositories/heartbeat.repo.ts).
use oo_workers.Prelude.{
  ℕ, ◌≡◌, refl, ap, subst, Bool, false, List, [], ◌∷◌, some, ◌==◌, ==_iff, ==_refl, Bool-cases, inl,
  inr,
}
use oo_workers.Text.{Text}
use oo_workers.Heartbeat.{
  Heartbeat, Board, NewHeartbeat, Patch, is_overdue, create, update, delete, post_heartbeat,
  sweep_one, sweep_all, tick_heartbeats, find_overdue,
}
use oo_workers.Heartbeat.Rows.{find_row}
use oo_workers.Heartbeat.Soundness.{events_of, TakesTurns, IsSound}
use oo_workers.Heartbeat.Soundness.{created, create-IsSound, update-IsSound, delete-IsSound}
use oo_workers.Heartbeat.Marks.{sweep_other-IsSound, sweep_self-IsSound}
use oo_workers.Heartbeat.Pings.{post-IsSound}

sweep_one-IsSound :
    (i now : ℕ) (h : Heartbeat) (b : Board) → IsSound i b → IsSound i (sweep_one now h b)
sweep_one-IsSound i now h b s = elim (Bool-cases (h.id == i)) [
  | inl same ↦
      subst (λ j. IsSound j b → IsSound j (sweep_one now h b)) ((==_iff h.id i).0 same)
        (sweep_self-IsSound now h b) s
  | inr other ↦ sweep_other-IsSound i now h b (λ e. cc (other, ap (λ x. x == i) e, ==_refl i)) s
]

sweep_all-IsSound :
    (i now : ℕ) (hs : List Heartbeat) (b : Board) → IsSound i b → IsSound i (sweep_all now hs b)
unfolding sweep_all
sweep_all-IsSound i now [] b s = s
sweep_all-IsSound i now (h ∷ hs) b s =
    sweep_all-IsSound i now hs (sweep_one now h b) (sweep_one-IsSound i now h b s)

-- What can happen to the table, in any order. A sweep may be a whole tick, or the step of a tick
-- for a row that was read some time before.
pub data Op : Type 0 where
  insert : NewHeartbeat → (fresh : Text) → Op
  edit : (id : ℕ) → Patch → Op
  remove : (id : ℕ) → Op
  post : (now : ℕ) (token : Text) → Op
  tick : (now : ℕ) → Op
  sweep_step : (now : ℕ) → Heartbeat → Op

unfoldable pub apply : Op → Board → Board
unfolding create update delete post_heartbeat tick_heartbeats sweep_one
apply (insert d fresh) b = created b (create d fresh b)
apply (edit id p) b = update id p b
apply (remove id) b = delete id b
apply (post now token) b = (post_heartbeat now token b).0
apply (tick now) b = tick_heartbeats now b
apply (sweep_step now h) b = sweep_one now h b

unfoldable pub apply_all : List Op → Board → Board
unfolding apply
apply_all [] b = b
apply_all (op ∷ ops) b = apply_all ops (apply op b)

unfoldable pub no_heartbeats : Board
no_heartbeats = record { rows = []; next_id = 1; alerts = []; sent = [] }

apply-IsSound : (i : ℕ) (op : Op) (b : Board) → IsSound i b → IsSound i (apply op b)
unfolding apply tick_heartbeats
apply-IsSound i (insert d fresh) b s = create-IsSound i d fresh b s
apply-IsSound i (edit id p) b s = update-IsSound i id p b s
apply-IsSound i (remove id) b s = delete-IsSound i id b s
apply-IsSound i (post now token) b s = post-IsSound i now token b s
apply-IsSound i (tick now) b s = sweep_all-IsSound i now (find_overdue now b.rows) b s
apply-IsSound i (sweep_step now h) b s = sweep_one-IsSound i now h b s

apply_all-IsSound : (i : ℕ) (ops : List Op) (b : Board) → IsSound i b → IsSound i (apply_all ops b)
unfolding apply_all
apply_all-IsSound i [] b s = s
apply_all-IsSound i (op ∷ ops) b s = apply_all-IsSound i ops (apply op b) (apply-IsSound i op b s)

no_heartbeats-IsSound : (i : ℕ) → IsSound i no_heartbeats
unfolding no_heartbeats find_row events_of
no_heartbeats-IsSound i = (
  false,
  record { table = tt; below = tt; turns = tt; status = λ r e. cc e; unused = λ le. (refl, refl) },
)

-- Whatever is interleaved, the alerts of a heartbeat are outages and recoveries in turn, from an
-- outage on, and while its row exists it is OVERDUE exactly if the newest of them is an outage.
pub events-TakesTurns :
    (i : ℕ) (ops : List Op)
    → (late : Bool) × TakesTurns late (events_of i (apply_all ops no_heartbeats).alerts)
      × ((r : Heartbeat)
          → find_row i (apply_all ops no_heartbeats).rows ≡ some r
          → is_overdue r.status ≡ late)
events-TakesTurns i ops =
    let (late, k) = apply_all-IsSound i ops no_heartbeats (no_heartbeats-IsSound i) in
    (late, k.turns, k.status)
