-- ===== src/Heartbeat/Marks.antt =====
-- The sweep of one overdue heartbeat (src/scheduler.ts, `tickHeartbeats`; `markOverdue`).
use oo_workers.Prelude.{
  ℕ, ◌<◌, ◌≡◌, refl, ◌≢◌, sym, ◌∙◌, ap, subst, true, false, List, some, arith, ==_refl, ==_ne, keep,
  modify, Bool-cases, Option-cases, inl, inr,
}
use mathlib.Core.Option.{some-injective}
use oo_workers.Heartbeat.{
  Heartbeat, Board, Status, is_overdue, is_up, mark_overdue, is_markable, marked, heartbeat_alert,
  sweep_one,
}
use oo_workers.Heartbeat.Rows.{
  IsTable, find_row, changed, if_up, modify-IsTable, find_row-modify, found_id, found_All,
  head-keep-is_markable,
}
use oo_workers.Heartbeat.Soundness.{
  events_of, TakesTurns, Holds, IsSound, other_row, All-modify, head-map,
}

pub mark_overdue-eq :
    (id : ℕ) (rows : List Heartbeat)
    → IsTable rows
    → (mark_overdue id rows).1 ≡ changed (λ r. true) marked (if_up (find_row id rows))
unfolding mark_overdue
mark_overdue-eq id rows t =
    head-map marked (keep (is_markable id) rows)
    ∙ ap (changed (λ r. true) marked) (head-keep-is_markable id rows t)

-- A sweep of one row reaches another heartbeat in no way.
pub sweep_other-IsSound :
    (i now : ℕ) (h : Heartbeat) (b : Board) → h.id ≢ i → IsSound i b → IsSound i (sweep_one now h b)
unfolding sweep_one mark_overdue heartbeat_alert events_of
sweep_other-IsSound i now h b n (late, k) =
    let rows' = modify (is_markable h.id) marked b.rows in
    let kept : Holds i rows' b.next_id (events_of i b.alerts) late = record {
      table = modify-IsTable (is_markable h.id) marked (λ r. refl) (λ r. refl) b.rows k.table;
      below =
          All-modify (λ (r : Heartbeat). r.id < b.next_id) (is_markable h.id) marked b.rows
            (λ r lt. lt) k.below;
      turns = k.turns;
      status = λ r e.
          other_row (is_markable h.id) marked (find_row i b.rows) late r
            (λ q found. (
              rw (==_ne q.id h.id (λ f. n (sym f ∙ found_id i b.rows q found))) refl,
              k.status q found,
            ))
            (sym (find_row-modify (is_markable h.id) marked (λ q. refl) (λ q. refl) i b.rows) ∙ e);
      unused = k.unused;
    } in
    elim (Option-cases (mark_overdue h.id b.rows).1) [
      | inl idle ↦ rw (idle, sweep_one) (late, kept)
      | inr (r, hit) ↦ rw (hit, sweep_one, ==_ne h.id i n) (late, kept)
    ]

up_not_late : (s : Status) → is_up s ≡ true → is_overdue s ≡ false
up_not_late Status.up h = refl
up_not_late Status.awaited h = cc
up_not_late Status.overdue h = cc

became_overdue :
    (i : ℕ) (q r : Heartbeat)
    → is_up q.status ≡ true
    → q.id ≡ i
    → changed (is_markable i) marked (some q) ≡ some r
    → is_overdue r.status ≡ true
became_overdue i q r waits same e =
    let hit : is_markable i q ≡ true = rw (same, ==_refl i, waits) refl in
    ap (λ (x : Heartbeat). is_overdue x.status) (some-injective r (marked q) (sym (rw hit at e)))

-- A sweep of the heartbeat itself: an outage goes out exactly if it was UP.
pub sweep_self-IsSound :
    (now : ℕ) (h : Heartbeat) (b : Board) → IsSound h.id b → IsSound h.id (sweep_one now h b)
unfolding sweep_one heartbeat_alert events_of
sweep_self-IsSound now h b (late, k) =
    let i = h.id in
    let table' = modify-IsTable (is_markable i) marked (λ r. refl) (λ r. refl) b.rows k.table in
    let below' =
      All-modify (λ (r : Heartbeat). r.id < b.next_id) (is_markable i) marked b.rows (λ r lt. lt)
        k.below in
    let moved = find_row-modify (is_markable i) marked (λ q. refl) (λ q. refl) i b.rows in
    elim (Option-cases (find_row i b.rows)) [
      | inl nothing ↦
          rw (mark_overdue-eq i b.rows k.table, nothing, sweep_one)
            (
              late,
              record {
                table = table';
                below = below';
                turns = k.turns;
                status = λ r e. cc (e, moved, ap (changed (is_markable i) marked) nothing);
                unused = k.unused;
              },
            )
      | inr (q, found) ↦ elim (Bool-cases (is_up q.status)) [
        | inr idle ↦
            rw (mark_overdue-eq i b.rows k.table, found, if_up, idle, sweep_one)
              (
                late,
                record {
                  table = table';
                  below = below';
                  turns = k.turns;
                  status = λ r e.
                      other_row (is_markable i) marked (find_row i b.rows) late r
                        (λ x seen. (
                          rw (some-injective x q (sym seen ∙ found), idle) (ground arith),
                          k.status x seen,
                        ))
                        (sym moved ∙ e);
                  unused = k.unused;
                },
              )
        | inl waits ↦
            rw (mark_overdue-eq i b.rows k.table, found, if_up, waits, sweep_one, ==_refl i)
              (
                true,
                record {
                  table = table';
                  below = below';
                  turns =
                      subst (λ l. TakesTurns l (events_of i b.alerts))
                        (sym (k.status q found) ∙ up_not_late q.status waits) k.turns;
                  status = λ r e.
                      became_overdue i q r waits (found_id i b.rows q found)
                        (sym (ap (changed (is_markable i) marked) found) ∙ sym moved ∙ e);
                  unused = λ le. absurd (
                      omega (
                        arith,
                        found_id i b.rows q found,
                        found_All (λ (x : Heartbeat). x.id < b.next_id) i b.rows q k.below found,
                      ));
                },
              )
      ]
    ]
