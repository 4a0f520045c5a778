-- ===== src/Heartbeat/Pings.antt =====
-- A ping (src/routes/heartbeat-public.ts, `recordPing`).
use oo_workers.Prelude.{
  ℕ, ◌<◌, ◌≡◌, refl, ◌≢◌, sym, ◌∙◌, ap, subst, Bool, true, false, List, [], ◌∷◌, some, arith, ◌==◌,
  ==_iff, ==_refl, head_opt, head-keep, keep, modify, Bool-cases, Option-cases, inl, inr,
}
use mathlib.Core.Option.{some-injective}
use oo_workers.Text.{Text}
use oo_workers.Alert.{AlertEvent}
use oo_workers.Heartbeat.{
  Heartbeat, Board, is_overdue, answers, pinged, is_rapid, record_ping, record_found, answer_ping,
  find_by_public_token, post_heartbeat, heartbeat_alert,
}
use oo_workers.Heartbeat.Rows.{
  IsTable, find_row, changed, modify-IsTable, find_row-modify, found_id, found_All,
  head-keep-find_row, answers_unique,
}
use oo_workers.Heartbeat.Soundness.{events_of, TakesTurns, Holds, IsSound, other_row, All-modify}

pub keep-modify :
    (p : Heartbeat → Bool) (f : Heartbeat → Heartbeat) (rs : List Heartbeat)
    → ((r : Heartbeat) → p (f r) ≡ p r)
    → head_opt (keep p (modify p f rs)) ≡ changed (λ r. true) f (head_opt (keep p rs))
unfolding keep modify
keep-modify p f [] same = refl
keep-modify p f (r ∷ rs) same = elim (Bool-cases (p r)) [
  | inl hit ↦ rw (hit, same r, hit, keep) refl
  | inr miss ↦ rw (miss, miss, keep) (keep-modify p f rs same)
]

recorded_row :
    (token : Text) (i now : ℕ) (rows : List Heartbeat) (prior q : Heartbeat) (late : Bool)
    → IsTable rows
    → head_opt (keep (answers token) rows) ≡ some prior
    → prior.id ≢ i
    → find_row i rows ≡ some q
    → answers token q ≡ false
recorded_row token i now rows prior q late t e n f = elim (Bool-cases (answers token q)) [
  | inr miss ↦ miss
  | inl hit ↦ absurd (
      n (
        ap (λ (x : Heartbeat). x.id) (answers_unique token i rows prior q t e f hit)
        ∙ found_id i rows q f))
]

became_up :
    (token : Text) (now : ℕ) (q r : Heartbeat)
    → answers token q ≡ true
    → changed (answers token) (pinged now) (some q) ≡ some r
    → is_overdue r.status ≡ false
became_up token now q r hit e =
    ap (λ (x : Heartbeat). is_overdue x.status)
      (some-injective r (pinged now q) (sym (rw hit at e)))

-- The rows of another heartbeat under a recorded ping.
recorded_other-Holds :
    (i now : ℕ) (token : Text) (rows : List Heartbeat) (next : ℕ) (es : List AlertEvent)
    (late : Bool) (prior : Heartbeat)
    → head_opt (keep (answers token) rows) ≡ some prior
    → prior.id ≢ i
    → Holds i rows next es late
    → Holds i (modify (answers token) (pinged now) rows) next es late
recorded_other-Holds i now token rows next es late prior seen n k = record {
  table = modify-IsTable (answers token) (pinged now) (λ r. refl) (λ r. refl) rows k.table;
  below =
      All-modify (λ (r : Heartbeat). r.id < next) (answers token) (pinged now) rows (λ r lt. lt)
        k.below;
  turns = k.turns;
  status = λ r e.
      other_row (answers token) (pinged now) (find_row i rows) late r
        (λ q f. (recorded_row token i now rows prior q late k.table seen n f, k.status q f))
        (sym (find_row-modify (answers token) (pinged now) (λ q. refl) (λ q. refl) i rows) ∙ e);
  unused = k.unused;
}

-- The heartbeat that is pinged, with the events that go with its new status.
recorded_self-Holds :
    (now : ℕ) (token : Text) (rows : List Heartbeat) (next : ℕ) (es es' : List AlertEvent)
    (late : Bool) (prior : Heartbeat)
    → head_opt (keep (answers token) rows) ≡ some prior
    → TakesTurns false es'
    → Holds prior.id rows next es late
    → Holds prior.id (modify (answers token) (pinged now) rows) next es' false
recorded_self-Holds now token rows next es es' late prior seen turns k =
    let found = head-keep-find_row (answers token) rows prior k.table seen in
    record {
      table = modify-IsTable (answers token) (pinged now) (λ r. refl) (λ r. refl) rows k.table;
      below =
          All-modify (λ (r : Heartbeat). r.id < next) (answers token) (pinged now) rows (λ r lt. lt)
            k.below;
      turns = turns;
      status = λ r e. became_up token now prior r (head-keep (answers token) rows prior seen) (
          sym (ap (changed (answers token) (pinged now)) found)
          ∙ sym (find_row-modify (answers token) (pinged now) (λ q. refl) (λ q. refl) prior.id rows)
          ∙ e);
      unused = λ le. absurd (
          omega
            (arith, found_All (λ (x : Heartbeat). x.id < next) prior.id rows prior k.below found));
    }

-- A ping that is not debounced, of the heartbeat `prior`.
answered-IsSound :
    (i now : ℕ) (token : Text) (b : Board) (prior : Heartbeat)
    → head_opt (keep (answers token) b.rows) ≡ some prior
    → IsSound i b
    → IsSound i
        (answer_ping now
          (some (pinged now prior, is_overdue prior.status))
          (record b { rows = modify (answers token) (pinged now) b.rows })).0
unfolding answer_ping heartbeat_alert events_of
answered-IsSound i now token b prior seen (late, k) = elim (Bool-cases (prior.id == i)) [
  | inr other ↦
      let kept =
        recorded_other-Holds i now token b.rows b.next_id (events_of i b.alerts) late prior seen
          (λ g. cc (other, ap (λ x. x == i) g, ==_refl i)) k in
      elim (Bool-cases (is_overdue prior.status)) [
        | inl was ↦ rw (was, answer_ping, other) (late, kept)
        | inr was ↦ rw (was, answer_ping) (late, kept)
      ]
  | inl same ↦
      let k' =
        subst (λ j. Holds j b.rows b.next_id (events_of i b.alerts) late)
          (sym ((==_iff prior.id i).0 same)) k in
      let was_late =
        k'.status prior (head-keep-find_row (answers token) b.rows prior k.table seen) in
      let turned : (es' : List AlertEvent)
          → TakesTurns false es'
          → Holds i (modify (answers token) (pinged now) b.rows) b.next_id es' false =
        λ es' turns.
          subst (λ j. Holds j (modify (answers token) (pinged now) b.rows) b.next_id es' false)
            ((==_iff prior.id i).0 same)
            (recorded_self-Holds now token b.rows b.next_id (events_of i b.alerts) es' late prior
              seen turns k') in
      elim (Bool-cases (is_overdue prior.status)) [
        | inl was ↦
            rw (was, answer_ping, same)
              (
                false,
                turned _
                    (subst (λ l. TakesTurns l (events_of i b.alerts)) (sym was_late ∙ was) k.turns),
              )
        | inr was ↦
            rw (was, answer_ping)
              (
                false,
                turned _
                    (subst (λ l. TakesTurns l (events_of i b.alerts)) (sym was_late ∙ was) k.turns),
              )
      ]
]

-- A ping, recovered from or not.
pub post-IsSound :
    (i now : ℕ) (token : Text) (b : Board) → IsSound i b → IsSound i (post_heartbeat now token b).0
unfolding post_heartbeat record_ping record_found answer_ping find_by_public_token events_of
post-IsSound i now [] b s = s
post-IsSound i now (c ∷ cs) b s =
    let token = c ∷ cs in
    elim (Option-cases (head_opt (keep (answers token) b.rows))) [
      | inl nothing ↦ rw (nothing, post_heartbeat) s
      | inr (prior, seen) ↦ elim (Bool-cases (is_rapid now prior.last_ping_at)) [
        | inl rapid ↦ rw (seen, post_heartbeat, rapid, post_heartbeat) s
        | inr slow ↦
            let answered : head_opt
                  (keep (answers token) (modify (answers token) (pinged now) b.rows))
                ≡ some (pinged now prior) =
              keep-modify (answers token) (pinged now) b.rows (λ r. refl)
              ∙ ap (changed (λ r. true) (pinged now)) seen in
            rw (seen, post_heartbeat, slow, post_heartbeat, answered, post_heartbeat)
              (answered-IsSound i now token b prior seen s)
      ]
    ]
