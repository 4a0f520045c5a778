-- ===== src/Heartbeat/Soundness.antt =====
-- What holds of one heartbeat at every time, kept by the edits of the table
-- (src/db/repositories/heartbeat.repo.ts: `create`, `update`, `delete`).
use oo_workers.Prelude.{
  ℕ, ◌≤◌, ◌<◌, ◌≡◌, refl, ◌≢◌, sym, ◌∙◌, ap, Bool, true, false, List, [], ◌∷◌, Option, none, some,
  arith, All, All-both, All-imp, ◌==◌, ==_iff, if◌then◌else◌, head_opt, from_option, keep-All,
  modify, map, any, Bool-cases, inl, inr,
}
use mathlib.Core.Option.{some-injective}
use oo_workers.Text.{Text, text_eq, text_eq_refl}
use oo_workers.Alert.{AlertContext, AlertEvent, outage, recovery}
use oo_workers.Heartbeat.{
  Heartbeat, Board, NewHeartbeat, Patch, is_overdue, create, update, delete, taken, patched,
}
use oo_workers.Heartbeat.Rows.{
  IsTable, find_row, changed, modify-IsTable, find_row-modify, keep-IsTable, find_row-keep,
}

-- The events of a heartbeat, the newest first.
unfoldable pub events_of : ℕ → List AlertContext → List AlertEvent
events_of i [] = []
events_of i (c ∷ cs) = if c.id == i then c.event ∷ events_of i cs else events_of i cs

-- Outages and recoveries in turn from an outage on; the flag tells whether the newest is an outage.
abbrev pub TakesTurns : Bool → List AlertEvent → Type 0
TakesTurns false [] = Unit
TakesTurns true (outage ∷ es) = TakesTurns false es
TakesTurns false (recovery ∷ es) = TakesTurns true es
TakesTurns _ _ = ⊥

-- What holds of one heartbeat at every time.
pub record Holds (i : ℕ) (rows : List Heartbeat) (next : ℕ) (es : List AlertEvent) (late : Bool)
    : Type 0 where
  pub table : IsTable rows
  pub below : All (λ (r : Heartbeat). r.id < next) rows
  pub turns : TakesTurns late es
  pub status : (r : Heartbeat) → find_row i rows ≡ some r → is_overdue r.status ≡ late
  pub unused : next ≤ i → (es ≡ []) × (late ≡ false)

abbrev pub IsSound : ℕ → Board → Type 0
IsSound i b = (late : Bool) × Holds i b.rows b.next_id (events_of i b.alerts) late

not_taken :
    (token : Text) (rows : List Heartbeat)
    → taken token rows ≡ false
    → All (λ q. q.token ≢ token) rows
unfolding any
not_taken token [] h = tt
not_taken token (r ∷ rows) h = elim (Bool-cases (text_eq r.token token)) [
  | inl same ↦ cc (rw same at h)
  | inr other ↦
      ((λ e. cc (text_eq_refl token, rw e at other)), not_taken token rows (rw other at h))
]

pub head-map :
    (f : Heartbeat → Heartbeat) (xs : List Heartbeat)
    → head_opt (map f xs) ≡ changed (λ x. true) f (head_opt xs)
head-map f [] = refl
head-map f (x ∷ xs) = refl

pub All-modify :
    (P : Heartbeat → Type 0) (p : Heartbeat → Bool) (f : Heartbeat → Heartbeat)
    (rs : List Heartbeat)
    → ((r : Heartbeat) → P r → P (f r))
    → All P rs
    → All P (modify p f rs)
unfolding modify
All-modify P p f [] k h = tt
All-modify P p f (r ∷ rs) k (q, h) = elim (Bool-cases (p r)) [
  | inl hit ↦ rw hit (k r q, All-modify P p f rs k h)
  | inr miss ↦ rw miss (q, All-modify P p f rs k h)
]

-- A change that leaves the status alone.
changed_status :
    (p : Heartbeat → Bool) (f : Heartbeat → Heartbeat)
    → ((r : Heartbeat) → (f r).status ≡ r.status)
    → (o : Option Heartbeat) (late : Bool) (r : Heartbeat)
    → ((q : Heartbeat) → o ≡ some q → is_overdue q.status ≡ late)
    → changed p f o ≡ some r
    → is_overdue r.status ≡ late
changed_status p f same none late r h e = cc
changed_status p f same (some q) late r h e = elim (Bool-cases (p q)) [
  | inl hit ↦
      ap (λ (x : Heartbeat). is_overdue x.status) (some-injective r (f q) (sym (rw hit at e)))
      ∙ ap is_overdue (same q)
      ∙ h q refl
  | inr miss ↦ h r (rw miss at e)
]

-- The board after an insert; a failed one leaves it.
abbrev pub created : Board → Option (Board × Heartbeat) → Board
created b none = b
created b (some (b', r)) = b'

pub create-IsSound :
    (i : ℕ) (d : NewHeartbeat) (fresh : Text) (b : Board)
    → IsSound i b
    → IsSound i (created b (create d fresh b))
unfolding create find_row
create-IsSound i d fresh b (late, h) =
    let token = from_option fresh d.token in
    elim (Bool-cases (taken token b.rows)) [
      | inl clash ↦ rw (clash, created) (late, h)
      | inr free ↦
          rw (free, created)
            (
              late,
              record {
                table = (
                  All-both _ _ b.rows
                      (All-imp _ _ b.rows (λ q lt. (λ e. omega (arith, e, lt))) h.below)
                      (not_taken token b.rows free),
                  h.table,
                );
                below = (omega arith, All-imp _ _ b.rows (λ q lt. omega arith) h.below);
                turns = h.turns;
                status = λ r e. elim (Bool-cases (b.next_id == i)) [
                  | inl same ↦
                      let it = some-injective _ r (rw same at e) in
                      ap (λ (x : Heartbeat). is_overdue x.status) (sym it)
                      ∙ sym (h.unused (omega (arith, (==_iff b.next_id i).0 same))).1
                  | inr other ↦ h.status r (rw other at e)
                ];
                unused = λ le. h.unused (omega arith);
              },
            )
    ]

pub update-IsSound : (i id : ℕ) (p : Patch) (b : Board) → IsSound i b → IsSound i (update id p b)
unfolding update
update-IsSound i id p b (late, h) = (
  late,
  record {
    table = modify-IsTable (λ r. r.id == id) (patched p) (λ r. refl) (λ r. refl) b.rows h.table;
    below = All-modify (λ (r : Heartbeat). r.id < b.next_id) _ _ b.rows (λ r lt. lt) h.below;
    turns = h.turns;
    status = λ r e.
        changed_status (λ r. r.id == id) (patched p) (λ q. refl) (find_row i b.rows) late r h.status
          (sym (find_row-modify _ (patched p) (λ q. refl) (λ q. refl) i b.rows) ∙ e);
    unused = h.unused;
  },
)

pub delete-IsSound : (i id : ℕ) (b : Board) → IsSound i b → IsSound i (delete id b)
unfolding delete
delete-IsSound i id b (late, h) = (
  late,
  record {
    table = keep-IsTable _ b.rows h.table;
    below = keep-All _ _ b.rows h.below;
    turns = h.turns;
    status = λ r e. h.status r (find_row-keep _ i b.rows r h.table e);
    unused = h.unused;
  },
)

-- A row with another id is left alone by a change that asks for the id.
pub other_row :
    (p : Heartbeat → Bool) (f : Heartbeat → Heartbeat) (o : Option Heartbeat) (late : Bool)
    (r : Heartbeat)
    → ((q : Heartbeat) → o ≡ some q → (p q ≡ false) × (is_overdue q.status ≡ late))
    → changed p f o ≡ some r
    → is_overdue r.status ≡ late
other_row p f none late r h e = cc
other_row p f (some q) late r h e =
    let (miss, st) = h q refl in
    ap (λ (x : Heartbeat). is_overdue x.status) (some-injective r q (sym (rw miss at e))) ∙ st
