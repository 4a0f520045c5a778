-- ===== src/Transition/Probes/Previous.antt =====
-- Which row `previousStatus` finds (src/services/transition-detector.ts).
use oo_workers.Prelude.{
  ℕ, ◌≤◌, ◌≡◌, refl, ◌≢◌, Bool, true, false, List, [], ◌∷◌, none, some, arith, All, ==_refl, ==_ne,
  keep, Bool-cases, inl, inr,
}
use oo_workers.Text.{Text}
use oo_workers.Db.{type_index, MonitorType, Exec}
use oo_workers.Transition.Latest.{latest-head}
use oo_workers.Transition.Probes.{
  Lookups, TransitionDetail, is_qa, is_previous, previous_status, maybe_alert_on_transition,
}

keep-All {ℓ κ} :
    {A : Type ℓ} (P : A → Type κ) (p : A → Bool) (xs : List A) → All P xs → All P (keep p xs)
unfolding keep
keep-All P p [] h = tt
keep-All P p (x ∷ xs) (q, h) = elim (Bool-cases (p x)) [
  | inl hit ↦ rw hit (q, keep-All P p xs h)
  | inr miss ↦ rw miss (keep-All P p xs h)
]

-- The newest row, if it is one that the lookup reads, is the previous one.
pub previous_status-head :
    (r : Exec) (rows : List Exec) (kind : MonitorType) (m c : ℕ)
    → is_previous kind m c r ≡ true
    → All (λ q. q.start_time ≤ r.start_time) rows
    → previous_status (r ∷ rows) kind m c ≡ some r.status
unfolding previous_status keep
previous_status-head r rows kind m c hit h = rw hit (
    rw (latest-head (λ q. q.start_time) r (keep (is_previous kind m c) rows) (keep-All _ _ rows h))
      refl)

-- A row that the lookup does not read is passed over.
pub previous_status-skip :
    (r : Exec) (rows : List Exec) (kind : MonitorType) (m c : ℕ)
    → is_previous kind m c r ≡ false
    → previous_status (r ∷ rows) kind m c ≡ previous_status rows kind m c
unfolding previous_status keep
previous_status-skip r rows kind m c miss = rw miss refl

pub is_previous_intro :
    (kind : MonitorType) (m c : ℕ) (r : Exec)
    → is_qa kind ≡ false
    → r.kind ≡ kind
    → r.monitor_id ≡ m
    → r.id ≢ c
    → is_previous kind m c r ≡ true
unfolding is_previous
is_previous_intro kind m c r probe k e n =
    rw (probe, k, e, ==_refl (type_index kind), ==_refl m, ==_ne r.id c n) refl

pub is_previous_self : (kind : MonitorType) (m : ℕ) (r : Exec) → is_previous kind m r.id r ≡ false
unfolding is_previous
is_previous_self kind m r = rw (==_refl r.id) (ground arith)

pub previous_status-nil : (kind : MonitorType) (m c : ℕ) → previous_status [] kind m c ≡ none
unfolding previous_status keep
previous_status-nil kind m c = refl

-- The first result of a monitor is never an alert.
pub silent_of_first :
    (l : Lookups) (rows : List Exec) (kind : MonitorType) (m id : ℕ) (status : Text)
    (d : TransitionDetail)
    → previous_status rows kind m id ≡ none
    → maybe_alert_on_transition l rows kind m id status d ≡ none
silent_of_first l rows kind m id status d p = elim (Bool-cases l.throws) [
  | inl broken ↦ unfold maybe_alert_on_transition in rw broken refl
  | inr fine ↦ unfold maybe_alert_on_transition in rw (fine, p) refl
]
