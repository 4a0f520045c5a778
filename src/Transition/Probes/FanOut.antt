-- ===== src/Transition/Probes/FanOut.antt =====
-- A monitor that runs from two regions (src/scheduler.ts creates one execution row for each region
-- in one tick; src/services/transition-detector.ts looks for the newest other row of the monitor).
use native.Mathlib.Nat.{le_trans}
use oo_workers.Prelude.{
  ℕ, ◌≤◌, ◌≡◌, refl, ◌≢◌, ◌∙◌, sym, false, List, ◌∷◌, none, some, All, All-imp, Bool-cases, inl,
  inr,
}
use oo_workers.Text.{Text}
use oo_workers.Db.{MonitorType, Exec, pending}
use oo_workers.Transition.{Outcome, up, down, normalize_outcome, other}
use oo_workers.Transition.Probes.{
  Lookups, TransitionDetail, is_qa, previous_status, event_of, maybe_alert_on_transition,
}
use oo_workers.Transition.Probes.Previous.{
  previous_status-head, previous_status-skip, is_previous_intro, is_previous_self,
}

event_of_same : (o : Outcome) → event_of o o ≡ none
unfolding event_of
event_of_same up = refl
event_of_same down = refl
event_of_same other = refl

event_of_other : (o : Outcome) → event_of other o ≡ none
unfolding event_of
event_of_other up = refl
event_of_other _ = refl

-- No event, no alert.
silent_of_event :
    (l : Lookups) (rows : List Exec) (kind : MonitorType) (m id : ℕ) (status prev : Text)
    (d : TransitionDetail)
    → previous_status rows kind m id ≡ some prev
    → event_of (normalize_outcome prev) (normalize_outcome status) ≡ none
    → maybe_alert_on_transition l rows kind m id status d ≡ none
silent_of_event l rows kind m id status prev d p e = elim (Bool-cases l.throws) [
  | inl broken ↦ unfold maybe_alert_on_transition in rw broken refl
  | inr fine ↦ unfold maybe_alert_on_transition in rw (fine, p, e) refl
]

-- The rows that one tick creates for two regions: `a`, then `b`, later than every older row.
pub record IsPair (kind : MonitorType) (m : ℕ) (a b : Exec) (old : List Exec) : Type 0 where
  pub probe : is_qa kind ≡ false
  pub kind_a : a.kind ≡ kind
  pub kind_b : b.kind ≡ kind
  pub monitor_a : a.monitor_id ≡ m
  pub monitor_b : b.monitor_id ≡ m
  pub distinct : a.id ≢ b.id
  pub order : a.start_time ≤ b.start_time
  pub newest : All (λ (q : Exec). q.start_time ≤ a.start_time) old

abbrev pub with_status : Text → Exec → Exec
with_status s r = record r { status = s }

newest_before :
    (s : Text) (x y : Exec) (old : List Exec)
    → y.start_time ≤ x.start_time
    → All (λ (q : Exec). q.start_time ≤ y.start_time) old
    → All (λ (q : Exec). q.start_time ≤ x.start_time) (with_status s y ∷ old)
newest_before s x y old h n = (h, All-imp _ _ old (λ q le. le_trans le h) n)

-- Both results of the pair, when the one of `first` comes in first with status `s` and the other
-- then with status `t`: the table holds `b` in front of `a`.
module _ (l : Lookups) (kind : MonitorType) (m : ℕ) (a b : Exec) (old : List Exec) (s t : Text)
    (d e : TransitionDetail) (p : IsPair kind m a b old) where
  a_first :
      maybe_alert_on_transition l (with_status pending b ∷ with_status s a ∷ old) kind m a.id s d
      ≡ none
  a_first =
      silent_of_event l _ kind m a.id s pending d
        (previous_status-head (with_status pending b) _ kind m a.id
          (is_previous_intro kind m a.id (with_status pending b) p.probe p.kind_b p.monitor_b
            (λ q. p.distinct (sym q)))
          (newest_before s b a old p.order p.newest))
        (unfold normalize_outcome in event_of_other (normalize_outcome s))

  b_first :
      maybe_alert_on_transition l (with_status s b ∷ with_status pending a ∷ old) kind m b.id s d
      ≡ none
  b_first =
      silent_of_event l _ kind m b.id s pending d
        (previous_status-skip (with_status s b) _ kind m b.id
            (is_previous_self kind m (with_status s b))
          ∙ previous_status-head (with_status pending a) old kind m b.id
              (is_previous_intro kind m b.id (with_status pending a) p.probe p.kind_a p.monitor_a
                p.distinct)
              p.newest)
        (unfold normalize_outcome in event_of_other (normalize_outcome s))

  b_second :
      normalize_outcome s ≡ normalize_outcome t
      → maybe_alert_on_transition l (with_status t b ∷ with_status s a ∷ old) kind m b.id t e ≡ none
  b_second same =
      silent_of_event l _ kind m b.id t s e
        (previous_status-skip (with_status t b) _ kind m b.id
            (is_previous_self kind m (with_status t b))
          ∙ previous_status-head (with_status s a) old kind m b.id
              (is_previous_intro kind m b.id (with_status s a) p.probe p.kind_a p.monitor_a
                p.distinct)
              p.newest)
        (rw same (event_of_same (normalize_outcome t)))

  a_second :
      normalize_outcome s ≡ normalize_outcome t
      → maybe_alert_on_transition l (with_status s b ∷ with_status t a ∷ old) kind m a.id t e ≡ none
  a_second same =
      silent_of_event l _ kind m a.id t s e
        (previous_status-head (with_status s b) _ kind m a.id
          (is_previous_intro kind m a.id (with_status s b) p.probe p.kind_b p.monitor_b
            (λ q. p.distinct (sym q)))
          (newest_before t b a old p.order p.newest))
        (rw same (event_of_same (normalize_outcome t)))

  -- One tick creates two pending rows of a monitor, one for each of two regions. If both probes
  -- then have the same outcome, no alert goes out in either order of arrival, whatever the older
  -- rows say: the first result finds the other row still pending, the second finds the first.
  pub two_regions_silent :
      normalize_outcome s ≡ normalize_outcome t
      → ((maybe_alert_on_transition l
              (with_status pending b ∷ with_status s a ∷ old)
              kind
              m
              a.id
              s
              d
            ≡ none)
          × (maybe_alert_on_transition l (with_status t b ∷ with_status s a ∷ old) kind m b.id t e
              ≡ none))
        × ((maybe_alert_on_transition l
                (with_status s b ∷ with_status pending a ∷ old)
                kind
                m
                b.id
                s
                d
              ≡ none)
            × (maybe_alert_on_transition l (with_status s b ∷ with_status t a ∷ old) kind m a.id t e
                ≡ none))
  two_regions_silent same = ((a_first, b_second same), (b_first, a_second same))
