-- ===== src/Transition/Probes/History.antt =====
-- A monitor that runs from one place, one probe after the other
-- (src/services/transition-detector.ts, `maybeAlertOnTransition`).
use mathlib.Core.Path.{ap₂}
use oo_workers.Prelude.{
  ℕ, suc, ◌≤◌, ◌<◌, ◌≡◌, refl, ◌≢◌, ◌∙◌, ap, false, List, [], ◌∷◌, ◌++◌, Option, none, some, arith,
  All, All-imp, Option-cases, inl, inr,
}
use oo_workers.Text.{Text}
use oo_workers.Db.{MonitorType, Exec, no_extra}
use oo_workers.Alert.{AlertContext, AlertEvent, outage, recovery}
use oo_workers.Transition.{Outcome, up, down, other, normalize_outcome}
use oo_workers.Transition.Probes.{
  Lookups, TransitionDetail, is_qa, previous_status, event_of, monitor_meta,
  maybe_alert_on_transition,
}
use oo_workers.Transition.Probes.Previous.{
  previous_status-head, previous_status-skip, previous_status-nil, silent_of_first,
  is_previous_intro, is_previous_self,
}

abbrev row : MonitorType → ℕ → Option ℕ → ℕ → Text → Exec
row kind m region n s = record {
  kind = kind;
  id = n;
  monitor_id = m;
  region_id = region;
  run_id = none;
  status = s;
  latency_ms = none;
  error_message = none;
  extra = no_extra;
  start_time = n;
  end_time = some n;
}

abbrev pub event_list : Option AlertContext → List AlertEvent
event_list none = []
event_list (some c) = c.event ∷ []

abbrev pub opt_list : Option AlertEvent → List AlertEvent
opt_list none = []
opt_list (some e) = e ∷ []

-- The alerts of a run of results, each written into a row of its own before it is looked at.
pub alerts :
    Lookups
    → MonitorType
    → ℕ
    → Option ℕ
    → (ℕ → TransitionDetail)
    → ℕ
    → List Exec
    → List Text
    → List AlertEvent
alerts l kind m region d n rows [] = []
alerts l kind m region d n rows (s ∷ ss) =
    let rows' = row kind m region n s ∷ rows in
    event_list (maybe_alert_on_transition l rows' kind m n s (d n))
    ++ alerts l kind m region d (suc n) rows' ss

-- What the program promises: an alert for each change between two results that follow one another.
unfoldable pub flips : Text → List Text → List AlertEvent
flips prev [] = []
flips prev (s ∷ ss) =
    opt_list (event_of (normalize_outcome prev) (normalize_outcome s)) ++ flips s ss

pub maybe_alert-event :
    (l : Lookups) (rows : List Exec) (kind : MonitorType) (m id : ℕ) (status prev : Text)
    (d : TransitionDetail) {about : Text × Text}
    → l.throws ≡ false
    → monitor_meta l kind m ≡ some about
    → previous_status rows kind m id ≡ some prev
    → event_list (maybe_alert_on_transition l rows kind m id status d)
      ≡ opt_list (event_of (normalize_outcome prev) (normalize_outcome status))
unfolding maybe_alert_on_transition
maybe_alert-event l rows kind m id status prev d fine known p =
    elim (Option-cases (event_of (normalize_outcome prev) (normalize_outcome status))) [
      | inl none_such ↦ rw (fine, p, none_such) refl
      | inr (event, found) ↦ rw (fine, p, found, known) refl
    ]

module _ (l : Lookups) (kind : MonitorType) (m : ℕ) (region : Option ℕ) (d : ℕ → TransitionDetail)
    {about : Text × Text} (fine : l.throws ≡ false) (known : monitor_meta l kind m ≡ some about)
    (probe : is_qa kind ≡ false) where
  alerts-after :
      (n p : ℕ) (prev : Text) (rows : List Exec) (ss : List Text)
      → p < n
      → All (λ (q : Exec). q.start_time ≤ p) rows
      → alerts l kind m region d n (row kind m region p prev ∷ rows) ss ≡ flips prev ss
  unfolding alerts flips
  alerts-after n p prev rows [] h o = refl
  alerts-after n p prev rows (s ∷ ss) h o =
      let new = row kind m region n s in
      let old = row kind m region p prev in
      let looked : previous_status (new ∷ old ∷ rows) kind m n ≡ some prev =
        previous_status-skip new (old ∷ rows) kind m n (is_previous_self kind m new)
        ∙ previous_status-head old rows kind m n
            (is_previous_intro kind m n old probe refl refl (omega arith)) o in
      ap₂ ◌++◌ (maybe_alert-event l _ kind m n s prev (d n) fine known looked) (
        alerts-after (suc n) n s (old ∷ rows) ss (omega arith)
          (omega arith, All-imp _ _ rows (λ q le. omega arith) o))

  -- If the detector's queries do not throw, the monitor is known and is no browser check, the alerts
  -- of results that are written one after the other are the changes between them, one alert for
  -- each: nothing for the first result, and none is lost or repeated.
  pub alerts-eq-flips :
      (n : ℕ) (s : Text) (ss : List Text) → alerts l kind m region d n [] (s ∷ ss) ≡ flips s ss
  unfolding alerts
  alerts-eq-flips n s ss =
      let new = row kind m region n s in
      let looked : previous_status (new ∷ []) kind m n ≡ none =
        previous_status-skip new [] kind m n (is_previous_self kind m new)
        ∙ previous_status-nil kind m n in
      ap₂ ◌++◌ (ap event_list (silent_of_first l (new ∷ []) kind m n s (d n) looked))
        (alerts-after (suc n) n s [] ss (omega arith) tt)

-- Alerts that could follow each other when the monitor is `up` or `down`: they take turns.
abbrev pub TakesTurns : Outcome → List AlertEvent → Type 0
TakesTurns o [] = Unit
TakesTurns up (outage ∷ es) = TakesTurns down es
TakesTurns down (recovery ∷ es) = TakesTurns up es
TakesTurns _ (e ∷ es) = ⊥

abbrev pub IsVerdict : Text → Type 0
IsVerdict s = normalize_outcome s ≢ other

turn :
    (o q : Outcome) (es : List AlertEvent)
    → o ≢ other
    → q ≢ other
    → TakesTurns q es
    → TakesTurns o (opt_list (event_of o q) ++ es)
unfolding event_of
turn up up es n k h = h
turn up down es n k h = h
turn down up es n k h = h
turn down down es n k h = h
turn other q es n k h = absurd (n refl)
turn _ other es n k h = absurd (k refl)

flips-TakesTurns :
    (prev : Text) (ss : List Text)
    → IsVerdict prev
    → All IsVerdict ss
    → TakesTurns (normalize_outcome prev) (flips prev ss)
unfolding flips
flips-TakesTurns prev [] v vs = tt
flips-TakesTurns prev (s ∷ ss) v (w, vs) =
    turn (normalize_outcome prev) (normalize_outcome s) (flips s ss) v w
      (flips-TakesTurns s ss w vs)

-- Under the same conditions, and where every result is a verdict, outages and recoveries take turns,
-- beginning with an outage if the first result was up and with a recovery if it was down.
alerts-TakesTurns :
    (l : Lookups) (kind : MonitorType) (m : ℕ) (region : Option ℕ) (d : ℕ → TransitionDetail)
    (about : Text × Text) (n : ℕ) (s : Text) (ss : List Text)
    → l.throws ≡ false
    → monitor_meta l kind m ≡ some about
    → is_qa kind ≡ false
    → IsVerdict s
    → All IsVerdict ss
    → TakesTurns (normalize_outcome s) (alerts l kind m region d n [] (s ∷ ss))
alerts-TakesTurns l kind m region d about n s ss fine known probe v vs =
    rw (alerts-eq-flips l kind m region d fine known probe n s ss) (flips-TakesTurns s ss v vs)
