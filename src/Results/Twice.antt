-- ===== src/Results/Twice.antt =====
-- A failed assertion on the last attempt (src/processors/url-monitor.processor.ts,
-- src/processors/api-check.processor.ts): the `try` writes and asks the detector, then throws into
-- its own `catch`, which does both again.
use mathlib.Core.Path.{ap₂}
use oo_workers.Prelude.{
  ℕ, ◌≡◌, refl, ◌∙◌, ap, true, false, List, [], ◌∷◌, ◌++◌, some, arith, keep, Bool-cases, inl, inr,
  and-true, ◌==◌, from_option,
}
use oo_workers.Text.{Text}
use oo_workers.Db.{MonitorType, Exec, update_where, is_row, failed, type_eq}
use oo_workers.Alert.{AlertEvent, outage}
use oo_workers.Transition.{up, normalize_outcome}
use oo_workers.Transition.Latest.{latest}
use oo_workers.Transition.Probes.{
  Lookups, TransitionDetail, is_previous, previous_status, status_of, monitor_meta,
  maybe_alert_on_transition, event_of,
}
use oo_workers.Transition.Probes.History.{event_list, opt_list, maybe_alert-event}
use oo_workers.Redaction.{UrlApi}
use oo_workers.Results.{Desk, AlertCall}
use oo_workers.Results.Probe.{is_final_attempt}
use oo_workers.Results.Url.{
  UrlJob, responded, all_passed, evaluate_url_monitor_assertions, url_monitor_processor, try_url,
  catch_url,
}

-- What the detector does with a call, on the rows it finds.
abbrev detail_of : AlertCall → TransitionDetail
detail_of c = record {
  status_code = c.status_code;
  error_message = c.error_message;
  duration_ms = c.duration_ms;
  region_id = c.region_id;
  start_time = from_option 0 c.start_time;
}

pub events : Lookups → List Exec → List AlertCall → List AlertEvent
events l rows [] = []
events l rows (c ∷ cs) =
    event_list
      (maybe_alert_on_transition l rows c.kind c.monitor_id c.exec_id c.status (detail_of c))
    ++ events l rows cs

own_row-is_previous :
    (kind : MonitorType) (m id : ℕ) (r : Exec)
    → is_row kind id r ≡ true
    → is_previous kind m id r ≡ false
unfolding is_previous
own_row-is_previous kind m id r h =
    let same : (r.id == id) ≡ true = (and-true (type_eq r.kind kind) (r.id == id) h).1 in
    rw same (ground arith)

keep_previous-update_where :
    (kind : MonitorType) (m id : ℕ) (f : Exec → Exec) (rows : List Exec)
    → ((r : Exec) → is_row kind id (f r) ≡ is_row kind id r)
    → keep (is_previous kind m id) (update_where (is_row kind id) f rows)
      ≡ keep (is_previous kind m id) rows
unfolding keep update_where
keep_previous-update_where kind m id f [] same = refl
keep_previous-update_where kind m id f (r ∷ rows) same =
    let rest = keep_previous-update_where kind m id f rows same in
    elim (Bool-cases (is_row kind id r)) [
      | inl own ↦
          rw
            (
              own,
              own_row-is_previous kind m id (f r) (same r ∙ own),
              own_row-is_previous kind m id r own,
              keep,
            )
            rest
      | inr other ↦ elim (Bool-cases (is_previous kind m id r)) [
        | inl hit ↦ rw (other, hit, keep) (ap (λ rs. r ∷ rs) rest)
        | inr miss ↦ rw (other, miss, keep) rest
      ]
    ]

-- The row of the execution itself is never the previous one, however it is rewritten.
previous_status-update_where :
    (kind : MonitorType) (m id : ℕ) (f : Exec → Exec) (rows : List Exec)
    → ((r : Exec) → is_row kind id (f r) ≡ is_row kind id r)
    → previous_status (update_where (is_row kind id) f rows) kind m id
      ≡ previous_status rows kind m id
unfolding previous_status
previous_status-update_where kind m id f rows same =
    ap (λ rs. status_of (latest (λ (r : Exec). r.start_time) rs))
      (keep_previous-update_where kind m id f rows same)

-- Two calls with FAILED about one execution, whose row was rewritten twice, after a result that was
-- up: both are outages.
two_outages :
    (l : Lookups) (rows : List Exec) (kind : MonitorType) (m id : ℕ) (prev : Text)
    (about : Text × Text) (f g : Exec → Exec) (d e : TransitionDetail) (rest : List AlertEvent)
    → l.throws ≡ false
    → monitor_meta l kind m ≡ some about
    → previous_status rows kind m id ≡ some prev
    → normalize_outcome prev ≡ up
    → ((r : Exec) → is_row kind id (f r) ≡ is_row kind id r)
    → ((r : Exec) → is_row kind id (g r) ≡ is_row kind id r)
    → (let rows' = update_where (is_row kind id) g (update_where (is_row kind id) f rows) in
        event_list (maybe_alert_on_transition l rows' kind m id failed d)
          ++ (event_list (maybe_alert_on_transition l rows' kind m id failed e) ++ rest)
        ≡ outage ∷ outage ∷ rest)
two_outages l rows kind m id prev about f g d e rest fine known p was keeps_f keeps_g =
    let rows' = update_where (is_row kind id) g (update_where (is_row kind id) f rows) in
    let seen : previous_status rows' kind m id ≡ some prev =
      previous_status-update_where kind m id g (update_where (is_row kind id) f rows) keeps_g
      ∙ previous_status-update_where kind m id f rows keeps_f
      ∙ p in
    let fell : opt_list (event_of (normalize_outcome prev) (normalize_outcome failed))
        ≡ outage ∷ [] =
      rw was (unfold normalize_outcome event_of in refl) in
    let alert : (x : TransitionDetail)
        → event_list (maybe_alert_on_transition l rows' kind m id failed x) ≡ outage ∷ [] =
      λ x.
        maybe_alert-event l rows' kind m id failed prev x {about = about} fine known seen ∙ fell in
    ap₂ ◌++◌ (alert d) (ap (λ es. es ++ rest) (alert e))

module _ (U : UrlApi) (j : UrlJob) (started code took caught : ℕ) (d : Desk) (l : Lookups)
    (about : Text × Text) (prev : Text) where
  -- A url check whose last attempt is answered, but fails an assertion, while the result before it
  -- was up, where the detector's queries do not throw and the monitor is known: the detector is asked
  -- twice about the same execution, and raises an outage both times.
  pub url_outage_twice :
      is_final_attempt j.job ≡ true
      → all_passed (evaluate_url_monitor_assertions j.assertions code) ≡ false
      → l.throws ≡ false
      → monitor_meta l MonitorType.url j.job.monitor_id ≡ some about
      → previous_status d.rows MonitorType.url j.job.monitor_id j.job.execution_id ≡ some prev
      → normalize_outcome prev ≡ up
      → (let after = (url_monitor_processor U j started (responded code took caught) d).0 in
          events l after.rows after.calls ≡ outage ∷ outage ∷ events l after.rows d.calls)
  unfolding url_monitor_processor try_url catch_url events
  url_outage_twice final bad fine known p was =
      rw (bad, final)
        (two_outages l d.rows MonitorType.url j.job.monitor_id j.job.execution_id prev about _ _ _ _
          _ fine known p was (λ r. refl) (λ r. refl))
