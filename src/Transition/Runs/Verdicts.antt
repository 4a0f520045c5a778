-- ===== src/Transition/Runs/Verdicts.antt =====
-- The alerts of browser-check runs (src/services/transition-detector.ts,
-- `maybeAlertOnQaRunTransition`), for runs of any project and region in the order of their start.
use oo_workers.Prelude.{
  ℕ, suc, ◌≡◌, refl, sym, ◌∙◌, inl, inr, true, false, List, [], ◌∷◌, ◌++◌, Option, none, some,
  arith, All, ==_iff, ==_refl, keep, if◌then◌else◌, Bool-cases, and-true,
}
use oo_workers.Text.{Text}
use oo_workers.Db.{MonitorType}
use oo_workers.Alert.{AlertEvent}
use oo_workers.Qa.{QaRun, find_run, qa_run_abandoned}
use oo_workers.Transition.{Outcome, normalize_outcome}
use oo_workers.Transition.Probes.{Lookups, event_of, monitor_meta}
use oo_workers.Transition.Probes.History.{event_list, opt_list, flips}
use oo_workers.Transition.Runs.{is_verdict, maybe_alert_on_qa_run_transition}
use oo_workers.Transition.Runs.Rows.{
  IsPast, IsOutcome, stamp, is_here, is_mine, last_verdict, previous-eq, newest-cases, last-new,
  last-old,
}

-- The alerts that a list of verdicts calls for.
pub flips_from : List Text → List AlertEvent
flips_from [] = []
flips_from (s ∷ ss) = flips s ss

abbrev flips_after : Option Text → List Text → List AlertEvent
flips_after none ss = flips_from ss
flips_after (some s) ss = flips s ss

-- What a finished run adds.
abbrev step_alerts : Option Text → Option Text → List AlertEvent
step_alerts none o = []
step_alerts (some p) none = []
step_alerts (some p) (some s) = opt_list (event_of (normalize_outcome p) (normalize_outcome s))

abbrev outcome_list : Option Text → List Text
outcome_list none = []
outcome_list (some s) = s ∷ []

flips_after_nil : (o : Option Text) → flips_after o [] ≡ []
unfolding flips_from flips
flips_after_nil none = refl
flips_after_nil (some s) = refl

event_of_no_outcome : (o : Outcome) → event_of o Outcome.other ≡ none
unfolding event_of
event_of_no_outcome Outcome.up = refl
event_of_no_outcome Outcome.down = refl
event_of_no_outcome Outcome.other = refl

event_of_giving_up :
    (p : Text) → event_of (normalize_outcome p) (normalize_outcome qa_run_abandoned) ≡ none
event_of_giving_up p = unfold normalize_outcome in event_of_no_outcome (normalize_outcome p)

step_alerts_silent : (p o : Option Text) → IsOutcome o → is_verdict o ≡ false → step_alerts p o ≡ []
step_alerts_silent none o h miss = refl
step_alerts_silent (some p) o (inl e) miss = rw e refl
step_alerts_silent (some p) o (inr (inl e)) miss = cc (e, miss)
step_alerts_silent (some p) o (inr (inr (inl e))) miss = cc (e, miss)
step_alerts_silent (some p) o (inr (inr (inr e))) miss = rw (e, event_of_giving_up p) refl

flips_after_step :
    (p o : Option Text) (ss : List Text)
    → is_verdict o ≡ true
    → step_alerts p o ++ flips_after o ss ≡ flips_after p (outcome_list o ++ ss)
unfolding flips_from flips
flips_after_step p none ss hit = cc
flips_after_step none (some s) ss hit = refl
flips_after_step (some p) (some s) ss hit = refl

module _ (project : ℕ) (region : Option ℕ) where
  -- The verdicts of the project in the region, in order.
  pub verdicts : List QaRun → List Text
  verdicts [] = []
  verdicts (r ∷ rs) =
      (if is_mine project region r then outcome_list r.outcome else []) ++ verdicts rs

  -- The alerts of the project in the region, when each run of the list is finalized before the
  -- next one starts.
  pub run_alerts : Lookups → ℕ → List QaRun → List QaRun → List AlertEvent
  run_alerts l n rows [] = []
  run_alerts l n rows (r ∷ rs) =
      let rows' = stamp n r ∷ rows in
      (if is_here project region r
        then event_list (maybe_alert_on_qa_run_transition l rows' n)
        else [])
      ++ run_alerts l (suc n) rows' rs

  -- A run of the project in the region, once it is finalized.
  one_run :
      (l : Lookups) (n : ℕ) (r : QaRun) (rows : List QaRun) (about : Text × Text)
      → l.throws ≡ false
      → l.meta MonitorType.qa project ≡ some about
      → is_here project region r ≡ true
      → IsOutcome r.outcome
      → IsPast n rows
      → event_list (maybe_alert_on_qa_run_transition l (stamp n r ∷ rows) n)
        ≡ step_alerts (last_verdict project region rows) r.outcome
  unfolding maybe_alert_on_qa_run_transition find_run monitor_meta last_verdict event_of
      normalize_outcome
  one_run l n r rows about fine known here o h =
      let meta_here : l.meta MonitorType.qa r.project_id ≡ some about =
        rw ((==_iff r.project_id project).0 (and-true _ _ here).0) known in
      rw (fine, ==_refl n, previous-eq project region n r rows here h)
        (elim (newest-cases project region rows) [
          | inl nothing ↦ elim o [
            | inl e ↦ rw (nothing, e) refl
            | inr (inl e) ↦ rw (nothing, e) refl
            | inr (inr (inl e)) ↦ rw (nothing, e) refl
            | inr (inr (inr e)) ↦ rw (nothing, e) refl
          ]
          | inr (q, found, inl f) ↦ elim o [
            | inl e ↦ rw (found, e, f) refl
            | inr (inl e) ↦ rw (found, e, f) refl
            | inr (inr (inl e)) ↦ rw (found, e, f, meta_here) refl
            | inr (inr (inr e)) ↦ rw (found, e, f) refl
          ]
          | inr (q, found, inr f) ↦ elim o [
            | inl e ↦ rw (found, e, f) refl
            | inr (inl e) ↦ rw (found, e, f, meta_here) refl
            | inr (inr (inl e)) ↦ rw (found, e, f) refl
            | inr (inr (inr e)) ↦ rw (found, e, f) refl
          ]
        ])

  module _ (l : Lookups) (about : Text × Text) (fine : l.throws ≡ false)
      (known : l.meta MonitorType.qa project ≡ some about) where
    run_alerts-after :
        (n : ℕ) (rows rs : List QaRun)
        → All (λ (r : QaRun). IsOutcome r.outcome) rs
        → IsPast n rows
        → run_alerts l n rows rs ≡ flips_after (last_verdict project region rows) (verdicts rs)
    unfolding run_alerts verdicts
    run_alerts-after n rows [] os h = sym (flips_after_nil (last_verdict project region rows))
    run_alerts-after n rows (r ∷ rs) (o, os) h =
        let rest = run_alerts-after (suc n) (stamp n r ∷ rows) rs os (omega arith, h) in
        elim (Bool-cases (is_here project region r)) [
          | inr elsewhere ↦
              rw (elsewhere, rest, last-old project region n r rows (rw elsewhere refl)) refl
          | inl here ↦ elim (Bool-cases (is_verdict r.outcome)) [
            | inr miss ↦
                rw
                  (
                    here,
                    miss,
                    rest,
                    last-old project region n r rows (rw (here, miss) refl),
                    one_run l n r rows about fine known here o h,
                    step_alerts_silent (last_verdict project region rows) r.outcome o miss,
                  )
                  refl
            | inl hit ↦
                rw
                  (
                    here,
                    hit,
                    rest,
                    last-new project region n r rows (rw (here, hit) refl),
                    one_run l n r rows about fine known here o h,
                  )
                  (flips_after_step (last_verdict project region rows) r.outcome (verdicts rs) hit)
          ]
        ]

    -- Runs of any projects and regions, each finalized as SUCCESS, FAILED or ABANDONED, or not at all,
    -- before the next one starts; the detector's queries do not throw and the project is known. Then
    -- the alerts of the project in a region are exactly the changes of its verdicts there, whatever
    -- lies between them.
    pub run_alerts-eq-flips :
        (n : ℕ) (rs : List QaRun)
        → All (λ (r : QaRun). IsOutcome r.outcome) rs
        → run_alerts l n [] rs ≡ flips_from (verdicts rs)
    run_alerts-eq-flips n rs os = run_alerts-after n [] rs os tt ∙ unfold last_verdict keep in refl
