-- ===== src/Tests/Detection.antt =====
-- Runs of the transition detector: src/services/transition-detector.ts.
use oo_workers.Prelude.{ℕ, ◌≡◌, refl, ◌≢◌, false, List, [], ◌∷◌, none, some, arith}
use oo_workers.Text.{Text, codes}
use oo_workers.Db.{MonitorType, Exec, no_extra, pending, success, failed}
use oo_workers.Transition.{Outcome, normalize_outcome}
use oo_workers.Transition.Probes.{
  Lookups, TransitionDetail, monitor_meta, maybe_alert_on_transition,
}
use oo_workers.Transition.Probes.History.{alerts, flips, alerts-eq-flips}
use oo_workers.Transition.Probes.FanOut.{with_status, IsPair, two_regions_silent}
use oo_workers.Prelude.{inl, inr, Option}
use oo_workers.Qa.{QaRun, qa_run_abandoned}
use oo_workers.Transition.Runs.Verdicts.{run_alerts, flips_from, verdicts, run_alerts-eq-flips}

abbrev known : Lookups
known = record {
  meta = λ kind id. some (codes "site", codes "https://example.com");
  slug = λ id. some (codes "eu");
  throws = false;
}

abbrev about : Text × Text
about = (codes "site", codes "https://example.com")

abbrev detail : ℕ → TransitionDetail
detail n = record {
  status_code = none;
  error_message = none;
  duration_ms = none;
  region_id = some 7;
  start_time = n;
}

alerts-eq-flips_example :
    alerts known MonitorType.tcp 4 (some 7) detail 1 [] (success ∷ failed ∷ success ∷ [])
    ≡ flips success (failed ∷ success ∷ [])
alerts-eq-flips_example =
    alerts-eq-flips known MonitorType.tcp 4 (some 7) detail {about = about} refl
      (unfold monitor_meta in refl) refl 1 success (failed ∷ success ∷ [])

abbrev probe_of : ℕ → ℕ → ℕ → Text → Exec
probe_of id region time status = record {
  kind = MonitorType.url;
  id = id;
  monitor_id = 4;
  region_id = some region;
  run_id = none;
  status = status;
  latency_ms = none;
  error_message = none;
  extra = no_extra;
  start_time = time;
  end_time = none;
}

up_ne_other : normalize_outcome success ≢ Outcome.other
unfolding normalize_outcome
up_ne_other e = cc e

down_ne_other : normalize_outcome failed ≢ Outcome.other
unfolding normalize_outcome
down_ne_other e = cc e

abbrev eu_row : Exec
eu_row = probe_of 11 7 500 pending

abbrev us_row : Exec
us_row = probe_of 12 8 501 pending

abbrev older : List Exec
older = probe_of 10 8 440 success ∷ probe_of 9 7 439 success ∷ []

both_regions : IsPair MonitorType.url 4 eu_row us_row older
both_regions = record {
  probe = refl;
  kind_a = refl;
  kind_b = refl;
  monitor_a = refl;
  monitor_b = refl;
  distinct = λ e. omega arith;
  order = omega arith;
  newest = (omega arith, (omega arith, tt));
}

two_regions_silent_example :
    ((maybe_alert_on_transition known
          (with_status pending us_row ∷ with_status failed eu_row ∷ older)
          MonitorType.url
          4
          11
          failed
          (detail 502)
        ≡ none)
      × (maybe_alert_on_transition known
            (with_status failed us_row ∷ with_status failed eu_row ∷ older)
            MonitorType.url
            4
            12
            failed
            (detail 503)
          ≡ none))
    × ((maybe_alert_on_transition known
            (with_status failed us_row ∷ with_status pending eu_row ∷ older)
            MonitorType.url
            4
            12
            failed
            (detail 502)
          ≡ none)
        × (maybe_alert_on_transition known
              (with_status failed us_row ∷ with_status failed eu_row ∷ older)
              MonitorType.url
              4
              11
              failed
              (detail 503)
            ≡ none))
two_regions_silent_example =
    two_regions_silent known MonitorType.url 4 eu_row us_row older failed failed (detail 502)
      (detail 503) both_regions refl

-- Two regions and the master run a project; one run of the region is given up.
abbrev run_of : Option ℕ → Option Text → QaRun
run_of region outcome = record {
  id = 0;
  project_id = 4;
  region_id = region;
  expected_tests = 1;
  started_at = 0;
  outcome = outcome;
  alerted_at = none;
}

abbrev region_runs : List QaRun
region_runs =
    run_of (some 7) (some success)
    ∷ run_of (some 8) (some failed)
    ∷ run_of (some 7) (some qa_run_abandoned)
    ∷ run_of none (some success)
    ∷ run_of (some 7) (some failed)
    ∷ []

run_alerts-eq-flips_example :
    run_alerts 4 (some 7) known 1 [] region_runs ≡ flips_from (verdicts 4 (some 7) region_runs)
run_alerts-eq-flips_example = run_alerts-eq-flips 4 (some 7) known about refl refl 1 region_runs (
  inr (inl refl),
  (inr (inr (inl refl)), (inr (inr (inr refl)), (inr (inl refl), (inr (inr (inl refl)), tt)))),
)
