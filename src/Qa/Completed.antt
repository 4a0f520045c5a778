-- ===== src/Qa/Completed.antt =====
-- The row of a run that is completed or closed out (src/processors/qa-project.processor.ts).
use oo_workers.Prelude.{
  ℕ, ◌≡◌, refl, ◌∙◌, ap, Bool, true, false, List, [], ◌∷◌, ◌==◌, Option, none, some, Option-cases,
  Bool-cases, inl, inr, arith, if◌then◌else◌, ==_refl,
}
use oo_workers.Text.{Text}
use oo_workers.Qa.{QaRun, claim_rows, find_run, qa_run_abandoned}
use oo_workers.Qa.Claim.{IsBelow}
use oo_workers.Qa.Services.{Services, Bench, Files, aggregate_outcome, TestStatus}
use oo_workers.Qa.Processor.{complete_run}
use oo_workers.Qa.Settled.{close_out-runs}
use oo_workers.Qa.Verdict.{Closed}

-- The outcome that is recorded for a run.
pub outcome_at : ℕ → List QaRun → Option Text
unfolding find_run
outcome_at run runs = elim (find_run run runs) [ none ↦ none | some r ↦ r.outcome ]

abbrev pub fresh_run : ℕ → ℕ → ℕ → ℕ → QaRun
fresh_run run project expected now = record {
  id = run;
  project_id = project;
  region_id = none;
  expected_tests = expected;
  started_at = now;
  outcome = none;
  alerted_at = none;
}

abbrev claimed : Text → ℕ → QaRun → QaRun
claimed outcome now r = record r { outcome = some outcome; alerted_at = some now }

claim_rows-below :
    (run : ℕ) (outcome : Text) (now : ℕ) (rs : List QaRun)
    → IsBelow run rs
    → claim_rows run outcome now rs ≡ (rs, 0)
unfolding claim_rows
claim_rows-below run outcome now [] h = refl
claim_rows-below run outcome now (r ∷ rs) (below, h) =
    let other : (r.id == run) ≡ false = ground (arith, below) in
    rw (claim_rows, other, claim_rows-below run outcome now rs h) refl

either {ℓ} : {A : Type ℓ} (b : Bool) (a : A) → (if b then a else a) ≡ a
either true a = refl
either false a = refl

module _ (S : Services) (project run expected : ℕ) (files : Files) (rs : List QaRun)
    (below : IsBelow run rs) where
  abbrev row : QaRun
  row = fresh_run run project expected S.now

  claim_rows-fresh :
      (outcome : Text)
      → claim_rows run outcome S.now (row ∷ rs) ≡ (claimed outcome S.now row ∷ rs, 1)
  unfolding claim_rows
  claim_rows-fresh outcome =
      rw (claim_rows, ==_refl run, claim_rows-below run outcome S.now rs below) refl

  claim_rows-claimed :
      (outcome : Text)
      → (claim_rows run qa_run_abandoned S.now (claimed outcome S.now row ∷ rs)).0
        ≡ claimed outcome S.now row ∷ rs
  unfolding claim_rows
  claim_rows-claimed outcome =
      rw (claim_rows, ==_refl run, claim_rows-below run qa_run_abandoned S.now rs below) refl

  outcome_at-claimed :
      (outcome : Text) → outcome_at run (claimed outcome S.now row ∷ rs) ≡ some outcome
  unfolding outcome_at find_run
  outcome_at-claimed outcome = rw (outcome_at, ==_refl run) refl

  outcome_at-fresh : outcome_at run (row ∷ rs) ≡ none
  unfolding outcome_at find_run
  outcome_at-fresh = rw (outcome_at, ==_refl run) refl

  -- What is left of a run that is closed out.
  abbrev abandoned_or_open : Option Text
  abandoned_or_open = if S.close_out_throws then none else some qa_run_abandoned

  pub Closed-outcome :
      (out b : Bench)
      → b.qa.runs ≡ row ∷ rs
      → Closed S files project run out b
      → (outcome_at run out.qa.runs ≡ abandoned_or_open) × (out.qa.alert_calls ≡ b.qa.alert_calls)
  Closed-outcome out b start (runs, calls) =
      let at =
        runs
        ∙ ap (λ q. if S.close_out_throws then q else (claim_rows run qa_run_abandoned S.now q).0)
            start in
      (
        elim (Bool-cases S.close_out_throws) [
          | inl e ↦ rw (at, e) outcome_at-fresh
          | inr e ↦
              rw (at, e, claim_rows-fresh qa_run_abandoned) (outcome_at-claimed qa_run_abandoned)
        ],
        calls,
      )

  pub complete_run-good :
      (results : List TestStatus) (b : Bench)
      → S.claim_throws ≡ none
      → b.qa.runs ≡ row ∷ rs
      → (outcome_at run (complete_run S project run files results b).0.qa.runs
          ≡ some (aggregate_outcome results))
        × ((complete_run S project run files results b).0.qa.alert_calls ≡ run ∷ b.qa.alert_calls)
  unfolding complete_run
  complete_run-good results b claims start =
      let outcome = aggregate_outcome results in
      let won = ap (λ q. claim_rows run outcome S.now q) start ∙ claim_rows-fresh outcome in
      elim (Option-cases S.touch_throws) [
        | inl fine ↦ rw (complete_run, claims, fine, won) (outcome_at-claimed outcome, refl)
        | inr (m, bad) ↦
            let after : Bench = record b {
              qa = record b.qa {
                runs = claimed outcome S.now row ∷ rs;
                alert_calls = run ∷ b.qa.alert_calls;
              };
            } in
            let (runs, calls) = close_out-runs S files project run m after in
            let kept =
              ap (λ q. if S.close_out_throws then claimed outcome S.now row ∷ rs else q)
                (claim_rows-claimed outcome)
              ∙ either S.close_out_throws (claimed outcome S.now row ∷ rs) in
            rw (complete_run, claims, bad, won)
              (ap (outcome_at run) (runs ∙ kept) ∙ outcome_at-claimed outcome, calls)
      ]

  pub complete_run-bad :
      (results : List TestStatus) (b : Bench) (m : Text)
      → S.claim_throws ≡ some m
      → Closed S files project run (complete_run S project run files results b).0 b
  unfolding complete_run
  complete_run-bad results b m claims =
      rw (complete_run, claims) (close_out-runs S files project run m b)
