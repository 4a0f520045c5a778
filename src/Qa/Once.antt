-- ===== src/Qa/Once.antt =====
-- The claim of a run (`claimRunAlert`) lets one caller through, whoever else asks and in whatever
-- order (src/db/repositories/qa-project.repo.ts and its callers).
use native.Mathlib.Nat.{zero-add, add_assoc, add_left_comm}
use oo_workers.Prelude.{
  ℕ, ◌+◌, ◌-◌, ◌≤◌, ◌≡◌, sym, List, [], ◌∷◌, Option, none, some, arith, All-imp, ◌==◌,
  if◌then◌else◌, Bool-cases, inl, inr, keep,
}
use oo_workers.Text.{Text}
use oo_workers.Db.{Exec}
use oo_workers.Qa.{
  QaRun, QaState, QaResult, qa_run_abandoned, create_run, create_qa_execution, claim_rows,
  claim_run_alert, mark_run_tests_abandoned, finalize_unfinished_qa_run, find_abandoned_runs,
  sweep_runs, tick_abandoned_qa_runs, qa_run_abandoned_ms, owned_row, conclude, settle_run,
  after_update, write_qa_agent_result,
}
use oo_workers.Qa.Claim.{count, Holds, claim-Holds}

-- Of a state: how often the run was finalized, by an alert or by being given up.
abbrev pub finalized : ℕ → QaState → ℕ
finalized id s = count id s.alert_calls + count id s.abandoned

abbrev IsOnce : ℕ → QaState → Type 0
IsOnce id s = Holds id s.runs s.next_run (finalized id s)

Holds-eq :
    (id : ℕ) (runs : List QaRun) (next c d : ℕ)
    → c ≡ d
    → Holds id runs next c
    → Holds id runs next d
Holds-eq id runs next c d e h = rw e at h

conclude-IsOnce :
    (id run now : ℕ) (o : Option Text) (s : QaState)
    → IsOnce id s
    → IsOnce id (conclude run now o s)
unfolding conclude claim_run_alert
conclude-IsOnce id run now none s h = h
conclude-IsOnce id run now (some outcome) s h =
    let k = claim-Holds id run outcome now s.runs s.next_run (finalized id s) h in
    elim (Bool-cases ((claim_rows run outcome now s.runs).1 == 1)) [
      | inl won ↦
          rw (won, conclude)
            (Holds-eq id (claim_rows run outcome now s.runs).0 s.next_run _ _
              (sym (
                add_assoc (if run == id then 1 else 0) (count id s.alert_calls)
                  (count id s.abandoned)))
              (rw won at k))
      | inr lost ↦ rw (lost, conclude) (rw (lost, zero-add (finalized id s)) at k)
    ]

finalize-IsOnce :
    (id run : ℕ) (message : Text) (now : ℕ) (s : QaState)
    → IsOnce id s
    → IsOnce id (finalize_unfinished_qa_run run message now s).0
unfolding finalize_unfinished_qa_run claim_run_alert mark_run_tests_abandoned
finalize-IsOnce id run message now s h =
    let k = claim-Holds id run qa_run_abandoned now s.runs s.next_run (finalized id s) h in
    elim (Bool-cases ((claim_rows run qa_run_abandoned now s.runs).1 == 1)) [
      | inl won ↦
          rw (won, finalize_unfinished_qa_run)
            (Holds-eq id (claim_rows run qa_run_abandoned now s.runs).0 s.next_run _ _
              (add_left_comm (if run == id then 1 else 0) (count id s.alert_calls)
                (count id s.abandoned))
              (rw won at k))
      | inr lost ↦ rw (lost, finalize_unfinished_qa_run) (rw (lost, zero-add (finalized id s)) at k)
    ]

sweep-IsOnce :
    (id now : ℕ) (rs : List QaRun) (s : QaState) → IsOnce id s → IsOnce id (sweep_runs now rs s)
unfolding sweep_runs
sweep-IsOnce id now [] s h = h
sweep-IsOnce id now (r ∷ rs) s h = sweep-IsOnce id now rs _ (finalize-IsOnce id r.id _ now s h)

settle-IsOnce :
    (id now : ℕ) (o : Option ℕ) (s : QaState) → IsOnce id s → IsOnce id (settle_run now o s)
unfolding settle_run
settle-IsOnce id now none s h = h
settle-IsOnce id now (some run) s h = conclude-IsOnce id run now _ s h

after_update-IsOnce :
    (id now : ℕ) (rows : List Exec) (s : QaState)
    → IsOnce id s
    → IsOnce id (after_update now rows s).0
unfolding after_update
after_update-IsOnce id now [] s h = h
after_update-IsOnce id now (row ∷ []) s h = settle-IsOnce id now row.run_id s h
after_update-IsOnce id now (row ∷ row' ∷ rows) s h = h

-- What can happen to the runs, in any order: an agent or the processor opens a run or a test, an
-- agent reports, the processor gives a run up, the scheduler sweeps.
pub data Op : Type 0 where
  open_run : (project : ℕ) (region : Option ℕ) (expected now : ℕ) → Op
  open_test : (project : ℕ) (status : Text) (region run : Option ℕ) (now : ℕ) → Op
  report : (region : ℕ) → QaResult → (now : ℕ) → Op
  give_up : (run : ℕ) (message : Text) (now : ℕ) → Op
  sweep : (now : ℕ) → Op

unfoldable pub apply : Op → QaState → QaState
unfolding create_run create_qa_execution write_qa_agent_result finalize_unfinished_qa_run
    tick_abandoned_qa_runs
apply (open_run project region expected now) s = create_run project region expected now s
apply (open_test project status region run now) s =
    create_qa_execution project status region run now s
apply (report region b now) s = (write_qa_agent_result region b now s).0
apply (give_up run message now) s = (finalize_unfinished_qa_run run message now s).0
apply (sweep now) s = tick_abandoned_qa_runs now s

create-IsOnce :
    (id project : ℕ) (region : Option ℕ) (expected now : ℕ) (s : QaState)
    → IsOnce id s
    → IsOnce id (create_run project region expected now s)
unfolding create_run
create-IsOnce id project region expected now s h = record {
  once = h.once;
  closed = λ p. (
    ((λ e. absurd (omega (arith, e, (h.closed p).1))), (h.closed p).0),
    omega (arith, (h.closed p).1),
  );
  below = (omega arith, All-imp _ _ s.runs (λ r lt. omega arith) h.below);
}

apply-IsOnce : (id : ℕ) (op : Op) (s : QaState) → IsOnce id s → IsOnce id (apply op s)
unfolding apply create_qa_execution write_qa_agent_result tick_abandoned_qa_runs
apply-IsOnce id (open_run project region expected now) s h =
    create-IsOnce id project region expected now s h
apply-IsOnce id (open_test project status region run now) s h = h
apply-IsOnce id (report region b now) s h =
    after_update-IsOnce id now (keep (owned_row region b.execution_id) s.execs) _ h
apply-IsOnce id (give_up run message now) s h = finalize-IsOnce id run message now s h
apply-IsOnce id (sweep now) s h =
    sweep-IsOnce id now (find_abandoned_runs (now - qa_run_abandoned_ms) s) s h

unfoldable pub apply_all : List Op → QaState → QaState
unfolding apply
apply_all [] s = s
apply_all (op ∷ ops) s = apply_all ops (apply op s)

unfoldable pub no_runs : QaState
no_runs = record {
  runs = [];
  next_run = 1;
  execs = [];
  next_exec = 1;
  alert_calls = [];
  abandoned = [];
}

apply_all-IsOnce :
    (id : ℕ) (ops : List Op) (s : QaState) → IsOnce id s → IsOnce id (apply_all ops s)
unfolding apply_all
apply_all-IsOnce id [] s h = h
apply_all-IsOnce id (op ∷ ops) s h = apply_all-IsOnce id ops (apply op s) (apply-IsOnce id op s h)

-- Whatever is interleaved, a run is finalized at most once: either the detector is called for it
-- once, or it is given up once, never both.
pub finalized-le-one : (id : ℕ) (ops : List Op) → finalized id (apply_all ops no_runs) ≤ 1
finalized-le-one id ops =
    (apply_all-IsOnce id ops no_runs (
      unfold no_runs in
      record { once = omega arith; closed = λ p. absurd (omega (arith, p)); below = tt })).once
