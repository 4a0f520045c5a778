-- ===== src/Results/Attempts.antt =====
-- A job that is run again after each failure (src/processors/_run-probe.ts).
use oo_workers.Prelude.{
  ℕ, zero, suc, ◌+◌, ◌≡◌, refl, sym, ◌∙◌, ap, Option, none, some, true, false, arith, leb, length,
  if◌then◌else◌, Bool-cases, inl, inr,
}
use oo_workers.Text.{Text}
use oo_workers.Db.{MonitorType}
use oo_workers.Results.{Desk}
use oo_workers.Results.Probe.{
  Job, ProbeResult, returned, threw, is_final_attempt, attempts_of, run_probe_processor, run_job,
  probe_monitor_processor, fields_of,
}

fields_of-ok : (kind : MonitorType) (p : ProbeResult) → (fields_of kind p).ok ≡ p.ok
fields_of-ok MonitorType.udp p = refl
fields_of-ok MonitorType.db p = refl
fields_of-ok _ p = refl

module _ (kind : MonitorType) (j : Job) (p : ProbeResult) (now : ℕ) (d : Desk) where
  success-calls :
      p.ok ≡ true
      → ((run_probe_processor kind j p now d).1 ≡ returned)
        × (length (run_probe_processor kind j p now d).0.calls ≡ suc (length d.calls))
  unfolding run_probe_processor
  success-calls good = rw good (refl, refl)

  failure-calls :
      p.ok ≡ false
      → (message : Text) × ((run_probe_processor kind j p now d).1 ≡ threw message)
        × (length (run_probe_processor kind j p now d).0.calls
            ≡ (if is_final_attempt j then 1 else 0) + length d.calls)
  unfolding run_probe_processor
  failure-calls bad = elim (Bool-cases (is_final_attempt j)) [
    | inl last ↦ rw (bad, last) (_, refl, omega arith)
    | inr more ↦ rw (bad, more) (_, refl, omega arith)
  ]

attempts_pos : (o : Option ℕ) → (left : ℕ) × (attempts_of o ≡ suc left)
attempts_pos none = (0, refl)
attempts_pos (some zero) = (0, refl)
attempts_pos (some (suc n)) = (n, ground arith)

is_final_attempt-leb :
    (j : Job) (i left : ℕ)
    → i + suc left ≡ attempts_of j.attempts
    → is_final_attempt (record j { attempts_made = i }) ≡ leb left 0
unfolding is_final_attempt
is_final_attempt-leb j i left e = rw (sym e) (ground arith)

run_job-calls_from :
    (kind : MonitorType) (j : Job) (results : ℕ → ProbeResult) (clock : ℕ → ℕ) (left i : ℕ)
    (d : Desk)
    → i + suc left ≡ attempts_of j.attempts
    → length (run_job kind j results clock (suc left) i d).calls ≡ suc (length d.calls)
unfolding run_job probe_monitor_processor
run_job-calls_from kind j results clock zero i d e =
    let p = fields_of kind (results i) in
    let j' : Job = record j { attempts_made = i } in
    elim (Bool-cases p.ok) [
      | inl good ↦
          let (ended, asked) = success-calls kind j' p (clock i) d good in rw (ended, run_job) asked
      | inr bad ↦
          let (message, ended, asked) = failure-calls kind j' p (clock i) d bad in
          rw (ended, run_job)
            (asked
              ∙ ap (λ b. (if b then 1 else 0) + length d.calls) (is_final_attempt-leb j i zero e)
              ∙ omega arith)
    ]
run_job-calls_from kind j results clock (suc left) i d e =
    let p = fields_of kind (results i) in
    let j' : Job = record j { attempts_made = i } in
    elim (Bool-cases p.ok) [
      | inl good ↦
          let (ended, asked) = success-calls kind j' p (clock i) d good in rw (ended, run_job) asked
      | inr bad ↦
          let (message, ended, asked) = failure-calls kind j' p (clock i) d bad in
          rw (ended, run_job)
            (run_job-calls_from kind j results clock left (suc i)
                (run_probe_processor kind j' p (clock i) d).0 (omega arith)
              ∙ ap suc (
                  asked
                  ∙ ap (λ b. (if b then 1 else 0) + length d.calls)
                      (is_final_attempt-leb j i (suc left) e)
                  ∙ ground arith))
    ]

-- A job of the tcp, udp, db or tls queue asks the transition detector exactly once, however many
-- attempts it has and however they come out: on its success, or on its last failure.
pub run_job-calls :
    (kind : MonitorType) (j : Job) (results : ℕ → ProbeResult) (clock : ℕ → ℕ) (d : Desk)
    → length (run_job kind j results clock (attempts_of j.attempts) 0 d).calls
      ≡ suc (length d.calls)
run_job-calls kind j results clock d =
    let (left, e) = attempts_pos j.attempts in
    rw e (run_job-calls_from kind j results clock left 0 d (omega (arith, e)))
