-- ===== src/Results/ApiCalls.antt =====
-- What one attempt of src/processors/api-check.processor.ts records, and how often it asks the
-- transition detector.
use oo_workers.Db.{Exec, MonitorType, is_row, update_where, success, failed, pending}
use oo_workers.Prelude.{
  refl, sym, ap, subst, ◌∙◌, Bool, true, [], ◌∷◌, All, ℕ, ◌+◌, ◌≡◌, List, arith, length,
  if◌then◌else◌, Bool-cases, inl, inr,
}
use oo_workers.Text.{Text}
use oo_workers.Scheduler.Dispatch.{Attempt}
use oo_workers.Redaction.{UrlApi, Thrown}
use oo_workers.Api.{JsApi}
use oo_workers.Results.{Desk, update_execution}
use oo_workers.Results.Probe.{Job, Ended, returned, is_final_attempt}
use oo_workers.Results.Api.{
  ApiCheck, ApiFetched, responded, rejected, api_check_processor, finalize_success,
  finalize_failure, all_assertions_passed, results_of, assertions_failed, read_capped,
  response_body_max_bytes,
}

update_where-status :
    (p : Exec → Bool) (f : Exec → Exec) (s : Text) (rows : List Exec)
    → ((r : Exec) → (f r).status ≡ s)
    → All (λ r. p r ≡ true → r.status ≡ s) (update_where p f rows)
unfolding update_where
update_where-status p f s [] h = tt
update_where-status p f s (r ∷ rows) h = elim (Bool-cases (p r)) [
  | inl hit ↦ rw (hit, update_where) ((λ e. h r), update_where-status p f s rows h)
  | inr miss ↦
      rw (miss, update_where)
        ((λ e. absurd (ground (arith, sym miss ∙ e))), update_where-status p f s rows h)
]

module _ (J : JsApi) (query : J.Value → Text → Attempt (List J.Value)) (utf8 : List ℕ → Text)
    (U : UrlApi) (c : ApiCheck) (j : Job) (started : ℕ) where
  -- The row of the execution has a status.
  abbrev pub HasStatus : Text → List Exec → Type 0
  HasStatus s = All (λ r. is_row MonitorType.api j.execution_id r ≡ true → r.status ≡ s)

  -- How often one attempt is expected to ask.
  pub asks : ApiFetched → ℕ
  asks (rejected e took) = if is_final_attempt j then 1 else 0
  asks (responded status chunks headers took caught) =
      if all_assertions_passed J (results_of J query utf8 U c j started status chunks headers took)
      then 1
      else if is_final_attempt j
      then 2
      else 0

  api_check_processor-calls :
      (f : ApiFetched) (d : Desk)
      → length (api_check_processor J query utf8 U c j started f d).0.calls
        ≡ asks f + length d.calls
  unfolding api_check_processor finalize_success finalize_failure asks
  api_check_processor-calls (rejected e took) d = ground arith
  api_check_processor-calls (responded status chunks headers took caught) d =
      elim (Bool-cases (
        all_assertions_passed J
          (results_of J query utf8 U c j started status chunks headers took))) [
            | inl good ↦ rw (good, finalize_success) (omega arith)
            | inr bad ↦ elim (Bool-cases (is_final_attempt j)) [
              | inl last ↦ rw (bad, last, finalize_success, finalize_failure) (omega arith)
              | inr more ↦ rw (bad, more, finalize_success, finalize_failure) (omega arith)
            ]
          ]

  -- The status that one attempt is to leave.
  pub leaves : ApiFetched → Text
  leaves (rejected e took) = if is_final_attempt j then failed else pending
  leaves (responded status chunks headers took caught) =
      if all_assertions_passed J (results_of J query utf8 U c j started status chunks headers took)
      then success
      else if is_final_attempt j
      then failed
      else pending

  finalize_failure-status :
      (e : Thrown) (took : ℕ) (d : Desk)
      → HasStatus
          (if is_final_attempt j then failed else pending)
          (finalize_failure J query utf8 U c j started e took d).0.rows
  unfolding finalize_failure update_execution
  finalize_failure-status e took d = elim (Bool-cases (is_final_attempt j)) [
    | inl last ↦
        rw (last, finalize_failure)
          (update_where-status (is_row MonitorType.api j.execution_id) _ failed d.rows (λ r. refl))
    | inr more ↦
        rw (more, finalize_failure)
          (update_where-status (is_row MonitorType.api j.execution_id) _ pending d.rows (λ r. refl))
  ]

  api_check_processor-status :
      (f : ApiFetched) (d : Desk)
      → HasStatus (leaves f) (api_check_processor J query utf8 U c j started f d).0.rows
  unfolding api_check_processor finalize_success update_execution leaves
  api_check_processor-status (rejected e took) d = finalize_failure-status e took d
  api_check_processor-status (responded status chunks headers took caught) d =
      elim (Bool-cases (
        all_assertions_passed J
          (results_of J query utf8 U c j started status chunks headers took))) [
            | inl good ↦
                rw (good, leaves, finalize_success)
                  (update_where-status (is_row MonitorType.api j.execution_id) _ success d.rows
                    (λ r. refl))
            | inr bad ↦
                let d' : Desk =
                  finalize_success J query utf8 U c j started status
                    (utf8 (read_capped response_body_max_bytes 0 chunks)) headers
                    (results_of J query utf8 U c j started status chunks headers took) took d in
                let failure : Desk × Ended =
                  finalize_failure J query utf8 U c j started
                    (assertions_failed J query utf8 U c j started) caught d' in
                subst
                  (λ (out : Desk × Ended).
                    HasStatus (leaves (responded status chunks headers took caught)) out.0.rows)
                  (ap (λ (b : Bool). if b then (d', returned) else failure) (sym bad))
                  (subst (λ t. HasStatus t failure.0.rows)
                    (ap
                      (λ (b : Bool).
                        if b then success else if is_final_attempt j then failed else pending)
                      (sym bad))
                    (finalize_failure-status (assertions_failed J query utf8 U c j started) caught
                      d'))
          ]

  -- An attempt leaves the row as a success if the request is answered and all its assertions hold, as
  -- failed if it is the last attempt, and as pending otherwise. It asks the transition detector once
  -- on a success or if the request of the last attempt fails, twice if the last attempt is answered but
  -- an assertion fails, and otherwise not at all.
  pub api_check_processor-records :
      (f : ApiFetched) (d : Desk)
      → HasStatus (leaves f) (api_check_processor J query utf8 U c j started f d).0.rows
        × (length (api_check_processor J query utf8 U c j started f d).0.calls
            ≡ asks f + length d.calls)
  api_check_processor-records f d = (api_check_processor-status f d, api_check_processor-calls f d)
