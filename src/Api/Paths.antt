-- ===== src/Api/Paths.antt =====
-- Which paths of src/services/api-assertion.ts reach JSONPath.
use oo_workers.Prelude.{
  ◌≡◌, refl, ◌||◌, ◌==◌, any, false, List, [], ◌∷◌, Bool-cases, ◌⊎◌, inl, inr, from_option,
}
use oo_workers.Text.{Text, codes}
use oo_workers.Scheduler.Dispatch.{ApiAssertion, Attempt, done, thrown}
use oo_workers.Probes.{non_empty}
use oo_workers.Api.{
  JsApi, ResponseData, is_unsafe_path, try_json_path, evaluate_json_path, evaluate_assertion,
  evaluate_assertions,
}

pub Attempt-cases {ℓ} :
    {A : Type ℓ} (x : Attempt A) → ((a : A) × (x ≡ done a)) ⊎ ((m : Text) × (x ≡ thrown m))
Attempt-cases (done a) = inl (a, refl)
Attempt-cases (thrown m) = inr (m, refl)

module _ (J : JsApi) (query other : J.Value → Text → Attempt (List J.Value))
    (agree : (v : J.Value) (path : Text)
      → any (λ c. c == b'(' || c == b')') path ≡ false
      → query v path ≡ other v path) where
  try_json_path-safe :
      (a : ApiAssertion) (path body : Text)
      → try_json_path J query a path body ≡ try_json_path J other a path body
  unfolding try_json_path is_unsafe_path any
  try_json_path-safe a path body = elim (Bool-cases (is_unsafe_path path)) [
    | inl unsafe ↦ rw unsafe refl
    | inr safe ↦ elim (Attempt-cases (J.json_parse body)) [
      | inl (json, parsed) ↦ rw (safe, parsed, agree json path safe) refl
      | inr (m, bad) ↦ rw (safe, bad) refl
    ]
  ]

  evaluate_json_path-safe :
      (a : ApiAssertion) (body : Text)
      → evaluate_json_path J query a body ≡ evaluate_json_path J other a body
  unfolding evaluate_json_path
  evaluate_json_path-safe a body =
      rw
        (evaluate_json_path, try_json_path-safe a (from_option (codes "$") (non_empty a.path)) body)
        refl

  evaluate_assertion-safe :
      (a : ApiAssertion) (r : ResponseData)
      → evaluate_assertion J query a r ≡ evaluate_assertion J other a r
  unfolding evaluate_assertion
  evaluate_assertion-safe a r = rw (evaluate_assertion, evaluate_json_path-safe a r.body) refl

  -- A path with a parenthesis, which JSONPath would run as a script, never reaches JSONPath: two
  -- implementations that agree on all paths without parentheses give the same results, whatever the
  -- assertions and the response are.
  pub evaluate_assertions-safe :
      (assertions : List ApiAssertion) (r : ResponseData)
      → evaluate_assertions J query assertions r ≡ evaluate_assertions J other assertions r
  unfolding evaluate_assertions
  evaluate_assertions-safe [] r = refl
  evaluate_assertions-safe (a ∷ assertions) r =
      rw (evaluate_assertion-safe a r, evaluate_assertions-safe assertions r) refl
