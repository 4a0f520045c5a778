-- ===== src/Api/Isolated.antt =====
-- An assertion of src/services/api-assertion.ts that cannot be evaluated fails by itself.
use oo_workers.Prelude.{
  ℕ, ◌≡◌, refl, ap, ◌⊎◌, false, List, [], ◌∷◌, ◌++◌, any, Bool-cases, inl, inr, arith, from_option,
}
use oo_workers.Text.{Text, codes, text_eq}
use oo_workers.Scheduler.Dispatch.{ApiAssertion, Attempt, thrown}
use oo_workers.Probes.{non_empty}
use oo_workers.Api.Paths.{Attempt-cases}
use oo_workers.Api.{
  unknown_operator, number_of, parsed_expected, or_empty, header_shown, found_header, JsApi,
  ResponseData, compare_any, text_test, judge_matches, is_unsafe_path, try_json_path,
  evaluate_json_path, evaluate_number, evaluate_status_code, evaluate_response_time,
  evaluate_text_contains, evaluate_header, evaluate_assertion, evaluate_assertions,
  settle_assertion, Outcome,
}

abbrev pub operators : List Text
operators =
    codes "equals"
    ∷ codes "not_equals"
    ∷ codes "less_than"
    ∷ codes "greater_than"
    ∷ codes "contains"
    ∷ codes "not_contains"
    ∷ codes "exists"
    ∷ []

-- The operator is none that the code knows.
abbrev pub IsUnknown : Text → Type 0
IsUnknown op = any (text_eq op) operators ≡ false

abbrev pub types : List Text
types =
    codes "status_code"
    ∷ codes "response_time"
    ∷ codes "json_path"
    ∷ codes "text_contains"
    ∷ codes "header"
    ∷ []

module _ (J : JsApi) where
  compare_any-unknown :
      (a b : J.Value) (op : Text) → IsUnknown op → (m : Text) × (compare_any J a b op ≡ thrown m)
  unfolding compare_any any
  compare_any-unknown a b op h = (unknown_operator op, ground arith)

  text_test-unknown :
      (op expected body : Text)
      → IsUnknown op
      → (m : Text) × (text_test J op expected body ≡ thrown m)
  unfolding text_test any
  text_test-unknown op expected body h = (
    codes "Operator '" ++ (op ++ codes "' not supported for text_contains assertion"),
    ground arith,
  )

  exists-unknown : (op : Text) → IsUnknown op → text_eq op (codes "exists") ≡ false
  unfolding any
  exists-unknown op h = ground arith

  -- What the loop makes of it has not passed.
  abbrev Fails : ApiAssertion → Attempt (Outcome J) → Type 0
  Fails a x = (settle_assertion J a x).passed ≡ false

  module _ (a : ApiAssertion) (unknown : IsUnknown a.operator) where
    evaluate_number-Fails :
        (type name unit : Text) (default actual : ℕ)
        → Fails a (evaluate_number J type name unit default a actual)
    unfolding evaluate_number settle_assertion
    evaluate_number-Fails type name unit default actual =
        let (m, e) =
          compare_any-unknown (J.number actual) (number_of J a.value default) a.operator unknown in
        rw (evaluate_number, e) refl

    judge_matches-Fails :
        (path : Text) (found : List J.Value) → Fails a (judge_matches J a path found)
    unfolding judge_matches settle_assertion
    judge_matches-Fails path [] = rw (exists-unknown a.operator unknown) refl
    judge_matches-Fails path (v ∷ vs) =
        let (m, e) =
          compare_any-unknown v (parsed_expected J (or_empty a.value)) a.operator unknown in
        rw (exists-unknown a.operator unknown, judge_matches, e) refl

    evaluate_text_contains-Fails : (body : Text) → Fails a (evaluate_text_contains J a body)
    unfolding evaluate_text_contains settle_assertion
    evaluate_text_contains-Fails body =
        let (m, e) = text_test-unknown a.operator (or_empty a.value) body unknown in
        rw (evaluate_text_contains, e) refl

    evaluate_header-Fails : (headers : List (Text × Text)) → Fails a (evaluate_header J a headers)
    unfolding evaluate_header settle_assertion
    evaluate_header-Fails headers =
        let shown = header_shown J (found_header (or_empty a.path) headers) in
        let (m, e) =
          compare_any-unknown (from_option J.undefined shown) (J.text (or_empty a.value)) a.operator
            unknown in
        rw (exists-unknown a.operator unknown, e) refl

module _ (J : JsApi) (query : J.Value → Text → Attempt (List J.Value)) (a : ApiAssertion) where
  try_json_path-Fails :
      IsUnknown a.operator → (path body : Text) → Fails J a (try_json_path J query a path body)
  unfolding try_json_path settle_assertion
  try_json_path-Fails unknown path body = elim (Bool-cases (is_unsafe_path path)) [
    | inl unsafe ↦ rw unsafe refl
    | inr safe ↦ elim (Attempt-cases (J.json_parse body)) [
      | inr (m, bad) ↦ rw (safe, bad) refl
      | inl (json, parsed) ↦ elim (Attempt-cases (query json path)) [
        | inr (m, bad) ↦ rw (safe, parsed, bad) refl
        | inl (found, got) ↦ rw (safe, parsed, got) (judge_matches-Fails J a unknown path found)
      ]
    ]
  ]

  evaluate_json_path-Fails :
      IsUnknown a.operator → (body : Text) → Fails J a (evaluate_json_path J query a body)
  unfolding evaluate_json_path settle_assertion
  evaluate_json_path-Fails unknown body =
      let path = from_option (codes "$") (non_empty a.path) in
      elim (Attempt-cases (try_json_path J query a path body)) [
        | inr (m, bad) ↦ rw (evaluate_json_path, bad) refl
        | inl (o, good) ↦
            rw (evaluate_json_path, good) (rw good at (try_json_path-Fails unknown path body))
      ]

  evaluate_assertion-unknown :
      any (text_eq a.type) types ≡ false
      → (r : ResponseData)
      → evaluate_assertion J query a r ≡ thrown (codes "Unknown assertion type: " ++ a.type)
  unfolding evaluate_assertion any
  evaluate_assertion-unknown odd r = ground arith

  evaluate_assertion-Fails :
      (any (text_eq a.type) types ≡ false) ⊎ IsUnknown a.operator
      → (r : ResponseData) → Fails J a (evaluate_assertion J query a r)
  unfolding evaluate_assertion settle_assertion evaluate_status_code evaluate_response_time
  evaluate_assertion-Fails (inl odd) r = rw (evaluate_assertion-unknown odd r) refl
  evaluate_assertion-Fails (inr unknown) r =
      elim (Bool-cases (text_eq a.type (codes "status_code"))) [
        | inl t ↦ rw t (
            evaluate_number-Fails J a unknown (codes "status_code") (codes "Status code") [] 200
              r.status)
        | inr n1 ↦ elim (Bool-cases (text_eq a.type (codes "response_time"))) [
          | inl t ↦
              rw (n1, t)
                (evaluate_number-Fails J a unknown (codes "response_time") (codes "Response time")
                  (codes "ms") 1000 r.response_time)
          | inr n2 ↦ elim (Bool-cases (text_eq a.type (codes "json_path"))) [
            | inl t ↦ rw (n1, n2, t) (evaluate_json_path-Fails unknown r.body)
            | inr n3 ↦ elim (Bool-cases (text_eq a.type (codes "text_contains"))) [
              | inl t ↦ rw (n1, n2, n3, t) (evaluate_text_contains-Fails J a unknown r.body)
              | inr n4 ↦ elim (Bool-cases (text_eq a.type (codes "header"))) [
                | inl t ↦ rw (n1, n2, n3, n4, t) (evaluate_header-Fails J a unknown r.headers)
                | inr n5 ↦ rw (n1, n2, n3, n4, n5) refl
              ]
            ]
          ]
        ]
      ]

  -- An assertion of a type or with an operator that the code does not know becomes a result that
  -- has not passed; the results of the assertions before and after it are what they are without it.
  pub evaluate_assertions-isolated :
      (before after : List ApiAssertion) (r : ResponseData)
      → (any (text_eq a.type) types ≡ false) ⊎ IsUnknown a.operator
      → (o : Outcome J) × (o.passed ≡ false)
        × (evaluate_assertions J query (before ++ a ∷ after) r
            ≡ evaluate_assertions J query before r ++ o ∷ evaluate_assertions J query after r)
  unfolding evaluate_assertions
  evaluate_assertions-isolated [] after r odd =
      (settle_assertion J a (evaluate_assertion J query a r), evaluate_assertion-Fails odd r, refl)
  evaluate_assertions-isolated (b ∷ before) after r odd =
      let (o, bad, e) = evaluate_assertions-isolated before after r odd in
      (o, bad, ap (λ os. settle_assertion J b (evaluate_assertion J query b r) ∷ os) e)
