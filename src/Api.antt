-- ===== src/Api.antt =====
-- The assertions of api checks: src/services/api-assertion.ts. The values that `JSON.parse` and
-- JSONPath give, and the coercions `==`, `Number` and `String` on them, are a record, as is what
-- JSONPath finds.
pub mod Isolated
pub mod Paths
use oo_workers.Prelude.{
  ℕ, Bool, true, false, not, ◌||◌, List, [], ◌∷◌, ◌++◌, map, Option, none, some, ◌==◌, any, length,
  take, ltb, from_option, if◌then◌else◌,
}
use oo_workers.Text.{Text, codes, text_eq, includes, to_lower}
use oo_workers.Text.Decimal.{show}
use oo_workers.Scheduler.Dispatch.{ApiAssertion, Attempt, done, thrown}
use oo_workers.Probes.{non_empty, is_some}

-- The values of JavaScript, as far as an assertion compares them.
pub record JsApi : Type 1 where
  pub Value : Type 0
  pub number : ℕ → Value
  pub text : Text → Value
  pub array : List Value → Value
  pub undefined : Value
  pub parse_int : Text → Value
  -- `==`, `Number(a) < Number(b)` and `String(a)`.
  pub loose_eq : Value → Value → Bool
  pub less : Value → Value → Bool
  pub to_text : Value → Text
  pub is_nullish : Value → Bool
  pub json_text : Value → Text
  pub json_parse : Text → Attempt Value

pub record ResponseData : Type 0 where
  pub status : ℕ
  pub response_time : ℕ
  pub body : Text
  pub headers : List (Text × Text)

abbrev pub or_empty : Option Text → Text
or_empty t = from_option [] t

-- `new Error(...)` in the branch of an operator that is not known.
abbrev pub unknown_operator : Text → Text
unknown_operator op = codes "Unknown operator: " ++ op

unfoldable pub get_operator_text : Text → Text
get_operator_text op =
    if text_eq op (codes "equals")
    then codes "equals"
    else if text_eq op (codes "not_equals")
    then codes "does not equal"
    else if text_eq op (codes "greater_than")
    then codes "is greater than"
    else if text_eq op (codes "less_than")
    then codes "is less than"
    else if text_eq op (codes "contains")
    then codes "contains"
    else if text_eq op (codes "not_contains")
    then codes "does not contain"
    else if text_eq op (codes "exists")
    then codes "exists"
    else op

-- `responseBody.toLowerCase().includes(expected.toLowerCase())`.
abbrev pub includes_ci : Text → Text → Bool
unfolding includes
includes_ci expected s = includes (to_lower expected) (to_lower s)

-- `headers[name]`.
unfoldable pub header_value : Text → List (Text × Text) → Option Text
header_value name [] = none
header_value name ((key, value) ∷ headers) =
    if text_eq key name then some value else header_value name headers

abbrev pub or_value : Option Text → Option Text → Option Text
or_value none b = b
or_value (some a) b = some a

-- `headers[name] || headers[name.toLowerCase()]`: an empty value gives way to the second, which may
-- be empty itself.
abbrev pub found_header : Text → List (Text × Text) → Option Text
unfolding header_value
found_header name headers =
    or_value (non_empty (header_value name headers)) (header_value (to_lower name) headers)

-- `/[()]/`.
unfoldable pub is_unsafe_path : Text → Bool
unfolding any
is_unsafe_path path = any (λ c. c == b'(' || c == b')') path

-- What one assertion came to; an expected or an actual value may be null.
pub record AssertionOutcome (V : Type 0) : Type 0 where
  pub type : Text
  pub passed : Bool
  pub message : Text
  pub expected : Option V
  pub actual : Option V

module _ (J : JsApi) where
  abbrev pub Outcome : Type 0
  Outcome = AssertionOutcome J.Value

  unfoldable pub compare_any : J.Value → J.Value → Text → Attempt Bool
  unfolding includes
  compare_any actual expected op =
      if text_eq op (codes "equals")
      then done (J.loose_eq actual expected)
      else if text_eq op (codes "not_equals")
      then done (not (J.loose_eq actual expected))
      else if text_eq op (codes "greater_than")
      then done (J.less expected actual)
      else if text_eq op (codes "less_than")
      then done (J.less actual expected)
      else if text_eq op (codes "contains")
      then done (includes_ci (J.to_text expected) (J.to_text actual))
      else if text_eq op (codes "not_contains")
      then done (not (includes_ci (J.to_text expected) (J.to_text actual)))
      else if text_eq op (codes "exists")
      then done (not (J.is_nullish actual))
      else thrown (unknown_operator op)

  abbrev pub then_do {ℓ} : {A : Type ℓ} → Attempt A → (A → Attempt Outcome) → Attempt Outcome
  then_do (done a) k = k a
  then_do (thrown m) k = thrown m

  abbrev pub outcome : Text → Bool → Text → Option J.Value → Option J.Value → Outcome
  outcome type passed message expected actual = record {
    type = type;
    passed = passed;
    message = message;
    expected = expected;
    actual = actual;
  }

  abbrev pub number_of : Option Text → ℕ → J.Value
  number_of value default = elim (non_empty value) [
    | none ↦ J.number default
    | some v ↦ J.parse_int v
  ]

  -- `evaluateStatusCode` and `evaluateResponseTime`, which differ in words and in the default.
  unfoldable pub evaluate_number : Text → Text → Text → ℕ → ApiAssertion → ℕ → Attempt Outcome
  unfolding get_operator_text
  evaluate_number type name unit default a actual =
      let expected = number_of a.value default in
      then_do (compare_any (J.number actual) expected a.operator) (λ passed. done (
        outcome type passed
          (if passed
            then name
              ++ (codes " "
                  ++ (show actual
                      ++ (unit
                          ++ (codes " "
                              ++ (get_operator_text a.operator
                                  ++ (codes " " ++ (J.to_text expected ++ unit)))))))
            else codes "Expected "
              ++ (to_lower name
                  ++ (codes " to "
                      ++ (get_operator_text a.operator
                          ++ (codes " "
                              ++ (J.to_text expected
                                  ++ (unit ++ (codes ", but got " ++ (show actual ++ unit)))))))))
          (some expected) (some (J.number actual))))

  unfoldable pub evaluate_status_code : ApiAssertion → ℕ → Attempt Outcome
  evaluate_status_code a = evaluate_number (codes "status_code") (codes "Status code") [] 200 a

  unfoldable pub evaluate_response_time : ApiAssertion → ℕ → Attempt Outcome
  evaluate_response_time a =
      evaluate_number (codes "response_time") (codes "Response time") (codes "ms") 1000 a

  abbrev pub json_path : Text
  json_path = codes "json_path"

  abbrev pub quoted : Text → Text
  quoted path = codes "JSONPath '" ++ (path ++ codes "'")

  abbrev pub value_text : ApiAssertion → Option J.Value
  value_text a = elim a.value [ none ↦ none | some v ↦ some (J.text v) ]

  -- The expected text as JSON, where it is JSON.
  abbrev pub parsed_expected : Text → J.Value
  parsed_expected s = elim (J.json_parse s) [ done v ↦ v | thrown m ↦ J.text s ]

  unfoldable pub judge_matches : ApiAssertion → Text → List J.Value → Attempt Outcome
  unfolding get_operator_text
  judge_matches a path found =
      if text_eq a.operator (codes "exists")
      then done (elim found [
        | [] ↦
            outcome json_path false (quoted path ++ codes " does not exist in response")
              (some (J.text (codes "exists"))) none
        | v ∷ vs ↦
            outcome json_path true (quoted path ++ codes " exists in response")
              (some (J.text (codes "exists"))) (some (J.array (v ∷ vs)))
      ])
      else elim found [
        | [] ↦ done (
            outcome json_path false (quoted path ++ codes " not found in response") (value_text a)
              none)
        | v ∷ vs ↦
            then_do (compare_any v (parsed_expected (or_empty a.value)) a.operator) (λ passed.
              done (
                outcome json_path passed
                  (if passed
                    then quoted path
                      ++ (codes " value "
                          ++ (get_operator_text a.operator ++ codes " expected value"))
                    else codes "Expected "
                      ++ (quoted path
                          ++ (codes " to "
                              ++ (get_operator_text a.operator
                                  ++ (codes " '"
                                      ++ (or_empty a.value
                                          ++ (codes "', but got '"
                                              ++ (J.json_text v ++ codes "'"))))))))
                  (some (parsed_expected (or_empty a.value))) (some v)))
      ]

  -- The `switch` of `evaluateTextContains`.
  unfoldable pub text_test : Text → Text → Text → Attempt Bool
  text_test op expected body =
      if text_eq op (codes "contains")
      then done (includes_ci expected body)
      else if text_eq op (codes "not_contains")
      then done (not (includes_ci expected body))
      else if text_eq op (codes "equals")
      then done (text_eq body expected)
      else if text_eq op (codes "not_equals")
      then done (not (text_eq body expected))
      else thrown
          (codes "Operator '" ++ (op ++ codes "' not supported for text_contains assertion"))

  unfoldable pub evaluate_text_contains : ApiAssertion → Text → Attempt Outcome
  unfolding get_operator_text
  evaluate_text_contains a body =
      let expected = or_empty a.value in
      then_do (text_test a.operator expected body) (λ passed. done (
        outcome (codes "text_contains") passed
          ((if passed then codes "Response body " else codes "Expected response body to ")
            ++ (get_operator_text a.operator ++ (codes " '" ++ (expected ++ codes "'"))))
          (some (J.text expected)) (some (J.text (take 200 body)))))

  abbrev pub header_shown : Option Text → Option J.Value
  header_shown found = elim found [ none ↦ none | some v ↦ some (J.text v) ]

  unfoldable pub evaluate_header : ApiAssertion → List (Text × Text) → Attempt Outcome
  unfolding header_value get_operator_text
  evaluate_header a headers =
      let name = or_empty a.path in
      let found = found_header name headers in
      let there = non_empty found in
      let shown = header_shown there in
      if text_eq a.operator (codes "exists")
      then done (
          outcome (codes "header") (is_some there)
            (codes "Header '"
              ++ (name ++ (if is_some there then codes "' exists" else codes "' does not exist")))
            (some (J.text (codes "exists"))) shown)
      else then_do
          (compare_any (from_option J.undefined (header_shown found)) (J.text (or_empty a.value))
            a.operator)
          (λ passed. done (
            outcome (codes "header") passed
              (if passed
                then codes "Header '"
                  ++ (name
                      ++ (codes "' " ++ (get_operator_text a.operator ++ codes " expected value")))
                else codes "Expected header '"
                  ++ (name
                      ++ (codes "' to "
                          ++ (get_operator_text a.operator
                              ++ (codes " '"
                                  ++ (or_empty a.value
                                      ++ (codes "', but got '"
                                          ++ (from_option (codes "undefined") there
                                              ++ codes "'"))))))))
              (some (J.text (or_empty a.value))) shown))

  -- What the loop pushes for one assertion.
  unfoldable pub settle_assertion : ApiAssertion → Attempt Outcome → Outcome
  settle_assertion a (done r) = r
  settle_assertion a (thrown m) =
      outcome a.type false (codes "Assertion evaluation failed: " ++ m) (value_text a) none

module _ (J : JsApi) (query : J.Value → Text → Attempt (List J.Value)) where
  -- The `try` of `evaluateJsonPath`.
  unfoldable pub try_json_path : ApiAssertion → Text → Text → Attempt (Outcome J)
  unfolding is_unsafe_path judge_matches
  try_json_path a path body =
      if is_unsafe_path path
      then done (
          outcome J (json_path J) false
            (quoted J path
              ++ codes " is not allowed: script/filter expressions are unsafe and disallowed")
            (value_text J a) none)
      else elim (J.json_parse body) [
        | thrown m ↦ thrown m
        | done json ↦ elim (query json path) [
          | thrown m ↦ thrown m
          | done found ↦ judge_matches J a path found
        ]
      ]

  unfoldable pub evaluate_json_path : ApiAssertion → Text → Attempt (Outcome J)
  evaluate_json_path a body =
      elim (try_json_path a (from_option (codes "$") (non_empty a.path)) body) [
        | done r ↦ done r
        | thrown m ↦ done (
            outcome J (json_path J) false (codes "Failed to parse JSON response: " ++ m)
              (value_text J a) none)
      ]

  unfoldable pub evaluate_assertion : ApiAssertion → ResponseData → Attempt (Outcome J)
  evaluate_assertion a r =
      if text_eq a.type (codes "status_code")
      then evaluate_status_code J a r.status
      else if text_eq a.type (codes "response_time")
      then evaluate_response_time J a r.response_time
      else if text_eq a.type (codes "json_path")
      then evaluate_json_path a r.body
      else if text_eq a.type (codes "text_contains")
      then evaluate_text_contains J a r.body
      else if text_eq a.type (codes "header")
      then evaluate_header J a r.headers
      else thrown (codes "Unknown assertion type: " ++ a.type)

  unfoldable pub evaluate_assertions : List ApiAssertion → ResponseData → List (Outcome J)
  evaluate_assertions [] r = []
  evaluate_assertions (a ∷ assertions) r =
      settle_assertion J a (evaluate_assertion a r) ∷ evaluate_assertions assertions r
