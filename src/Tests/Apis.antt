-- ===== src/Tests/Apis.antt =====
-- Runs of the api checks: src/services/api-assertion.ts, src/processors/api-check.processor.ts.
use oo_workers.Prelude.{
  ℕ, ◌||◌, ◌+◌, ◌*◌, ◌-◌, ◌≡◌, refl, Bool, true, false, ◌==◌, List, [], ◌∷◌, ◌++◌, map, length, ltb,
  any, none, some, inr, if◌then◌else◌,
}
use oo_workers.Text.{Text, codes, text_eq}
use oo_workers.Text.Decimal.{show}
use oo_workers.Scheduler.Dispatch.{ApiAssertion, Attempt, done, thrown}
use oo_workers.Redaction.{UrlApi}
use oo_workers.Db.{Exec, MonitorType, no_extra, pending}
use oo_workers.Results.{Desk}
use oo_workers.Results.Probe.{Job}
use oo_workers.Results.Api.{
  ApiCheck, ApiFetched, responded, api_check_processor, build_request_options,
}
use oo_workers.Results.ApiCalls.{asks, leaves, HasStatus, api_check_processor-records}
use oo_workers.Api.{
  JsApi, Outcome, ResponseData, is_unsafe_path, evaluate_assertions, settle_assertion,
  evaluate_assertion, evaluate_json_path, evaluate_status_code, try_json_path, evaluate_number,
  compare_any,
}
use oo_workers.Api.Paths.{evaluate_assertions-safe}
use oo_workers.Api.Isolated.{evaluate_assertions-isolated}

data Js : Type 0 where
  num : ℕ → Js
  str : Text → Js
  nothing : Js

abbrev shown : Js → Text
shown (num n) = show n
shown (str s) = s
shown nothing = codes "undefined"

abbrev first_of : List Js → Js
first_of [] = nothing
first_of (v ∷ vs) = v

abbrev below : Js → Js → Bool
below (num m) (num n) = ltb m n
below _ _ = false

abbrev absent : Js → Bool
absent nothing = true
absent _ = false

abbrev digits_value : ℕ → Text → ℕ
digits_value n [] = n
digits_value n (c ∷ s) = digits_value (n * 10 + (c - b'0')) s

-- Bodies are JSON exactly if they begin with a brace.
abbrev parse_body : Text → Attempt Js
parse_body [] = thrown (codes "Unexpected end of JSON input")
parse_body (c ∷ s) = if c == b'{' then done (str (c ∷ s)) else thrown (codes "Unexpected token")

abbrev js : JsApi
js = record {
  Value = Js;
  number = num;
  text = str;
  array = first_of;
  undefined = nothing;
  parse_int = λ s. num (digits_value 0 s);
  loose_eq = λ a b. text_eq (shown a) (shown b);
  less = below;
  to_text = shown;
  is_nullish = absent;
  json_text = shown;
  json_parse = parse_body;
}

abbrev every_path : Js → Text → Attempt (List Js)
every_path v path = done (v ∷ [])

-- One that runs the scripts of a path.
abbrev scripted : Js → Text → Attempt (List Js)
scripted v path = if is_unsafe_path path then thrown (codes "process.exit") else every_path v path

abbrev assertion : Text → Text → Text → Text → ApiAssertion
assertion type operator path value = record {
  type = type;
  operator = operator;
  path = some path;
  value = some value;
}

abbrev script : ApiAssertion
script = assertion (codes "json_path") (codes "exists") (codes "$[?(@.a)]") []

abbrev created : ApiAssertion
created = assertion (codes "status_code") (codes "equals") [] (codes "201")

abbrev odd : ApiAssertion
odd = assertion (codes "status_code") (codes "matches") [] (codes "201")

abbrev answer : ResponseData
answer = record {
  status = 201;
  response_time = 12;
  body = codes "{}";
  headers = (codes "content-type", codes "application/json") ∷ [];
}

agree :
    (v : Js) (path : Text)
    → any (λ c. c == b'(' || c == b')') path ≡ false
    → every_path v path ≡ scripted v path
unfolding is_unsafe_path any
agree v path safe = rw safe refl

evaluate_assertions-safe_example :
    evaluate_assertions js every_path (script ∷ created ∷ []) answer
    ≡ evaluate_assertions js scripted (script ∷ created ∷ []) answer
evaluate_assertions-safe_example =
    evaluate_assertions-safe js every_path scripted agree (script ∷ created ∷ []) answer

passed_of : List ApiAssertion → List Bool
unfolding evaluate_assertions
passed_of assertions =
    map (λ (o : Outcome js). o.passed) (evaluate_assertions js scripted assertions answer)

script_fails : passed_of (script ∷ created ∷ odd ∷ []) ≡ false ∷ true ∷ false ∷ []
unfolding passed_of evaluate_assertions settle_assertion evaluate_assertion evaluate_json_path
    evaluate_status_code try_json_path evaluate_number compare_any show
script_fails = refl

evaluate_assertions-isolated_example :
    (o : Outcome js) × (o.passed ≡ false)
    × (evaluate_assertions js every_path ((created ∷ []) ++ odd ∷ (script ∷ [])) answer
        ≡ evaluate_assertions js every_path (created ∷ []) answer
          ++ o ∷ evaluate_assertions js every_path (script ∷ []) answer)
evaluate_assertions-isolated_example =
    evaluate_assertions-isolated js every_path odd (created ∷ []) (script ∷ []) answer
      (inr (unfold any in refl))

abbrev urls : UrlApi
urls = record {
  Url = Text;
  parse = λ s. none;
  has_userinfo = λ u. false;
  clear_userinfo = λ u. u;
  keys = λ u. [];
  set = λ n v u. u;
  render = λ u. u;
}

abbrev check : ApiCheck
check = record {
  id = 4;
  url = codes "https://example.com/orders";
  method = some (codes "QUERY");
  headers = [];
  body = some (codes "{}");
  timeout_ms = 0;
  assertions = created ∷ odd ∷ [];
}

abbrev last_attempt : Job
last_attempt = record { execution_id = 12; monitor_id = 4; attempts_made = 0; attempts = none }

abbrev waiting : Exec
waiting = record {
  kind = MonitorType.api;
  id = 12;
  monitor_id = 4;
  region_id = none;
  run_id = none;
  status = pending;
  latency_ms = none;
  error_message = none;
  extra = no_extra;
  start_time = 1000;
  end_time = none;
}

abbrev desk : Desk
desk = record { rows = waiting ∷ []; calls = []; sent = [] }

-- An answer in two chunks, and then an assertion that fails.
abbrev answered : ApiFetched
answered = responded 201 (codes "{" ∷ codes "}" ∷ []) [] 30 31

api_check_processor-records_example :
    HasStatus js every_path
      (λ bytes. bytes)
      urls
      check
      last_attempt
      1000
      (leaves js every_path (λ bytes. bytes) urls check last_attempt 1000 answered)
      (api_check_processor js every_path
        (λ bytes. bytes)
        urls
        check
        last_attempt
        1000
        answered
        desk).0.rows
    × (length
          (api_check_processor js every_path
            (λ bytes. bytes)
            urls
            check
            last_attempt
            1000
            answered
            desk).0.calls
        ≡ asks js every_path (λ bytes. bytes) urls check last_attempt 1000 answered
          + length desk.calls)
api_check_processor-records_example =
    api_check_processor-records js every_path (λ bytes. bytes) urls check last_attempt 1000 answered
      desk

query_carries_body : (build_request_options check).body ≡ some (codes "{}")
unfolding build_request_options
query_carries_body = refl
