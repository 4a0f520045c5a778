-- ===== src/Results/Api.antt =====
-- src/processors/api-check.processor.ts. The decoder of UTF-8 is a parameter; what the request came
-- to is given, its body as the chunks of the stream.
use oo_workers.Prelude.{
  ℕ, ◌+◌, Bool, false, List, [], ◌∷◌, ◌++◌, Option, none, some, all, any, map, take, length, ltb,
  ◌==◌, if◌then◌else◌,
}
use oo_workers.Text.{Text, codes, text_eq}
use oo_workers.Db.{MonitorType, Exec, response, AssertionResult, success, failed, pending}
use oo_workers.Scheduler.Dispatch.{ApiAssertion, Attempt}
use oo_workers.Redaction.{UrlApi, Thrown, error, classify_fetch_error}
use oo_workers.Probes.{non_empty}
use oo_workers.Api.{JsApi, Outcome, evaluate_assertions, header_value}
use oo_workers.Results.{Desk, AlertCall, ExecutionEvent, call, emit, update_execution}
use oo_workers.Results.Probe.{Job, Ended, returned, threw, is_final_attempt}

pub record ApiCheck : Type 0 where
  pub id : ℕ
  pub url : Text
  pub method : Option Text
  pub headers : List (Text × Text)
  pub body : Option Text
  pub timeout_ms : ℕ
  pub assertions : List ApiAssertion

pub record RequestOptions : Type 0 where
  pub method : Text
  pub headers : List (Text × Text)
  pub body : Option Text

abbrev pub master_body_methods : List Text
master_body_methods = codes "POST" ∷ codes "PUT" ∷ codes "PATCH" ∷ codes "QUERY" ∷ []

abbrev pub content_type : Text
content_type = codes "Content-Type"

-- `headers[name] = value`.
unfoldable pub set_header : Text → Text → List (Text × Text) → List (Text × Text)
set_header name value [] = (name, value) ∷ []
set_header name value ((key, old) ∷ headers) =
    if text_eq key name then (key, value) ∷ headers else (key, old) ∷ set_header name value headers

abbrev pub or_get : Option Text → Text
or_get none = codes "GET"
or_get (some m) = m

abbrev pub takes_body : List Text → Option Text → Bool
unfolding any
takes_body methods none = false
takes_body methods (some m) = any (text_eq m) methods

-- The options of a request whose method may carry a body if it is one of `methods`.
unfoldable pub request_with : List Text → ApiCheck → RequestOptions
unfolding set_header header_value any
request_with methods c =
    let plain : RequestOptions = record {
      method = or_get (non_empty c.method);
      headers = c.headers;
      body = none;
    } in
    elim (non_empty c.body) [
      | none ↦ plain
      | some body ↦
          if takes_body methods c.method
          then record plain {
            headers = elim (non_empty (header_value content_type c.headers)) [
              | none ↦ set_header content_type (codes "application/json") c.headers
              | some _ ↦ c.headers
            ];
            body = some body;
          }
          else plain
    ]

unfoldable pub build_request_options : ApiCheck → RequestOptions
unfolding request_with
build_request_options = request_with master_body_methods

-- `readBodyCapped`: no chunk is read once the total has reached the maximum.
unfoldable pub read_capped : ℕ → ℕ → List (List ℕ) → List ℕ
read_capped max_bytes total [] = []
read_capped max_bytes total (chunk ∷ chunks) =
    let rest = read_capped max_bytes (total + length chunk) chunks in
    if ltb total max_bytes then chunk ++ rest else []

abbrev pub response_body_max_bytes : ℕ
response_body_max_bytes = 2000000

abbrev pub response_body_truncate_chars : ℕ
response_body_truncate_chars = 5000

-- The column keeps the type of an api assertion where it keeps the operator of a url assertion.
abbrev pub stored : (J : JsApi) → List (Outcome J) → List AssertionResult
stored J =
    map (λ (o : Outcome J). record { operator = o.type; passed = o.passed; message = o.message })

-- What the request came to, with the time since the start, which the `catch` reads again.
pub data ApiFetched : Type 0 where
  responded :
      (status : ℕ) (chunks : List (List ℕ)) (headers : List (Text × Text)) (took_ms caught_ms : ℕ)
      → ApiFetched
  rejected : Thrown → (took_ms : ℕ) → ApiFetched

abbrev pub api_timeout : ℕ → ℕ
api_timeout ms = if ms == 0 then 5000 else ms

abbrev event : ApiCheck → Job → Text → Option ℕ → ℕ → Option Text → ExecutionEvent
event c j status code took message = record {
  kind = MonitorType.api;
  monitor_id = c.id;
  id = j.execution_id;
  status = status;
  latency_ms = some took;
  status_code = code;
  error_message = message;
  region_id = none;
}

abbrev pub assertions_message : Text
assertions_message = codes "One or more assertions failed"

unfoldable pub all_assertions_passed : (J : JsApi) → List (Outcome J) → Bool
unfolding all
all_assertions_passed J = all (λ (o : Outcome J). o.passed)

module _ (J : JsApi) (query : J.Value → Text → Attempt (List J.Value)) (utf8 : List ℕ → Text)
    (U : UrlApi) (c : ApiCheck) (j : Job) (started : ℕ) where
  abbrev answered :
      Text → ℕ → Text → List (Text × Text) → List (Outcome J) → ℕ → Option Text → ℕ → Exec → Exec
  answered status code body headers results took message now r = record r {
    status = status;
    latency_ms = some took;
    extra =
        response (some code) (some (take response_body_truncate_chars body)) (some headers)
          (some (stored J results));
    error_message = message;
    end_time = some now;
  }

  abbrev status_of : Bool → Text
  unfolding is_final_attempt
  status_of passed = if passed then success else if is_final_attempt j then failed else pending

  -- `finalizeSuccess`, up to its throw.
  unfoldable pub finalize_success :
      ℕ → Text → List (Text × Text) → List (Outcome J) → ℕ → Desk → Desk
  unfolding all_assertions_passed update_execution is_final_attempt
  finalize_success code body headers results took d =
      let passed = all_assertions_passed J results in
      let message = if passed then none else some assertions_message in
      let d' = emit (event c j (status_of passed) (some code) took message) (
        update_execution MonitorType.api j.execution_id
          (answered (status_of passed) code body headers results took message (started + took))
          d) in
      let asked : AlertCall = record {
        kind = MonitorType.api;
        monitor_id = c.id;
        exec_id = j.execution_id;
        status = status_of passed;
        status_code = some code;
        duration_ms = some took;
        error_message = message;
        region_id = none;
        start_time = some started;
      } in
      if passed then call asked d' else if is_final_attempt j then call asked d' else d'

  abbrev missed : Text → Text → ℕ → ℕ → Exec → Exec
  missed status message took now r = record r {
    status = status;
    latency_ms = some took;
    error_message = some message;
    end_time = some now;
  }

  -- `finalizeFailure`, which always throws.
  unfoldable pub finalize_failure : Thrown → ℕ → Desk → Desk × Ended
  unfolding classify_fetch_error update_execution is_final_attempt
  finalize_failure e took d =
      let message = classify_fetch_error U e c.url (api_timeout c.timeout_ms) in
      let final = is_final_attempt j in
      let status = if final then failed else pending in
      let d' = emit (event c j status none took (some message)) (
        update_execution MonitorType.api j.execution_id
          (missed status message took (started + took)) d) in
      let asked : AlertCall = record {
        kind = MonitorType.api;
        monitor_id = c.id;
        exec_id = j.execution_id;
        status = failed;
        status_code = none;
        duration_ms = none;
        error_message = some message;
        region_id = none;
        start_time = none;
      } in
      ((if final then call asked d' else d'), threw message)

  abbrev pub assertions_failed : Thrown
  assertions_failed = error (codes "Error") (some assertions_message) none

  abbrev pub results_of : ℕ → List (List ℕ) → List (Text × Text) → ℕ → List (Outcome J)
  unfolding read_capped evaluate_assertions
  results_of status chunks headers took = evaluate_assertions J query c.assertions (record {
    status = status;
    response_time = took;
    body = utf8 (read_capped response_body_max_bytes 0 chunks);
    headers = headers;
  })

  -- `apiCheckProcessor`: the throw of `finalizeSuccess` ends in the `catch`, which finalizes again.
  unfoldable pub api_check_processor : ApiFetched → Desk → Desk × Ended
  unfolding finalize_failure finalize_success all_assertions_passed evaluate_assertions read_capped
  api_check_processor (rejected e took) d = finalize_failure e took d
  api_check_processor (responded status chunks headers took caught) d =
      let results = results_of status chunks headers took in
      let body = utf8 (read_capped response_body_max_bytes 0 chunks) in
      let d' = finalize_success status body headers results took d in
      if all_assertions_passed J results
      then (d', returned)
      else finalize_failure assertions_failed caught d'
