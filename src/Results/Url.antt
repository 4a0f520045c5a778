-- ===== src/Results/Url.antt =====
-- src/processors/url-monitor.processor.ts and src/services/url-assertion.ts.
use oo_workers.Prelude.{
  ℕ, ◌+◌, Bool, true, false, not, List, ◌++◌, Option, none, some, all, map, ltb, ◌==◌,
  if◌then◌else◌,
}
use oo_workers.Text.{Text, codes}
use oo_workers.Text.Decimal.{show}
use oo_workers.Db.{MonitorType, Exec, http, AssertionResult, success, failed, pending}
use oo_workers.Scheduler.Dispatch.{
  Operator, equals, not_equals, less_than, greater_than, UrlAssertion,
}
use oo_workers.Redaction.{UrlApi, Thrown, error, classify_fetch_error}
use oo_workers.Results.{Desk, AlertCall, ExecutionEvent, call, emit, update_execution}
use oo_workers.Results.Probe.{Job, Ended, returned, threw, is_final_attempt}

-- `compareValues`, on two numbers.
unfoldable pub compare_values : ℕ → ℕ → Operator → Bool
compare_values actual expected equals = actual == expected
compare_values actual expected not_equals = not (actual == expected)
compare_values actual expected greater_than = ltb expected actual
compare_values actual expected less_than = ltb actual expected

abbrev operator_name : Operator → Text
operator_name equals = codes "equals"
operator_name not_equals = codes "not_equals"
operator_name greater_than = codes "greater_than"
operator_name less_than = codes "less_than"

-- `getOperatorText`.
abbrev get_operator_text : Operator → Text
get_operator_text equals = codes "equals"
get_operator_text not_equals = codes "does not equal"
get_operator_text greater_than = codes "is greater than"
get_operator_text less_than = codes "is less than"

abbrev message_of : Bool → Operator → ℕ → ℕ → Text
message_of true op expected actual =
    codes "Status code "
    ++ (show actual ++ (codes " " ++ (get_operator_text op ++ (codes " " ++ show expected))))
message_of false op expected actual =
    codes "Expected status code to "
    ++ (get_operator_text op
        ++ (codes " " ++ (show expected ++ (codes ", but got " ++ show actual))))

unfoldable pub evaluate_url_assertion : ℕ → UrlAssertion → AssertionResult
unfolding compare_values
evaluate_url_assertion actual a =
    let passed = compare_values actual a.status_code a.operator in
    record {
      operator = operator_name a.operator;
      passed = passed;
      message = message_of passed a.operator a.status_code actual;
    }

-- `evaluateUrlMonitorAssertions`.
unfoldable pub evaluate_url_monitor_assertions : List UrlAssertion → ℕ → List AssertionResult
unfolding evaluate_url_assertion
evaluate_url_monitor_assertions assertions actual = map (evaluate_url_assertion actual) assertions

unfoldable pub all_passed : List AssertionResult → Bool
unfolding all
all_passed = all (λ r. r.passed)

-- What the request came to, with the time since the start, which a `catch` reads again.
pub data Fetched : Type 0 where
  responded : (status_code : ℕ) (took_ms : ℕ) (caught_ms : ℕ) → Fetched
  rejected : Thrown → (took_ms : ℕ) → Fetched

pub record UrlJob : Type 0 where
  pub job : Job
  pub url : Text
  pub timeout_ms : ℕ
  pub assertions : List UrlAssertion

abbrev pub url_timeout : ℕ → ℕ
url_timeout ms = if ms == 0 then 30000 else ms

abbrev event : Job → Text → Option ℕ → ℕ → Option Text → ExecutionEvent
event j status code took message = record {
  kind = MonitorType.url;
  monitor_id = j.monitor_id;
  id = j.execution_id;
  status = status;
  latency_ms = some took;
  status_code = code;
  error_message = message;
  region_id = none;
}

abbrev pub asked : Job → Text → Option ℕ → ℕ → Option Text → ℕ → AlertCall
asked j status code took message started = record {
  kind = MonitorType.url;
  monitor_id = j.monitor_id;
  exec_id = j.execution_id;
  status = status;
  status_code = code;
  duration_ms = some took;
  error_message = message;
  region_id = none;
  start_time = some started;
}

abbrev pub answered : Text → ℕ → ℕ → List AssertionResult → ℕ → Exec → Exec
answered status code took results now r = record r {
  status = status;
  latency_ms = some took;
  extra = http (some code) (some results);
  end_time = some now;
}

abbrev pub failed_with : Text → Text → ℕ → ℕ → Exec → Exec
failed_with status message took now r = record r {
  status = status;
  error_message = some message;
  latency_ms = some took;
  end_time = some now;
}

module _ (U : UrlApi) (j : UrlJob) (started : ℕ) where
  -- The `catch`.
  unfoldable pub catch_url : Thrown → ℕ → Desk → Desk × Ended
  unfolding classify_fetch_error update_execution is_final_attempt
  catch_url e took d =
      let message = classify_fetch_error U e j.url (url_timeout j.timeout_ms) in
      let final = is_final_attempt j.job in
      let status = if final then failed else pending in
      let d' = emit (event j.job status none took (some message)) (
        update_execution MonitorType.url j.job.execution_id
          (failed_with status message took (started + took)) d) in
      (
        (if final then call (asked j.job failed none took (some message) started) d' else d'),
        threw message,
      )

  -- The `try`, up to the throw of a failed assertion.
  unfoldable pub try_url : ℕ → ℕ → List AssertionResult → Desk → Desk
  unfolding all_passed update_execution is_final_attempt
  try_url code took results d =
      let passed = all_passed results in
      let final = is_final_attempt j.job in
      let status = if passed then success else if final then failed else pending in
      let d' = emit (event j.job status (some code) took none) (
        update_execution MonitorType.url j.job.execution_id
          (answered status code took results (started + took)) d) in
      if passed
      then call (asked j.job success (some code) took none started) d'
      else if final
      then call (asked j.job failed (some code) took (some (codes "Assertions failed")) started) d'
      else d'

  abbrev pub assertions_failed : Thrown
  assertions_failed = error (codes "Error") (some (codes "Assertions failed")) none

  -- `urlMonitorProcessor`.
  unfoldable pub url_monitor_processor : Fetched → Desk → Desk × Ended
  unfolding catch_url try_url evaluate_url_monitor_assertions all_passed
  url_monitor_processor (rejected e took) d = catch_url e took d
  url_monitor_processor (responded code took caught) d =
      let results = evaluate_url_monitor_assertions j.assertions code in
      let d' = try_url code took results d in
      if all_passed results then (d', returned) else catch_url assertions_failed caught d'
