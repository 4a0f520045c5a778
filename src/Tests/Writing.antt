-- ===== src/Tests/Writing.antt =====
-- Runs of the processors, of the result route and of the redaction of URLs: src/processors,
-- src/services/agent-dispatch.ts, src/utils/fetch-errors.ts.
use oo_workers.Prelude.{
  ℕ, ◌<◌, ◌↔◌, All, ◌≡◌, refl, ◌==◌, ◌||◌, Bool, true, false, not, List, [], ◌∷◌, ◌++◌, map, Option,
  none, some, all, keep, length, arith, Bool-cases, inl, inr, and-true,
}
use oo_workers.Text.{Text, codes, whitespace}
use oo_workers.Db.{MonitorType, Exec, no_extra, pending, success, failed}
use oo_workers.Alert.{outage}
use oo_workers.Transition.{normalize_outcome}
use oo_workers.Transition.Probes.{Lookups, previous_status, monitor_meta}
use oo_workers.Scheduler.Dispatch.{equals}
use oo_workers.Redaction.{
  UrlApi, hide, opens, ends_name, is_delimiter, is_sensitive_param, redact_query_secrets_in_text,
}
use oo_workers.Redaction.Query.{Free, Redacts, query, redact-query}
use oo_workers.Payload.{parse_hex_payload, parse_clean, is_hex, from_hex, buffer, cleaned}
use oo_workers.Payload.Hex.{IsByte, to_hex, parse_hex_payload_iff}
use oo_workers.Results.{Desk}
use oo_workers.Results.Agent.{AgentResult, write_agent_result}
use oo_workers.Results.Ownership.{is_foreign, write_agent_result-foreign}
use oo_workers.Results.Probe.{Job, ProbeResult, run_job, is_final_attempt}
use oo_workers.Results.Attempts.{run_job-calls}
use oo_workers.Results.Url.{
  UrlJob, responded, url_monitor_processor, all_passed, evaluate_url_monitor_assertions,
}
use oo_workers.Results.Twice.{events, url_outage_twice}

Free-all : (p : ℕ → Bool) (s : Text) → all (λ c. not (p c)) s ≡ true → Free p s
unfolding all
Free-all p [] h = tt
Free-all p (c ∷ s) h = elim (Bool-cases (p c)) [
  | inl hit ↦ absurd (ground (arith, hit, h))
  | inr miss ↦ (miss, Free-all p s (and-true _ _ h).1)
]

abbrev site : Text
site = codes "//example.com/ping"

abbrev parameters : List (Text × Text)
parameters = (codes "API-Key", codes "s3cr3t") ∷ (codes "page", codes "2") ∷ []

redact-query_example :
    (qs : List (Text × Text)) × Redacts parameters qs
    × (redact_query_secrets_in_text (site ++ query b'?' parameters) ≡ site ++ query b'?' qs)
redact-query_example = redact-query site parameters (Free-all opens site (unfold all in refl)) (
  (
    Free-all ends_name (codes "API-Key") (unfold all in refl),
    Free-all is_delimiter (codes "s3cr3t") (unfold all in refl),
  ),
  (
    (
      Free-all ends_name (codes "page") (unfold all in refl),
      Free-all is_delimiter (codes "2") (unfold all in refl),
    ),
    tt,
  ),
)

hidden_key :
    map hide parameters ≡ (codes "API-Key", codes "REDACTED") ∷ (codes "page", codes "2") ∷ []
unfolding is_sensitive_param
hidden_key = refl

abbrev exec_of : ℕ → Option ℕ → ℕ → Text → Exec
exec_of id region time status = record {
  kind = MonitorType.url;
  id = id;
  monitor_id = 4;
  region_id = region;
  run_id = none;
  status = status;
  latency_ms = none;
  error_message = none;
  extra = no_extra;
  start_time = time;
  end_time = none;
}

abbrev desk : Desk
desk = record {
  rows =
      exec_of 12 none 500 pending
      ∷ exec_of 11 (some 7) 440 pending
      ∷ exec_of 10 none 380 success
      ∷ [];
  calls = [];
  sent = [];
}

abbrev report : AgentResult
report = record {
  type = MonitorType.url;
  execution_id = 11;
  status = failed;
  latency_ms = some 20;
  error_message = some (codes "boom");
  status_code = some 500;
  assertion_results = none;
  response_status = none;
  response_time_ms = none;
  response_body = none;
  response_headers = none;
  response_bytes = none;
  banner = none;
  days_remaining = none;
  valid_to = none;
  cert_summary = none;
}

write_agent_result-foreign_example :
    keep (is_foreign 7) (write_agent_result 7 report 600 desk).0.rows
    ≡ keep (is_foreign 7) desk.rows
write_agent_result-foreign_example = write_agent_result-foreign 7 report 600 desk

abbrev job : Job
job = record { execution_id = 12; monitor_id = 4; attempts_made = 0; attempts = some 3 }

-- Fails twice, then answers.
abbrev tries : ℕ → ProbeResult
tries i = record {
  ok = not (i == 0 || i == 1);
  latency_ms = some 5;
  error_message = some (codes "refused");
  extra = none;
}

run_job-calls_example : length (run_job MonitorType.db job tries (λ i. i) 3 0 desk).calls ≡ 1
run_job-calls_example = run_job-calls MonitorType.db job tries (λ i. i) desk

abbrev no_urls : UrlApi
no_urls = record {
  Url = Text;
  parse = λ s. none;
  has_userinfo = λ u. false;
  clear_userinfo = λ u. u;
  keys = λ u. [];
  set = λ n v u. u;
  render = λ u. u;
}

abbrev url_job : UrlJob
url_job = record {
  job = record { execution_id = 12; monitor_id = 4; attempts_made = 0; attempts = none };
  url = codes "https://example.com";
  timeout_ms = 0;
  assertions = record { operator = equals; status_code = 200 } ∷ [];
}

abbrev known : Lookups
known = record {
  meta = λ kind id. some (codes "site", codes "x");
  slug = λ id. none;
  throws = false;
}

-- The check of desk row 12 is answered with 503; the last result was a success.
abbrev lone_desk : Desk
lone_desk = record {
  rows = exec_of 12 none 500 pending ∷ exec_of 10 none 380 success ∷ [];
  calls = [];
  sent = [];
}

url_outage_twice_example :
    events known
      (url_monitor_processor no_urls url_job 500 (responded 503 30 31) lone_desk).0.rows
      (url_monitor_processor no_urls url_job 500 (responded 503 30 31) lone_desk).0.calls
    ≡ outage
      ∷ outage
      ∷ events known
          (url_monitor_processor no_urls url_job 500 (responded 503 30 31) lone_desk).0.rows
          []
url_outage_twice_example =
    url_outage_twice no_urls url_job 500 503 30 31 lone_desk known (codes "site", codes "x") success
      (unfold is_final_attempt in refl) (unfold all_passed evaluate_url_monitor_assertions in refl)
      refl (unfold monitor_meta in refl) (unfold previous_status in refl)
      (unfold normalize_outcome in refl)

abbrev two_bytes : List ℕ
two_bytes = 222 ∷ 173 ∷ []

parse_hex_payload_iff_example :
    (parse_hex_payload (some (codes "DE ad")) ≡ buffer two_bytes)
    ↔ (All IsByte two_bytes × (0 < length two_bytes) × (cleaned (codes "DE ad") ≡ to_hex two_bytes))
parse_hex_payload_iff_example = parse_hex_payload_iff (codes "DE ad") two_bytes

payload_read : parse_hex_payload (some (codes "DE ad")) ≡ buffer two_bytes
unfolding parse_hex_payload parse_clean cleaned keep whitespace is_hex all from_hex
payload_read = refl
