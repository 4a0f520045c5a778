-- ===== src/Qa/Services.antt =====
-- What the processor of browser checks (src/processors/qa-project.processor.ts) is given: the services
-- around it, the files of a run, and the artifacts of a test.
use oo_workers.Prelude.{
  ℕ, suc, Bool, true, false, ◌&&◌, ◌||◌, List, [], ◌∷◌, ◌++◌, map, Option, none, some, ltb, leb,
  length, keep, if◌then◌else◌,
}
use oo_workers.Text.{Text, codes, text_eq, lower}
use oo_workers.Text.Decimal.{show}
use oo_workers.Db.{success, failed}
use oo_workers.Scheduler.Dispatch.{QaTest, Attempt}
use oo_workers.Results.{ExecutionEvent}
use oo_workers.Qa.{QaState}

pub record PlaywrightArtifact : Type 0 where
  pub name : Text
  pub path : Text
  pub content_type : Text

pub record PlaywrightResult : Type 0 where
  pub success : Bool
  pub duration_ms : ℕ
  pub error : Option Text
  pub logs : List Text
  pub artifacts : List PlaywrightArtifact

-- What Playwright makes of a script, and the messages of the errors that the other calls throw: by the
-- id of the test or the execution, or by the key of an artifact.
pub record Services : Type 0 where
  pub files_throw : Option Text
  pub create_run_throws : Option Text
  pub create_throws : ℕ → Option Text
  pub play : Text → Attempt PlaywrightResult
  pub storage_configured : Bool
  pub artifact_key : ℕ → Text → Text
  pub artifact_throws : Text → Bool
  pub update_throws : ℕ → Option Text
  pub second_update_throws : ℕ → Option Text
  pub claim_throws : Option Text
  pub touch_throws : Option Text
  pub close_out_throws : Bool
  -- The clock, and how long a test took that threw.
  pub now : ℕ
  pub failed_after_ms : ℕ → ℕ

pub record Bench : Type 0 where
  pub qa : QaState
  pub emitted : List ExecutionEvent
  pub touched : Bool

abbrev pub is_alphanumeric : ℕ → Bool
is_alphanumeric c =
    (leb b'0' c && leb c b'9') || ((leb b'a' c && leb c b'z') || (leb b'A' c && leb c b'Z'))

-- `test.name.replaceAll(/[^a-z0-9]/gi, '_').toLowerCase()`.
unfoldable pub safe_test_name : Text → Text
safe_test_name = map (λ c. if is_alphanumeric c then lower c else b'_')

-- The directory of the run: what each file holds that has been written.
abbrev pub Files : Type 0
Files = List (Text × Text)

unfoldable pub write_scripts : List QaTest → Files → Files
unfolding safe_test_name
write_scripts [] files = files
write_scripts (t ∷ tests) files = write_scripts tests ((safe_test_name t.name, t.script) ∷ files)

unfoldable pub read_file : Text → Files → Text
read_file name [] = []
read_file name ((key, contents) ∷ files) =
    if text_eq key name then contents else read_file name files

pub data TestStatus : Type 0 where
  test_passed test_failed test_error : TestStatus

abbrev pub status_name : TestStatus → Text
status_name test_passed = codes "passed"
status_name test_failed = codes "failed"
status_name test_error = codes "error"

abbrev pub verdict_on : PlaywrightResult → TestStatus
verdict_on r = if r.success then test_passed else test_failed

abbrev pub is_failure : TestStatus → Bool
is_failure test_failed = true
is_failure _ = false

abbrev pub is_error : TestStatus → Bool
is_error test_error = true
is_error _ = false

unfoldable pub aggregate_outcome : List TestStatus → Text
unfolding keep
aggregate_outcome results =
    if ltb 0 (length (keep is_error results)) || ltb 0 (length (keep is_failure results))
    then failed
    else success

-- A test whose row could not be created, and one that runs under its execution.
pub data Started : Type 0 where
  refused : Started
  running : (test : QaTest) (execution_id : ℕ) → Started

pub record Uploaded : Type 0 where
  pub trace_url : Option Text
  pub screenshot_urls : List Text

module _ (S : Services) where
  -- `uploadArtifacts`, for the number of screenshots before these.
  unfoldable pub upload_artifacts : ℕ → ℕ → List PlaywrightArtifact → Uploaded → Uploaded
  upload_artifacts exec_id index [] u = u
  upload_artifacts exec_id index (a ∷ rest) u =
      let trace_key = S.artifact_key exec_id (codes "trace.zip") in
      let key =
        S.artifact_key exec_id (codes "screenshot-" ++ (show (suc index) ++ codes ".png")) in
      let after_trace =
        upload_artifacts exec_id index rest
          (if S.artifact_throws trace_key then u else record u { trace_url = some trace_key }) in
      let after_screenshot = upload_artifacts exec_id (suc index) rest (
        if S.artifact_throws key
        then u
        else record u { screenshot_urls = u.screenshot_urls ++ key ∷ [] }) in
      let after_other = upload_artifacts exec_id index rest u in
      if text_eq a.name (codes "trace")
      then after_trace
      else if text_eq a.name (codes "screenshot")
      then after_screenshot
      else after_other

  abbrev pub nothing_uploaded : Uploaded
  nothing_uploaded = record { trace_url = none; screenshot_urls = [] }

  unfoldable pub stored_artifacts : ℕ → PlaywrightResult → Uploaded
  unfolding upload_artifacts
  stored_artifacts exec_id r =
      if r.success
      then nothing_uploaded
      else if S.storage_configured
      then upload_artifacts exec_id 0 r.artifacts nothing_uploaded
      else nothing_uploaded
