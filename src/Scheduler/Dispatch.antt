-- ===== src/Scheduler/Dispatch.antt =====
-- src/scheduler.ts: the payloads, `claimDispatchSlot`, `dispatch` and `dispatchOrMarkFailed`.
-- A world holds what the scheduler changes: the Redis slots, the execution rows, the jobs
-- that `queue.add` adds and the regional lists. What Redis, BullMQ and Postgres may refuse is in `Env`.
use oo_workers.Prelude.{
  ℕ, suc, Bool, true, false, List, [], ◌∷◌, ◌++◌, Option, none, some, max, if◌then◌else◌, map,
}
use oo_workers.Text.{Text, codes}
use oo_workers.Db.{MonitorType, Exec, no_extra, is_row, update_where, pending, failed}
use oo_workers.Scheduler.Slots.{SlotStore}
use oo_workers.Scheduler.Keys.{FanOutTarget, regional_list_key}

pub data Operator : Type 0 where
  equals not_equals less_than greater_than : Operator

pub record UrlAssertion : Type 0 where
  pub operator : Operator
  pub status_code : ℕ

-- The parts of an API assertion are read by the processor only.
pub record ApiAssertion : Type 0 where
  pub type : Text
  pub operator : Text
  pub path : Option Text
  pub value : Option Text

pub record QaTest : Type 0 where
  pub id : ℕ
  pub name : Text
  pub script : Text

-- The part of a payload that depends on the kind of monitor.
pub data Body : Type 0 where
  url_body : (id : ℕ) (url : Text) (timeout_ms : ℕ) (assertions : List UrlAssertion) → Body
  api_body :
      (id : ℕ) (url method : Text) (headers : List (Text × Text)) (body : Option Text)
      (timeout_ms : ℕ) (assertions : List ApiAssertion)
      → Body
  tcp_body :
      (id : ℕ) (host : Text) (port : ℕ) (payload_hex expect_banner : Option Text) (timeout_ms : ℕ)
      → Body
  udp_body :
      (id : ℕ) (host : Text) (port : ℕ) (payload_hex : Option Text) (expect_response : Bool)
      (timeout_ms : ℕ)
      → Body
  db_body : (id : ℕ) (protocol : Text) (tls : Bool) (host : Text) (port timeout_ms : ℕ) → Body
  tls_body :
      (id : ℕ) (host : Text) (port : ℕ) (servername : Option Text) (warn_days timeout_ms : ℕ)
      (verify_chain verify_hostname : Bool) (expect_cn_regex : Option Text)
      → Body
  qa_body :
      (project_id : ℕ) (target_url : Text) (credentials config : List (Text × Text))
      (tests : List QaTest) (triggered_at : ℕ)
      → Body

pub record JobPayload : Type 0 where
  pub job_id : Text
  pub type : MonitorType
  pub execution_id : ℕ
  pub region_id : Option ℕ
  pub body : Body

-- One job that `queue.add('check', data, opts)` adds; `data` is the payload without `jobId` and `type`.
pub record QueueAdd : Type 0 where
  pub queue : Text
  pub job_id : Text
  pub execution_id : ℕ
  pub region_id : Option ℕ
  pub body : Body
  pub remove_on_complete : ℕ
  pub remove_on_fail : ℕ

pub record World (R : SlotStore) : Type 0 where
  pub slots : R.State
  pub rows : List Exec
  pub next_id : ℕ
  pub added : List QueueAdd
  -- `LPUSH` calls, the newest first: list key and payload.
  pub pushed : List (Text × JobPayload)

-- What one pass is given, and which calls of the services around it throw.
pub record Env : Type 0 where
  pub now : ℕ
  pub nonce : Text
  pub targets : MonitorType → ℕ → List (ℕ × Text)
  pub url_assertions : ℕ → List UrlAssertion
  pub api_assertions : ℕ → List ApiAssertion
  pub tests : ℕ → List QaTest
  pub claim_throws : Text → Bool
  -- The message of the error that `queue.add` or `lpush` throws for a job id.
  pub dispatch_throws : Text → Option Text
  -- BullMQ holds a job with the id in the queue; it then ignores another one.
  pub job_exists : Text → Text → Bool
  pub mark_throws : ℕ → Bool

-- A call that may throw an error with a message.
pub data Attempt {ℓ} (A : Type ℓ) : Type ℓ where
  done : A → Attempt A
  thrown : Text → Attempt A

-- `fanOutTargets`: the rows of `monitor_regions`, or the master itself.
unfoldable pub fan_out_targets : List (ℕ × Text) → List FanOutTarget
fan_out_targets [] = record { region_id = none; region_slug = none } ∷ []
fan_out_targets (r ∷ rows) =
    map (λ (q : ℕ × Text). record { region_id = some q.0; region_slug = some q.1 }) (r ∷ rows)

module _ (R : SlotStore) where
  -- A throwing SET counts as a claim; it is taken to leave the key alone.
  unfoldable pub claim_dispatch_slot : Env → R.State → Text → ℕ → R.State × Bool
  claim_dispatch_slot env s key ttl_seconds =
      if env.claim_throws key then (s, true) else R.set_nx s env.now key (max 1 ttl_seconds)

  place : Env → Text → FanOutTarget → Option Text → JobPayload → ℕ → World R → World R
  place env queue target none p keep w = if env.job_exists queue p.job_id then w else record w {
    added =
        record {
          queue = queue;
          job_id = p.job_id;
          execution_id = p.execution_id;
          region_id = p.region_id;
          body = p.body;
          remove_on_complete = keep;
          remove_on_fail = keep;
        }
        ∷ w.added;
  }
  place env queue target (some slug) p keep w = record w {
    pushed = (regional_list_key slug, p) ∷ w.pushed;
  }

  -- `dispatch`: BullMQ for the master, the region's list otherwise.
  unfoldable pub dispatch : Env → Text → FanOutTarget → JobPayload → ℕ → World R → Attempt (World R)
  unfolding place
  dispatch env queue target p keep w = elim (env.dispatch_throws p.job_id) [
    | none ↦ done (place env queue target target.region_slug p keep w)
    | some message ↦ thrown message
  ]

  -- `updateExecution(id, { status: 'FAILED', errorMessage, endTime })`.
  unfoldable pub mark_failed : MonitorType → ℕ → Text → ℕ → World R → World R
  mark_failed kind exec_id message now w = record w {
    rows =
        update_where (is_row kind exec_id)
          (λ r. record r { status = failed; error_message = some message; end_time = some now })
          w.rows;
  }

  -- `dispatchOrMarkFailed`: it never throws, and says whether the job was placed.
  unfoldable pub dispatch_or_mark_failed :
      Env → MonitorType → ℕ → World R → Attempt (World R) → World R × Bool
  unfolding mark_failed
  dispatch_or_mark_failed env kind exec_id w (done w') = (w', true)
  dispatch_or_mark_failed env kind exec_id w (thrown message) = (
    (if env.mark_throws exec_id
        then w
        else mark_failed kind exec_id (codes "dispatch failed: " ++ message) env.now w),
    false,
  )

  -- `createExecution(monitorId, 'PENDING', regionId)`.
  unfoldable pub create_execution : Env → MonitorType → ℕ → Option ℕ → World R → World R
  create_execution env kind monitor_id region w = record w {
    next_id = suc w.next_id;
    rows =
        record {
          kind = kind;
          id = w.next_id;
          monitor_id = monitor_id;
          region_id = region;
          run_id = none;
          status = pending;
          latency_ms = none;
          error_message = none;
          extra = no_extra;
          start_time = env.now;
          end_time = none;
        }
        ∷ w.rows;
  }
