-- ===== src/Agent/Loop.antt =====
-- The loop of the regional agent: `runAgent` and `handlePolledJob` of src/agent.ts. A turn is given
-- what the poll and the posts of that turn run into.
use oo_workers.Prelude.{
  ℕ, ◌*◌, min, Bool, true, false, List, [], ◌∷◌, Option, none, some, if◌then◌else◌,
}
use oo_workers.Text.{Text}
use oo_workers.Scheduler.Dispatch.{JobPayload, Body, Attempt, done, thrown, qa_body}
use oo_workers.Redaction.{UrlApi}
use oo_workers.Api.{JsApi}
use oo_workers.Results.Agent.{AgentResult}
use oo_workers.Results.Net.{Net}
use oo_workers.Agent.{run_probe}

pub record Turn : Type 0 where
  pub polled : Attempt (Option JobPayload)
  pub net : Net
  -- The message of the error that `postResult` or `handleQaJob` throws.
  pub post_throws : Option Text
  pub qa_throws : Option Text
  -- SIGINT, SIGTERM or the abort of the caller's signal comes during the turn.
  pub signalled : Bool

pub record LoopState : Type 0 where
  pub running : Bool
  pub backoff_ms : ℕ
  -- Newest first: the pauses, the jobs taken from the master, and the results it has accepted.
  pub slept : List ℕ
  pub taken : List JobPayload
  pub posted : List AgentResult

abbrev pub first_backoff : ℕ
first_backoff = 1000

abbrev pub agent_start : LoopState
agent_start = record {
  running = true;
  backoff_ms = first_backoff;
  slept = [];
  taken = [];
  posted = [];
}

-- The `catch` of the loop.
abbrev pub back_off : LoopState → LoopState
back_off s = record s { slept = s.backoff_ms ∷ s.slept; backoff_ms = min (s.backoff_ms * 2) 60000 }

abbrev pub reset : LoopState → LoopState
reset s = record s { backoff_ms = first_backoff }

abbrev pub pause : LoopState → LoopState
pause s = record s { slept = 0 ∷ s.slept }

abbrev pub take_job : JobPayload → LoopState → LoopState
take_job job s = record s { taken = job ∷ s.taken }

abbrev unless_thrown : Option Text → LoopState → LoopState → LoopState
unless_thrown none before after = after
unless_thrown (some message) before after = back_off before

abbrev pub is_qa : Body → Bool
is_qa (qa_body _ _ _ _ _ _) = true
is_qa _ = false

module _ (U : UrlApi) (J : JsApi) (query : J.Value → Text → Attempt (List J.Value))
    (utf8 : List ℕ → Text) where
  -- `handlePolledJob`, with the `catch` around it.
  unfoldable pub handle_polled_job : Turn → JobPayload → LoopState → LoopState
  unfolding run_probe
  handle_polled_job t job s =
      if is_qa job.body
      then unless_thrown t.qa_throws s s
      else elim (run_probe U J query utf8 t.net job.execution_id job.body) [
        | thrown message ↦ back_off s
        | done result ↦ unless_thrown t.post_throws s (record s { posted = result ∷ s.posted })
      ]

  -- The body of the `while`.
  unfoldable pub loop_turn : Turn → LoopState → LoopState
  unfolding handle_polled_job
  loop_turn t s = elim t.polled [
    | thrown message ↦ back_off s
    | done none ↦ pause (reset s)
    | done (some job) ↦ handle_polled_job t job (take_job job (reset s))
  ]

  -- `runAgent`: a signal lets the turn end, and no other begins.
  unfoldable pub run_agent : List Turn → LoopState → LoopState
  unfolding loop_turn
  run_agent [] s = s
  run_agent (t ∷ turns) s =
      if s.running
      then run_agent turns
          (record (loop_turn t s) { running = if t.signalled then false else true })
      else s
