-- ===== src/Agent/Turns.antt =====
-- What the loop of the agent (src/agent.ts, `runAgent`) sleeps, takes and delivers over many turns.
use oo_workers.Prelude.{
  ℕ, suc, ◌*◌, ◌^◌, ◌≡◌, refl, sym, ◌∙◌, ap, subst, min, Bool, true, false, List, [], ◌∷◌, ◌++◌,
  map, Option, none, some, arith, if◌then◌else◌, Bool-cases, Option-cases, inl, inr, ◌⊎◌,
}
use oo_workers.Text.{Text}
use oo_workers.Probes.{is_some}
use oo_workers.Scheduler.Dispatch.{JobPayload, Attempt, done, thrown}
use oo_workers.Redaction.{UrlApi}
use oo_workers.Api.{JsApi}
use oo_workers.Results.Agent.{AgentResult}
use oo_workers.Agent.Named.{run_probe-done}
use oo_workers.Agent.Loop.{
  Turn, LoopState, agent_start, is_qa, handle_polled_job, loop_turn, run_agent,
}

-- The job of a turn fails: its result cannot be posted, or a browser check throws.
abbrev pub job_fails : Turn → JobPayload → Bool
job_fails t job = if is_qa job.body then is_some t.qa_throws else is_some t.post_throws

-- The failures in a row after a turn; a poll that is answered starts anew.
unfoldable pub failures : ℕ → Turn → ℕ
failures k t = elim t.polled [
  | thrown message ↦ suc k
  | done none ↦ 0
  | done (some job) ↦ if job_fails t job then 1 else 0
]

-- After k failures in a row.
abbrev pub pause_after : ℕ → ℕ
pause_after k = min (1000 * 2 ^ k) 60000

unfoldable pub sleeps : ℕ → Turn → List ℕ
sleeps k t = elim t.polled [
  | thrown message ↦ pause_after k ∷ []
  | done none ↦ 0 ∷ []
  | done (some job) ↦ if job_fails t job then pause_after 0 ∷ [] else []
]

unfoldable pub takes : Turn → List JobPayload
takes t = elim t.polled [ thrown message ↦ [] | done none ↦ [] | done (some job) ↦ job ∷ [] ]

-- The execution whose result the master accepts.
unfoldable pub delivers : Turn → List ℕ
delivers t = elim t.polled [
  | thrown message ↦ []
  | done none ↦ []
  | done (some job) ↦
      if is_qa job.body then [] else if is_some t.post_throws then [] else job.execution_id ∷ []
]

-- The turns that begin: those up to the first with a signal.
unfoldable pub begun : List Turn → List Turn
begun [] = []
begun (t ∷ turns) = t ∷ (if t.signalled then [] else begun turns)

-- What a list of turns comes to, newest first.
unfoldable pub over {ℓ} : {A : Type ℓ} → (Turn → List A) → List Turn → List A → List A
over f [] out = out
over f (t ∷ turns) out = over f turns (f t ++ out)

unfoldable pub all_sleeps : ℕ → List Turn → List ℕ → List ℕ
unfolding sleeps failures
all_sleeps k [] out = out
all_sleeps k (t ∷ turns) out = all_sleeps (failures k t) turns (sleeps k t ++ out)

begun-last : (t : Turn) (turns : List Turn) → t.signalled ≡ true → begun (t ∷ turns) ≡ t ∷ []
unfolding begun
begun-last t turns e = ap (λ b. t ∷ (if b then [] else begun turns)) e

begun-more :
    (t : Turn) (turns : List Turn) → t.signalled ≡ false → begun (t ∷ turns) ≡ t ∷ begun turns
unfolding begun
begun-more t turns e = ap (λ b. t ∷ (if b then [] else begun turns)) e

pause_after-double : (k : ℕ) → min (pause_after k * 2) 60000 ≡ pause_after (suc k)
pause_after-double k = omega arith

Polled-cases :
    (p : Attempt (Option JobPayload))
    → ((message : Text) × (p ≡ thrown message))
      ⊎ ((p ≡ done none) ⊎ ((job : JobPayload) × (p ≡ done (some job))))
Polled-cases (thrown message) = inl (message, refl)
Polled-cases (done none) = inr (inl refl)
Polled-cases (done (some job)) = inr (inr (job, refl))

module _ (U : UrlApi) (J : JsApi) (query : J.Value → Text → Attempt (List J.Value))
    (utf8 : List ℕ → Text) where
  abbrev ids : List AgentResult → List ℕ
  ids = map (λ (a : AgentResult). a.execution_id)

  -- One turn, after k failures in a row.
  loop_turn-comes_to :
      (k : ℕ) (t : Turn) (s : LoopState)
      → s.backoff_ms ≡ pause_after k
      → ((loop_turn U J query utf8 t s).backoff_ms ≡ pause_after (failures k t))
        × ((loop_turn U J query utf8 t s).slept ≡ sleeps k t ++ s.slept)
        × ((loop_turn U J query utf8 t s).taken ≡ takes t ++ s.taken)
        × (ids (loop_turn U J query utf8 t s).posted ≡ delivers t ++ ids s.posted)
  unfolding loop_turn handle_polled_job failures sleeps takes delivers
  loop_turn-comes_to k t s e = elim (Polled-cases t.polled) [
    | inl (message, p) ↦
        rw (p, loop_turn, failures, sleeps, takes, delivers)
          (
            ap (λ b. min (b * 2) 60000) e ∙ pause_after-double k,
            ap (λ b. b ∷ s.slept) e,
            refl,
            refl,
          )
    | inr (inl p) ↦ rw (p, loop_turn, failures, sleeps, takes, delivers) (refl, refl, refl, refl)
    | inr (inr (job, p)) ↦ elim (Bool-cases (is_qa job.body)) [
      | inl browser ↦ elim (Option-cases t.qa_throws) [
        | inl fine ↦
            rw (p, loop_turn, failures, sleeps, takes, delivers, browser, fine)
              (refl, refl, refl, refl)
        | inr (message, bad) ↦
            rw (p, loop_turn, failures, sleeps, takes, delivers, browser, bad)
              (refl, refl, refl, refl)
      ]
      | inr probe ↦
          let (a, ran, id) = run_probe-done U J query utf8 t.net job.execution_id job.body probe in
          elim (Option-cases t.post_throws) [
            | inl fine ↦
                rw (p, loop_turn, failures, sleeps, takes, delivers, probe, ran, fine)
                  (refl, refl, refl, ap (λ i. i ∷ ids s.posted) id)
            | inr (message, bad) ↦
                rw (p, loop_turn, failures, sleeps, takes, delivers, probe, ran, bad)
                  (refl, refl, refl, refl)
          ]
    ]
  ]

  run_agent-stopped :
      (turns : List Turn) (s : LoopState) → s.running ≡ false → run_agent U J query utf8 turns s ≡ s
  unfolding run_agent
  run_agent-stopped [] s h = refl
  run_agent-stopped (t ∷ turns) s h = rw (h, run_agent) refl

  abbrev ComesTo : LoopState → ℕ → List Turn → LoopState → Type 0
  ComesTo s k turns s' =
      (s'.slept ≡ all_sleeps k turns s.slept)
      × (s'.taken ≡ over takes turns s.taken)
      × (ids s'.posted ≡ over delivers turns (ids s.posted))

  abbrev after_turn : Turn → LoopState → Bool → LoopState
  after_turn t s running = record (loop_turn U J query utf8 t s) { running = running }

  run_agent-turn :
      (t : Turn) (turns : List Turn) (s : LoopState)
      → s.running ≡ true
      → run_agent U J query utf8 (t ∷ turns) s
        ≡ run_agent U J query utf8 turns (after_turn t s (if t.signalled then false else true))
  unfolding run_agent
  run_agent-turn t turns s running =
      ap
        (λ b.
          if b
          then run_agent U J query utf8 turns (after_turn t s (if t.signalled then false else true))
          else s)
        running

  run_agent-ComesTo :
      (turns : List Turn) (k : ℕ) (s : LoopState)
      → s.running ≡ true
      → s.backoff_ms ≡ pause_after k
      → ComesTo s k (begun turns) (run_agent U J query utf8 turns s)
  unfolding run_agent all_sleeps over begun
  run_agent-ComesTo [] k s running e = (refl, refl, refl)
  run_agent-ComesTo (t ∷ turns) k s running e =
      let (backoff, slept, taken, posted) = loop_turn-comes_to k t s e in
      let one = run_agent-turn t turns s running in
      elim (Bool-cases t.signalled) [
        | inl signal ↦
            let stop =
              one
              ∙ ap
                  (λ b. run_agent U J query utf8 turns (after_turn t s (if b then false else true)))
                  signal
              ∙ run_agent-stopped turns (after_turn t s false) refl in
            subst (λ ts. ComesTo s k ts (run_agent U J query utf8 (t ∷ turns) s))
              (sym (begun-last t turns signal))
              (subst (ComesTo s k (t ∷ [])) (sym stop) (slept, taken, posted))
        | inr quiet ↦
            let on =
              one
              ∙ ap
                  (λ b. run_agent U J query utf8 turns (after_turn t s (if b then false else true)))
                  quiet in
            let (rest1, rest2, rest3) =
              run_agent-ComesTo turns (failures k t) (after_turn t s true) refl backoff in
            subst (λ ts. ComesTo s k ts (run_agent U J query utf8 (t ∷ turns) s))
              (sym (begun-more t turns quiet))
              (subst (ComesTo s k (t ∷ begun turns)) (sym on) (
                rest1 ∙ ap (all_sleeps (failures k t) (begun turns)) slept,
                rest2 ∙ ap (over takes (begun turns)) taken,
                rest3 ∙ ap (over delivers (begun turns)) posted,
              ))
      ]

  -- Whatever polls, posts and signals run into: the agent begins the turns up to the first that is
  -- signalled; it takes the jobs that these turns poll, and its results that the master accepts are, in
  -- order, of the taken jobs that are no browser checks and whose post went through; and it sleeps
  -- 1000 * 2^k ms, but at most a minute, after a failure that k failures precede since the last
  -- answered poll, no time after an empty poll, and not at all otherwise.
  pub run_agent-accounts :
      (turns : List Turn)
      → ((run_agent U J query utf8 turns agent_start).slept ≡ all_sleeps 0 (begun turns) [])
        × ((run_agent U J query utf8 turns agent_start).taken ≡ over takes (begun turns) [])
        × (ids (run_agent U J query utf8 turns agent_start).posted ≡ over delivers (begun turns) [])
  run_agent-accounts turns = run_agent-ComesTo turns 0 agent_start refl (omega arith)
