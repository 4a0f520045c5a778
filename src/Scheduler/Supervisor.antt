-- ===== src/Scheduler/Supervisor.antt =====
-- src/scheduler.ts, `startScheduler`: the guard against overlapping ticks and the escalation of
-- consecutive failures. The body of a tick is the `Promise.all` of its passes; of a pass only its end
-- shows here.
pub mod Escalation
use oo_workers.Prelude.{
  ℕ, suc, ◌+◌, ◌-◌, ◌*◌, ◌≡◌, refl, Bool, true, false, ◌&&◌, ◌||◌, List, [], ◌∷◌, arith, leb, ltb,
  ◌==◌, if◌then◌else◌, zero, not, Option, none, some,
}
use oo_workers.Probes.{is_some}
use oo_workers.Text.{Text}

pub data LogLine : Type 0 where
  skipped : LogLine
  recovered : ℕ → LogLine
  tick_failed : ℕ → Text → LogLine
  stalled : ℕ → LogLine

pub record Supervisor : Type 0 where
  pub is_ticking : Bool
  pub consecutive_failures : ℕ
  pub last_escalation : ℕ
  pub log : List LogLine

abbrev pub critical_failure_threshold : ℕ
critical_failure_threshold = 3

unfoldable pub boot : Supervisor
boot = record { is_ticking = false; consecutive_failures = 0; last_escalation = 0; log = [] }

-- A timer that fires: the new state, and whether the passes are started.
unfoldable pub on_fire : Supervisor → Supervisor × Bool
on_fire s =
    if s.is_ticking
    then (record s { log = skipped ∷ s.log }, false)
    else (record s { is_ticking = true }, true)

-- After the `Promise.all`, and the `finally`.
unfoldable pub on_success : Supervisor → Supervisor
on_success s =
    if ltb 0 s.consecutive_failures
    then record s {
      is_ticking = false;
      log = recovered s.consecutive_failures ∷ s.log;
      consecutive_failures = 0;
      last_escalation = 0;
    }
    else record s { is_ticking = false }

-- The test of the `catch`, with the counter already raised.
unfoldable pub escalates : ℕ → ℕ → Bool
escalates failures last =
    leb critical_failure_threshold failures && (failures == last * 2 || last == 0)

unfoldable pub on_failure : Text → Supervisor → Supervisor
unfolding escalates
on_failure message s =
    let n = suc s.consecutive_failures in
    let logged = tick_failed n message ∷ s.log in
    if escalates n s.last_escalation
    then record s {
      is_ticking = false;
      consecutive_failures = n;
      last_escalation = n;
      log = stalled n ∷ logged;
    }
    else record s { is_ticking = false; consecutive_failures = n; log = logged }

-- A tick that was started: how many of its passes still run, and whether its `Promise.all` has
-- settled, which it does with the last pass or with the first that throws.
pub record Tick : Type 0 where
  pub outstanding : ℕ
  pub settled : Bool

-- The calls under `Promise.all`.
abbrev pub passes : ℕ
passes = 10

abbrev started : Tick
started = record { outstanding = passes; settled = false }

-- A pass of a tick ends, with the message of its error if it throws.
unfoldable pub end_pass : Option Text → Tick → Tick
end_pass thrown t = if t.outstanding == 0 then t else record {
  outstanding = t.outstanding - 1;
  settled = t.settled || (is_some thrown || t.outstanding == 1);
}

abbrev settles : Option Text → Tick → Bool
settles thrown t = ltb 0 t.outstanding && (not t.settled && (is_some thrown || t.outstanding == 1))

-- The tick is given by its place, the newest first. The Boolean says whether it settles by this.
unfoldable pub end_at : ℕ → Option Text → List Tick → List Tick × Bool
unfolding end_pass
end_at i thrown [] = ([], false)
end_at zero thrown (t ∷ ts) = (end_pass thrown t ∷ ts, settles thrown t)
end_at (suc i) thrown (t ∷ ts) = let (ts', now) = end_at i thrown ts in (t ∷ ts', now)

abbrev conclude : Option Text → Supervisor → Supervisor
conclude none s = on_success s
conclude (some message) s = on_failure message s

-- What can happen: the interval timer fires, or a pass of a tick ends. What a settled tick has left
-- running goes on.
pub data Event : Type 0 where
  fire : Event
  ended : (place : ℕ) (thrown : Option Text) → Event

unfoldable pub react : Event → Supervisor × List Tick → Supervisor × List Tick
unfolding on_fire end_at on_success on_failure
react fire (s, ticks) =
    let (s', starts) = on_fire s in (s', if starts then started ∷ ticks else ticks)
react (ended place thrown) (s, ticks) =
    let (ticks', now) = end_at place thrown ticks in (if now then conclude thrown s else s, ticks')

unfoldable pub history : List Event → Supervisor × List Tick → Supervisor × List Tick
unfolding react
history [] c = c
history (e ∷ es) c = history es (react e c)

-- How many of the ticks have not settled.
pub unsettled : List Tick → ℕ
unsettled [] = 0
unsettled (t ∷ ts) = if t.settled then unsettled ts else suc (unsettled ts)

end_at-unsettled :
    (i : ℕ) (thrown : Option Text) (ts : List Tick)
    → unsettled ts ≡ unsettled (end_at i thrown ts).0 + (if (end_at i thrown ts).1 then 1 else 0)
unfolding end_at end_pass unsettled
end_at-unsettled i thrown [] = refl
end_at-unsettled zero none (t ∷ ts) = ground arith
end_at-unsettled zero (some m) (t ∷ ts) = ground arith
end_at-unsettled (suc i) thrown (t ∷ ts) = ground (arith, end_at-unsettled i thrown ts)

conclude-is_ticking :
    (thrown : Option Text) (s : Supervisor) → (conclude thrown s).is_ticking ≡ false
unfolding on_success on_failure
conclude-is_ticking none s = ground arith
conclude-is_ticking (some m) s = ground arith

abbrev Agrees : Supervisor × List Tick → Type 0
Agrees c = unsettled c.1 ≡ (if c.0.is_ticking then 1 else 0)

react-Agrees :
    (e : Event) (s : Supervisor) (ts : List Tick) → Agrees (s, ts) → Agrees (react e (s, ts))
unfolding react on_fire unsettled
react-Agrees fire s ts h = ground arith
react-Agrees (ended i thrown) s ts h =
    ground (arith, end_at-unsettled i thrown ts, conclude-is_ticking thrown s)

history-Agrees :
    (es : List Event) (s : Supervisor) (ts : List Tick)
    → Agrees (s, ts)
    → Agrees (history es (s, ts))
unfolding history
history-Agrees [] s ts h = h
history-Agrees (e ∷ es) s ts h =
    history-Agrees es (react e (s, ts)).0 (react e (s, ts)).1 (react-Agrees e s ts h)

-- However the timer fires and the passes of the ticks end: at most one tick has not settled, and the
-- flag is set exactly while there is one. The passes that a failed tick left running are not counted.
pub history-running :
    (es : List Event)
    → unsettled (history es (boot, [])).1 ≡ (if (history es (boot, [])).0.is_ticking then 1 else 0)
unfolding boot unsettled
history-running es = history-Agrees es boot [] refl
