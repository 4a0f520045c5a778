-- ===== src/Tests/Scheduling.antt =====
-- Runs of the scheduler: src/scheduler.ts.
use oo_workers.Prelude.{
  ℕ, suc, ◌≡◌, refl, ◌≤◌, ◌^◌, ◌*◌, inr, ◌↔◌, ◌≢◌, Bool, false, List, [], ◌∷◌, Option, none, some,
  arith, if◌then◌else◌, map, ◌==◌,
}
use oo_workers.Text.{Text, codes}
use oo_workers.Db.{MonitorType}
use oo_workers.Scheduler.Slots.{expiring}
use oo_workers.Scheduler.Keys.{dispatch_slot_key, dispatch_slot_key-injective}
use oo_workers.Scheduler.Dispatch.{World, Env, url_body, Body, fan_out_targets}
use oo_workers.Scheduler.Ticks.{
  Due, UrlFields, ApiFields, TcpFields, UdpFields, DbFields, TlsFields, tick_url_monitors,
  tick_api_checks, tick_tcp_monitors, tick_udp_monitors, tick_db_monitors, tick_tls_monitors,
  tick_one,
}
use oo_workers.Scheduler.Once.{Claim, wins, wins-le-one}
use oo_workers.Scheduler.Passes.{tick_one-again}
use oo_workers.Scheduler.Accounting.{IsAccounted, ticks-IsAccounted}
use oo_workers.Scheduler.Supervisor.{
  boot, Event, fire, ended, Tick, history, history-running, unsettled, react, on_fire, on_failure,
  escalates, end_at, end_pass,
}
use oo_workers.Scheduler.Supervisor.Escalation.{stalls, after_failures, escalation_steps}
use oo_workers.Scheduler.Regions.{
  Region, sweeps, unswept, statuses, IsAlternating, sweeps-IsAlternating,
}

abbrev at_time : ℕ → Env
at_time now = record {
  now = now;
  nonce = codes "n1";
  targets = λ kind id. (7, codes "eu") ∷ (8, codes "us") ∷ [];
  url_assertions = λ id. [];
  api_assertions = λ id. [];
  tests = λ id. [];
  claim_throws = λ key. false;
  dispatch_throws = λ job. none;
  job_exists = λ queue job. false;
  mark_throws = λ id. false;
}

abbrev broken_redis : ℕ → Env
broken_redis now = record (at_time now) { dispatch_throws = λ job. some (codes "ECONNREFUSED") }

abbrev empty_world : World expiring
empty_world = record { slots = λ key. 0; rows = []; next_id = 1; added = []; pushed = [] }

abbrev monitor : Due UrlFields
monitor = record {
  id = 4;
  interval_seconds = 60;
  age_seconds = none;
  fields = record { url = codes "https://example.com"; timeout_ms = 30000 };
}

abbrev body : Due UrlFields → Body
body m = url_body m.id m.fields.url m.fields.timeout_ms []

abbrev slot : Text
slot = codes "oo:scheduled:url:4:1:r7"

abbrev claims : List Claim
claims =
    record { env = at_time 60100; key = slot; ttl_seconds = 60 }
    ∷ record { env = at_time 60500; key = slot; ttl_seconds = 60 }
    ∷ record { env = at_time 60500; key = codes "other"; ttl_seconds = 9 }
    ∷ []

wins-le-one_example : wins expiring slot 60 1 claims (λ key. 0) ≤ 1
wins-le-one_example =
    wins-le-one expiring slot 60 1 claims (λ key. 0) (omega arith)
      ((refl, λ same. (refl, refl)), ((refl, λ same. (refl, refl)), ((refl, λ same. cc same), tt)))

tick_one-again_example :
    tick_one expiring (at_time 60900) MonitorType.url (codes "url-monitor") body monitor (
      tick_one expiring
        (at_time 60100)
        MonitorType.url
        (codes "url-monitor")
        body
        monitor
        empty_world)
    ≡ tick_one expiring
        (at_time 60100)
        MonitorType.url
        (codes "url-monitor")
        body
        monitor
        empty_world
tick_one-again_example =
    tick_one-again expiring MonitorType.url (codes "url-monitor") body body (at_time 60100)
      (at_time 60900) monitor empty_world (omega arith) refl (λ k. refl) (λ k. refl) refl
      (unfold fan_out_targets in (inr refl, (inr refl, tt)))

abbrev slugs : ℕ → Text
slugs id = if id == 7 then codes "eu" else codes "us"

ticks-IsAccounted_example :
    ((due : List (Due UrlFields))
      → IsAccounted slugs (tick_url_monitors expiring (at_time 60100) due empty_world))
    × ((due : List (Due ApiFields))
        → IsAccounted slugs (tick_api_checks expiring (at_time 60100) due empty_world))
    × ((due : List (Due TcpFields))
        → IsAccounted slugs (tick_tcp_monitors expiring (at_time 60100) due empty_world))
    × ((due : List (Due UdpFields))
        → IsAccounted slugs (tick_udp_monitors expiring (at_time 60100) due empty_world))
    × ((due : List (Due DbFields))
        → IsAccounted slugs (tick_db_monitors expiring (at_time 60100) due empty_world))
    × ((due : List (Due TlsFields))
        → IsAccounted slugs (tick_tls_monitors expiring (at_time 60100) due empty_world))
ticks-IsAccounted_example =
    ticks-IsAccounted expiring (at_time 60100) slugs (λ kind id. (refl, (refl, tt)))
      (λ queue job. refl) (λ id. refl) empty_world tt

dispatch_slot_key-injective_example :
    (MonitorType.url ≡ MonitorType.url) × (◌≡◌ {A = ℕ} 4 4) × (◌≡◌ {A = ℕ} 1 1) × (◌≡◌ {A = ℕ} 0 0)
dispatch_slot_key-injective_example =
    dispatch_slot_key-injective MonitorType.url MonitorType.url 4 4 1 1 none (some 0)
      (unfold dispatch_slot_key in refl)

abbrev stalled_database : List Event
stalled_database = fire ∷ fire ∷ ended 0 (some (codes "x")) ∷ fire ∷ ended 1 none ∷ []

history-running_example :
    unsettled (history stalled_database (boot, [])).1
    ≡ (if (history stalled_database (boot, [])).0.is_ticking then 1 else 0)
history-running_example = history-running stalled_database

-- Passes of the tick that failed go on beside the passes of the next one.
passes_beside :
    map (λ (t : Tick). t.outstanding) (history stalled_database (boot, [])).1 ≡ 10 ∷ 8 ∷ []
unfolding history react on_fire on_failure escalates end_at end_pass boot
passes_beside = refl

escalation_steps_example :
    ((stalls (after_failures (codes "x") 6).log ≡ suc (stalls (after_failures (codes "x") 5).log))
      ↔ ((j : ℕ) × (6 ≡ 3 * 2 ^ j)))
    × (((j : ℕ) → 6 ≢ 3 * 2 ^ j)
        → stalls (after_failures (codes "x") 6).log ≡ stalls (after_failures (codes "x") 5).log)
escalation_steps_example = escalation_steps (codes "x") 5

abbrev eu : Option ℕ → Region
eu seen = record { id = 7; slug = codes "eu"; last_seen_at = seen }

abbrev readings : List (ℕ × List Region)
readings = (70000, eu (some 60000) ∷ []) ∷ (200000, eu (some 60000) ∷ []) ∷ []

sweeps-IsAlternating_example :
    IsAlternating (statuses 7 (sweeps readings unswept).sent)
    × (((b : Bool) (bs : List Bool)
        → statuses 7 (sweeps readings unswept).sent ≡ b ∷ bs
        → (sweeps readings unswept).last_online 7 ≡ some b))
sweeps-IsAlternating_example = sweeps-IsAlternating 7 readings
