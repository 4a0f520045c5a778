-- ===== src/Scheduler/Ticks.antt =====
-- src/scheduler.ts: `tickUrlMonitors` to `tickQaProjects`, one pass over the monitors of a kind.
-- The six kinds with an execution row share their loop, as they share its text in the source; each
-- has its own row of due monitors and its own payload. A repository query that throws ends the
-- pass and is the failing tick of `Supervisor`.
use oo_workers.Prelude.{
  ℕ, ◌/◌, ◌*◌, Bool, false, List, [], ◌∷◌, Option, none, some, ltb, if◌then◌else◌,
}
use oo_workers.Text.{Text, codes}
use oo_workers.Db.{MonitorType}
use oo_workers.Scheduler.Slots.{SlotStore}
use oo_workers.Scheduler.Keys.{FanOutTarget, dispatch_slot_key, build_job_id}
use oo_workers.Scheduler.Dispatch.{
  Body, url_body, api_body, tcp_body, udp_body, db_body, tls_body, qa_body, QaTest, World, Env,
  Attempt, done, thrown, fan_out_targets, claim_dispatch_slot, dispatch, dispatch_or_mark_failed,
  create_execution,
}

-- A row of `findDue`: the columns that every kind has, and those of its own.
pub record Due {ℓ} (F : Type ℓ) : Type ℓ where
  pub id : ℕ
  pub interval_seconds : ℕ
  pub age_seconds : Option ℕ
  pub fields : F

pub record UrlFields : Type 0 where
  pub url : Text
  pub timeout_ms : ℕ

pub record ApiFields : Type 0 where
  pub url : Text
  pub method : Text
  pub headers : List (Text × Text)
  pub body : Option Text
  pub timeout_ms : ℕ

pub record TcpFields : Type 0 where
  pub host : Text
  pub port : ℕ
  pub payload_hex : Option Text
  pub expect_banner : Option Text
  pub timeout_ms : ℕ

pub record UdpFields : Type 0 where
  pub host : Text
  pub port : ℕ
  pub payload_hex : Option Text
  pub expect_response : Bool
  pub timeout_ms : ℕ

pub record DbFields : Type 0 where
  pub protocol : Text
  pub tls : Bool
  pub host : Text
  pub port : ℕ
  pub timeout_ms : ℕ

pub record TlsFields : Type 0 where
  pub host : Text
  pub port : ℕ
  pub servername : Option Text
  pub warn_days : ℕ
  pub timeout_ms : ℕ
  pub verify_chain : Bool
  pub verify_hostname : Bool
  pub expect_cn_regex : Option Text

pub record QaFields : Type 0 where
  pub target_url : Text
  pub credentials : List (Text × Text)
  pub config : List (Text × Text)

-- `if (m.ageSeconds !== null && m.ageSeconds < m.intervalSeconds) continue;`
unfoldable pub too_young : Option ℕ → ℕ → Bool
too_young none interval = false
too_young (some age) interval = ltb age interval

-- `Math.floor(Date.now() / (m.intervalSeconds * 1000))`
abbrev pub bucket_of : ℕ → ℕ → ℕ
bucket_of now interval = now / (interval * 1000)

module _ (R : SlotStore) (env : Env) where
  -- The body of the loop over the targets, once the slot is claimed.
  unfoldable pub launch : MonitorType → Text → ℕ → ℕ → Body → FanOutTarget → World R → World R
  launch kind queue id bucket body target w =
      let exec_id = w.next_id in
      let w' = create_execution R env kind id target.region_id w in
      (dispatch_or_mark_failed R env kind exec_id w' (
        dispatch R env queue target
          (record {
            job_id = build_job_id kind id bucket target env.nonce;
            type = kind;
            execution_id = exec_id;
            region_id = target.region_id;
            body = body;
          })
          200 w')).0

  unfoldable pub visit : MonitorType → Text → ℕ → ℕ → Body → FanOutTarget → World R → World R
  visit kind queue id interval body target w =
      let bucket = bucket_of env.now interval in
      let (slots, won) =
        claim_dispatch_slot R env w.slots (dispatch_slot_key kind id bucket target.region_id)
          interval in
      let w' = record w { slots = slots } in
      if won then launch kind queue id bucket body target w' else w'

  unfoldable pub visit_all :
      MonitorType → Text → ℕ → ℕ → Body → List FanOutTarget → World R → World R
  visit_all kind queue id interval body [] w = w
  visit_all kind queue id interval body (t ∷ ts) w =
      visit_all kind queue id interval body ts (visit kind queue id interval body t w)

  module _ {F : Type 0} (kind : MonitorType) (queue : Text) (body_of : Due F → Body) where
    unfoldable pub tick_one : Due F → World R → World R
    unfolding visit_all too_young fan_out_targets
    tick_one m w =
        if too_young m.age_seconds m.interval_seconds
        then w
        else visit_all kind queue m.id m.interval_seconds (body_of m)
            (fan_out_targets (env.targets kind m.id)) w

    -- The loop over the rows of `findDue`.
    unfoldable pub tick_rows : List (Due F) → World R → World R
    unfolding tick_one
    tick_rows [] w = w
    tick_rows (m ∷ due) w = tick_rows due (tick_one m w)

  unfoldable pub tick_url_monitors : List (Due UrlFields) → World R → World R
  unfolding tick_rows
  tick_url_monitors =
      tick_rows MonitorType.url (codes "url-monitor")
        λ m. url_body m.id m.fields.url m.fields.timeout_ms (env.url_assertions m.id)

  unfoldable pub tick_api_checks : List (Due ApiFields) → World R → World R
  unfolding tick_rows
  tick_api_checks = tick_rows MonitorType.api (codes "api-check") λ m.
      let f = m.fields in
      api_body m.id f.url f.method f.headers f.body f.timeout_ms (env.api_assertions m.id)

  unfoldable pub tick_tcp_monitors : List (Due TcpFields) → World R → World R
  unfolding tick_rows
  tick_tcp_monitors = tick_rows MonitorType.tcp (codes "tcp-monitor") λ m.
      let f = m.fields in tcp_body m.id f.host f.port f.payload_hex f.expect_banner f.timeout_ms

  unfoldable pub tick_udp_monitors : List (Due UdpFields) → World R → World R
  unfolding tick_rows
  tick_udp_monitors = tick_rows MonitorType.udp (codes "udp-monitor") λ m.
      let f = m.fields in udp_body m.id f.host f.port f.payload_hex f.expect_response f.timeout_ms

  unfoldable pub tick_db_monitors : List (Due DbFields) → World R → World R
  unfolding tick_rows
  tick_db_monitors =
      tick_rows MonitorType.db (codes "db-monitor")
        λ m. let f = m.fields in db_body m.id f.protocol f.tls f.host f.port f.timeout_ms

  unfoldable pub tick_tls_monitors : List (Due TlsFields) → World R → World R
  unfolding tick_rows
  tick_tls_monitors = tick_rows MonitorType.tls (codes "tls-monitor") λ m.
      let f = m.fields in
      tls_body m.id f.host f.port f.servername f.warn_days f.timeout_ms f.verify_chain
        f.verify_hostname f.expect_cn_regex

  infixl 5 ◌>>=◌
  abbrev ◌>>=◌ : Attempt (World R) → (World R → Attempt (World R)) → Attempt (World R)
  done w >>= k = k w
  thrown message >>= k = thrown message

  -- A QA project has no execution row yet, and a dispatch that throws ends the pass.
  qa_visit : ℕ → ℕ → Body → FanOutTarget → World R → Attempt (World R)
  qa_visit id interval body target w =
      let bucket = bucket_of env.now interval in
      let (slots, won) =
        claim_dispatch_slot R env w.slots
          (dispatch_slot_key MonitorType.qa id bucket target.region_id) interval in
      let w' = record w { slots = slots } in
      if won
      then dispatch R env (codes "qa-project") target
          (record {
            job_id = build_job_id MonitorType.qa id bucket target env.nonce;
            type = MonitorType.qa;
            execution_id = 0;
            region_id = target.region_id;
            body = body;
          })
          50 w'
      else done w'

  qa_visit_all : ℕ → ℕ → Body → List FanOutTarget → World R → Attempt (World R)
  qa_visit_all id interval body [] w = done w
  qa_visit_all id interval body (t ∷ ts) w = do
    w' ← qa_visit id interval body t w
    qa_visit_all id interval body ts w'

  qa_run : Due QaFields → List QaTest → World R → Attempt (World R)
  unfolding qa_visit_all qa_visit
  qa_run m [] w = done w
  qa_run m (t ∷ ts) w =
      qa_visit_all m.id m.interval_seconds
        (qa_body m.id m.fields.target_url m.fields.credentials m.fields.config (t ∷ ts) env.now)
        (fan_out_targets (env.targets MonitorType.qa m.id)) w

  qa_one : Due QaFields → World R → Attempt (World R)
  unfolding qa_run too_young
  qa_one m w =
      if too_young m.age_seconds m.interval_seconds then done w else qa_run m (env.tests m.id) w

  unfoldable pub tick_qa_projects : List (Due QaFields) → World R → Attempt (World R)
  unfolding qa_one
  tick_qa_projects [] w = done w
  tick_qa_projects (m ∷ due) w = do w' ← qa_one m w; tick_qa_projects due w'
