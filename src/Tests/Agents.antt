-- ===== src/Tests/Agents.antt =====
-- Runs of the regional agent: src/agent.ts.
use oo_workers.Prelude.{
  ℕ, ◌≡◌, refl, Bool, true, false, List, [], ◌∷◌, map, Option, none, some, ltb, ◌==◌, if◌then◌else◌,
}
use oo_workers.Text.{Text, codes}
use oo_workers.Scheduler.Dispatch.{JobPayload, Body, Attempt, done, thrown, tcp_body}
use oo_workers.Db.{MonitorType}
use oo_workers.Redaction.{UrlApi}
use oo_workers.Redaction
use oo_workers.Api.{JsApi}
use oo_workers.Results.Agent.{AgentResult, write_agent_result}
use oo_workers.Results.Api
use oo_workers.Results.Url
use oo_workers.Results.Net.{Net, master_probed}
use oo_workers.Results.Probe.{Job, Probed, probe_monitor_processor}
use oo_workers.Agent.{run_probe}
use oo_workers.Agent.Loop.{Turn, agent_start, run_agent}
use oo_workers.Agent.Alike.{fresh, seen}
use oo_workers.Agent.Mirrors.{is_mirrored, run_probe-mirrors}
use oo_workers.Probes.Tcp
use oo_workers.Probes.Udp
use oo_workers.Probes.Db
use oo_workers.Probes.Tls
use oo_workers.Probes.Tls.{TlsApi}
use oo_workers.Results.Wire.{Wire, net_of}
use oo_workers.Agent.Turns.{
  all_sleeps, begun, over, takes, delivers, sleeps, failures, run_agent-accounts,
}

abbrev urls : UrlApi
urls = record {
  Url = Text;
  parse = λ s. none;
  has_userinfo = λ u. false;
  clear_userinfo = λ u. u;
  keys = λ u. [];
  set = λ n v u. u;
  render = λ u. u;
}

abbrev js : JsApi
js = record {
  Value = ℕ;
  number = λ n. n;
  text = λ s. 0;
  array = λ vs. 1;
  undefined = 0;
  parse_int = λ s. 0;
  loose_eq = λ a b. true;
  less = ltb;
  to_text = λ v. [];
  is_nullish = λ v. false;
  json_text = λ v. [];
  json_parse = λ s. thrown (codes "Unexpected token");
}

abbrev every_path : ℕ → Text → Attempt (List ℕ)
every_path v path = done (v ∷ [])

abbrev plain : List ℕ → Text
plain bytes = bytes

abbrev certificates : TlsApi
certificates = record {
  parse_date = λ s. none;
  check_server_identity = λ host c. none;
  is_ip = λ s. false;
  Pattern = Text;
  compile = λ s. s;
  compile_error = λ s. none;
  matches = λ p s. false;
}

-- Only port 25 answers.
abbrev wire : Wire
wire = record {
  head = λ url ms. Url.rejected Redaction.not_an_error 3;
  request = λ url o ms. Api.rejected Redaction.not_an_error 3;
  tcp = λ o.
      if o.port == 25
      then (8, Tcp.connect) ∷ (5000, Tcp.timeout) ∷ []
      else (3, Tcp.error (record { code = some (codes "ECONNREFUSED"); message = none }))
        ∷ (5000, Tcp.timeout)
        ∷ [];
  udp = λ o. (5000, Udp.timer) ∷ [];
  db = λ o tls. (5000, Db.timer) ∷ [];
  tls = λ o. (5000, Tls.timeout) ∷ [];
}

abbrev net : Net
unfolding net_of
net = net_of plain certificates wire

abbrev mail : ℕ → Body
mail port = tcp_body 4 (codes "mail") port none none 0

abbrev only_attempt : Job
only_attempt = record { execution_id = 12; monitor_id = 4; attempts_made = 0; attempts = none }

run_probe-mirrors_example :
    (p : Probed) × (a : AgentResult) × (master_probed (net_of plain certificates wire) (mail 26)
      ≡ some p)
    × (run_probe urls js every_path plain
          (net_of plain certificates wire)
          only_attempt.execution_id
          (mail 26)
        ≡ done a)
    × (seen
          (probe_monitor_processor MonitorType.tcp only_attempt p 900
            (fresh MonitorType.tcp none only_attempt 500)).0
        ≡ seen (write_agent_result 7 a 900 (fresh MonitorType.tcp (some 7) only_attempt 500)).0)
run_probe-mirrors_example =
    run_probe-mirrors urls js every_path plain certificates wire only_attempt 7 500 900 (mail 26)
      refl refl (unfold is_mirrored in refl)

abbrev job : ℕ → JobPayload
job id = record {
  job_id = codes "tcp-4";
  type = MonitorType.tcp;
  execution_id = id;
  region_id = some 7;
  body = mail 25;
}

abbrev turn : Attempt (Option JobPayload) → Option Text → Bool → Turn
turn polled post_throws signalled = record {
  polled = polled;
  net = net;
  post_throws = post_throws;
  qa_throws = none;
  signalled = signalled;
}

abbrev no_master : Turn
no_master = turn (thrown (codes "ECONNREFUSED")) none false

-- Two failed polls, a job whose post fails, a failed poll, a job, an empty poll with a signal.
abbrev turns : List Turn
turns =
    no_master
    ∷ no_master
    ∷ turn (done (some (job 12))) (some (codes "502")) false
    ∷ no_master
    ∷ turn (done (some (job 13))) none false
    ∷ turn (done none) none true
    ∷ no_master
    ∷ []

run_agent-accounts_example :
    ((run_agent urls js every_path plain turns agent_start).slept ≡ all_sleeps 0 (begun turns) [])
    × ((run_agent urls js every_path plain turns agent_start).taken ≡ over takes (begun turns) [])
    × (map
          (λ (a : AgentResult). a.execution_id)
          (run_agent urls js every_path plain turns agent_start).posted
        ≡ over delivers (begun turns) [])
run_agent-accounts_example = run_agent-accounts urls js every_path plain turns

slept_in_all : all_sleeps 0 (begun turns) [] ≡ 0 ∷ 2000 ∷ 1000 ∷ 2000 ∷ 1000 ∷ []
unfolding all_sleeps begun sleeps failures
slept_in_all = refl

-- The first job is taken and never reported.
job_lost :
    (map (λ (p : JobPayload). p.execution_id) (over takes (begun turns) []) ≡ 13 ∷ 12 ∷ [])
    × (over delivers (begun turns) [] ≡ 13 ∷ [])
unfolding over begun takes delivers
job_lost = (refl, refl)
