-- ===== src/Agent/Named.antt =====
-- The result of a probe of the agent (src/agent.ts, `runProbe`) is that of the execution asked for.
use oo_workers.Prelude.{ℕ, ◌≡◌, refl, false, List, Option, none, some, arith, inl, inr, ◌⊎◌}
use oo_workers.Text.{Text}
use oo_workers.Scheduler.Dispatch.{
  Body, UrlAssertion, Attempt, done, url_body, api_body, qa_body, tcp_body, udp_body, db_body,
  tls_body,
}
use oo_workers.Redaction.{UrlApi, Thrown}
use oo_workers.Api.{JsApi}
use oo_workers.Results.Agent.{AgentResult}
use oo_workers.Results.Net.{Net, with_payload}
use oo_workers.Agent.{
  run_probe, probe_url, probe_api, probe_tcp, probe_udp, probe_db, probe_tls, agent_body_methods,
  api_check,
}
use oo_workers.Payload.{Payload, absent, buffer, malformed, parse_hex_payload}
use oo_workers.Results.Api
use oo_workers.Results.Api.{ApiCheck, ApiFetched, api_timeout, request_with}
use oo_workers.Results.Url
use oo_workers.Results.Url.{Fetched, url_timeout}
use oo_workers.Agent.Loop.{is_qa}

Fetched-cases :
    (f : Fetched)
    → ((code took caught : ℕ) × (f ≡ Url.responded code took caught))
      ⊎ ((e : Thrown) × (took : ℕ) × (f ≡ Url.rejected e took))
Fetched-cases (Url.responded code took caught) = inl (code, took, caught, refl)
Fetched-cases (Url.rejected e took) = inr (e, took, refl)

ApiFetched-cases :
    (f : ApiFetched)
    → ((status : ℕ) × (chunks : List (List ℕ)) × (headers : List (Text × Text)) × (took caught : ℕ)
        × (f ≡ Api.responded status chunks headers took caught))
      ⊎ ((e : Thrown) × (took : ℕ) × (f ≡ Api.rejected e took))
ApiFetched-cases (Api.responded status chunks headers took caught) =
    inl (status, chunks, headers, took, caught, refl)
ApiFetched-cases (Api.rejected e took) = inr (e, took, refl)

Payload-id :
    (p : Payload) (id : ℕ) (a : AgentResult) (k : Option (List ℕ) → AgentResult)
    → a.execution_id ≡ id
    → ((o : Option (List ℕ)) → (k o).execution_id ≡ id)
    → (with_payload p a k).execution_id ≡ id
Payload-id absent id a k ha hk = hk none
Payload-id (buffer bytes) id a k ha hk = hk (some bytes)
Payload-id malformed id a k ha hk = ha

module _ (U : UrlApi) (J : JsApi) (query : J.Value → Text → Attempt (List J.Value))
    (utf8 : List ℕ → Text) where
  probe_url-id :
      (N : Net) (id : ℕ) (url : Text) (ms : ℕ) (assertions : List UrlAssertion)
      → (probe_url U N id url ms assertions).execution_id ≡ id
  unfolding probe_url
  probe_url-id N id url ms assertions = elim (Fetched-cases (N.head url (url_timeout ms))) [
    | inl (code, took, caught, e) ↦ rw (probe_url, e) refl
    | inr (thrown_error, took, e) ↦ rw (probe_url, e) refl
  ]

  probe_api-id :
      (N : Net) (id : ℕ) (c : ApiCheck) → (probe_api U J query utf8 N id c).execution_id ≡ id
  unfolding probe_api
  probe_api-id N id c =
      elim (ApiFetched-cases
        (N.request c.url (request_with agent_body_methods c) (api_timeout c.timeout_ms))) [
          | inl (status, chunks, headers, took, caught, e) ↦ rw (probe_api, e) refl
          | inr (thrown_error, took, e) ↦ rw (probe_api, e) refl
        ]

  pub run_probe-done :
      (N : Net) (id : ℕ) (b : Body)
      → is_qa b ≡ false
      → (a : AgentResult) × (run_probe U J query utf8 N id b ≡ done a) × (a.execution_id ≡ id)
  unfolding run_probe probe_tcp probe_udp probe_db probe_tls
  run_probe-done N id (url_body _ url ms assertions) h =
      (_, refl, probe_url-id N id url ms assertions)
  run_probe-done N id (api_body i url method headers body ms assertions) h =
      (_, refl, probe_api-id N id (api_check i url method headers body ms assertions))
  run_probe-done N id (tcp_body _ _ _ hex _ _) h =
      (_, refl, Payload-id (parse_hex_payload hex) id _ _ refl (λ o. refl))
  run_probe-done N id (udp_body _ _ _ hex _ _) h =
      (_, refl, Payload-id (parse_hex_payload hex) id _ _ refl (λ o. refl))
  run_probe-done N id (db_body _ _ _ _ _ _) h = (_, refl, refl)
  run_probe-done N id (tls_body _ _ _ _ _ _ _ _ _) h = (_, refl, refl)
  run_probe-done N id (qa_body _ _ _ _ _ _) h = absurd (ground (arith, h))
