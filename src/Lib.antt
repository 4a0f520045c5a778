-- ===== src/Lib.antt =====
-- Verification of oo-workers: a self-hosted uptime monitor. A scheduler (src/scheduler.ts) looks
-- every few seconds for monitors that are due, writes a PENDING execution row for each and dispatches
-- a job, to BullMQ for the master itself or to a Redis list for a region; processors and regional
-- agents probe and write results; each written result passes the transition detector
-- (src/services/transition-detector.ts), which decides whether an alert goes out.
--
-- Files:
--   Prelude, Text, Db: tests on numbers, lists and options; texts as lists of character codes with
--     decimal printing; the execution rows and `UPDATE … WHERE` (src/db/schema.ts).
--   Scheduler: Slots is Redis' `SET key 1 EX ttl NX` as an interface with its documented behaviour;
--     Keys the names that src/scheduler.ts and src/scheduler-jobid.ts build; Dispatch the claim of a
--     slot, `dispatch` and `dispatchOrMarkFailed`; Ticks the passes `tickUrlMonitors` to
--     `tickQaProjects`; Once, Passes and Accounting their laws; Supervisor the guard and the
--     escalation of `startScheduler`, over the ends of the passes of a tick; Regions `tickRegionStatus`.
--   Transition: `normalizeOutcome`; Probes has `previousStatus` and `maybeAlertOnTransition`, Runs has
--     `maybeAlertOnQaRunTransition`.
--   Alert: src/services/alert-dispatch.ts. Formats and Mail are what an alert says, Dispatch is where it
--     goes; Bound, Reach and Escaped are the laws.
--   Qa: browser-check runs (src/db/repositories/qa-project.repo.ts, src/services/qa-run-closeout.ts,
--     `writeQaAgentResult`, `tickAbandonedQaRuns`).
--     Processor and Services are src/processors/qa-project.processor.ts; Settled, Verdict, Completed and Outcome lead to
--     its law.
--   Heartbeat: src/db/repositories/heartbeat.repo.ts, src/routes/heartbeat-public.ts and
--     `tickHeartbeats`; Rows has lemmas on its table, Soundness, Marks and Pings the invariant under
--     edits, sweeps and pings, Turns, Sweep and Stale the laws.
--   Redaction: src/utils/fetch-errors.ts; Query has the law of the text scan.
--   Results: how a result is written. Agent is `writeAgentResult` with its tails, Probe
--     src/processors/_run-probe.ts with the tcp, udp, db and tls processors, Url the url processor and
--     src/services/url-assertion.ts; Ownership, Attempts and Twice are the laws.
--     Api is src/processors/api-check.processor.ts with its law ApiCalls, Net what the processors give to
--     their probes, and Wire runs the probes on what their sockets run into.
--   Api: src/services/api-assertion.ts; Paths and Isolated are the laws.
--   Agent: the probes of src/agent.ts per kind, and Loop `runAgent`; Alike and Mirrors compare them with
--     the master's processors, Named and Turns are the laws of the loop.
--   Double: the quotient and the product of doubles that the uptime is rounded by.
--   StatusPage: src/services/status-page-aggregator.ts and src/services/exec-projection.ts; Overall,
--     Uptime, Bars and Stalled are the laws.
--   Auth: src/middleware/auth.ts with src/db/repositories/api-key.repo.ts and the revoke route of
--     src/routes/api-keys.ts; Cache and Guards are the laws. The hashes of the platform are a record.
--   Incident: src/services/incident-render.ts; Tags has the lemmas on tags, Rendered the law.
--   Probes: Tcp, Udp, Db and Tls are src/services/tcp-probe.ts, udp-probe.ts, db-probe.ts and tls-probe.ts
--     as machines over the events of a socket; Tcp/Banner, Udp/Replies, Tls/Judged, Tcp/Closed
--     and Quiet the laws.
--   Payload: `parseHexPayload` of src/services/udp-probe.ts; Hex is its round trip.
--   Email: src/utils/email.ts; Shape is its law.
--   Tests: concrete runs.
--
-- Choices of the model:
--   Numbers are naturals; times are milliseconds. A pass reads the clock once. The tables of
--   executions of the kinds of monitor are one list whose rows name their kind, with one counter of
--   ids. The newest row of an `ORDER BY start_time DESC LIMIT 1` is, among equal times, the one
--   written last. `toUpperCase` and `toLowerCase` are ASCII, and a character of a literal is one code
--   unit. A `SET` that throws leaves its key alone. BullMQ is the log of the jobs that `queue.add`
--   adds, which are none where it holds a job of the id, and it runs a job again after a throw until its attempts are used up. What belongs to the platform is a
--   record or an argument: `URL` with the operations that the source calls, the values of JSON with the
--   coercions of `==`, `Number` and `String`, JSONPath, the decoder of UTF-8, dates, regular
--   expressions. The scan of a text runs with the length of the text as its bound, since each step takes
--   a character. What the calls of `maybeAlertOnTransition` and `emit` are given is logged, newest first,
--   and so are the requests for the channels of an alert. A query that throws is the failing tick of
--   Supervisor, and a field of Qa.Services. The tests of a browser-check run start in the
--   order of the job and end in any order. The names of headers are none of Object.prototype. Intervals
--   are at least 1 where a theorem says so. The database session is taken to be in UTC.
--
-- Not modelled: the dashboard (src/ui), the HTTP server and its routing, the sessions of users, object
-- storage, backup and import, the SQL schema and its migrations: they are interface, glue or input and
-- output. Of the agent: browser checks (src/agent-qa.ts) and the requests to the master; of browser
-- checks: the report of Playwright; of alerts: the SMTP transport and the routes of channels.

pub mod Prelude
pub mod Text
pub mod Db
pub mod Agent
pub mod Alert
pub mod Api
pub mod Auth
pub mod Double
pub mod Email
pub mod Heartbeat
pub mod Incident
pub mod Payload
pub mod Probes
pub mod Qa
pub mod Redaction
pub mod Results
pub mod Scheduler
pub mod StatusPage
pub mod Tests
pub mod Transition
