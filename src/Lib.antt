-- ===== src/Lib.antt =====
-- MandateFlow: the server of the Agent Launchpad (CodeJam/apps/server/src), and of the browser's
-- side (CodeJam/apps/web/src) its requests and its view of a proof.
--
-- The server keeps Agents, their messages and their Runs in one JSON file. A Run is admitted by
-- `createRun` (Service.Runs), executed by `executeRun` (Service.Execution), which asks the control
-- plane for a grant before it starts a Runtime and ends the grant afterwards, and leaves a bounded
-- activity log (Service.Progress). What could not be ended is stored as pending and ended later
-- (Service.Finalization); a mandate can be revoked at any time (Service.Revocation).
--
-- Files and code:
--   Base: arrays, texts and numbers as the code uses them. An index of -1 is `none`.
--   Model: types.ts and errors.ts. A point in time is a number.
--   Config, Container: config.ts (the key test; in Config.Guards the tests of loadConfig),
--     container-codex-runner.ts (containerName).
--   Session: runtime-session.ts. The redaction of trace.ts and the path filter are a record,
--     `Redaction`, that every operation takes as a parameter.
--   Proof: proof-validation.ts. Proof.Choreography states what the receipts must show.
--   Service: agent-service.ts. Service.Store has store.ts's `mutate`: a mutation is a function from a
--     database to a result, and `Answer` is what a wait brings in from outside (the clock, fresh
--     identifiers, whether the file was written, whether the call resolved and with what).
--     Service.Queries has the methods that only read. Service.Migration is the start of store.ts, over
--     JSON; with Session.Migration for the events.
--   Json, Codex: codex-runner.ts, parseCodexEventLine over what JSON.parse makes of each line.
--   Runner: codex-runner.ts and container-codex-runner.ts, from the chunks of a process to the result
--     of its run. A chunk is its bytes; the decoder, JSON.parse and the exit are arguments.
--     Runner.Environment is the environment of the process.
--   Fixture: fixture-runner.ts. `Outside` is the MCP gateway, the disk and the clock;
--     Fixture.Transcript writes down the calls of tools as any gateway answers them, by the rules of
--     `Recording` in Fixture.Receipts, and
--     Fixture.Ends is a postcondition of a step with a rule for each way to build one.
--   Http: app.ts. The path comes divided into the segments behind /api, decoded, as the router
--     matches it, beside the raw URL, which the access test reads.
--   Groq: groq-responses.ts, the requests that are passed on, and their repetition after a 429.
--   Control: mandateflow-client.ts. zod's schemas are data; Control.Taken has the types that the code
--     takes an answer for.
--   Web: apps/web/src/proof.ts, the rows that the browser shows, and api.ts, its requests (Web.Api).
--     Web.Api.Paths states what the router does with a URL (`Router`), and Web.Api.Served joins the
--     browser and the server of Http. Web.Console is the state of App.tsx, with an event for the code
--     between two waits; Web.Console.Shown lists the events.
--   Tests: the theorems at concrete inputs.
--
-- Interleaving: `executeRun` is a machine whose stages are the places where the function waits, and
-- `advance` is what it does from the answer to the next wait. Service.Execution.Steps gives every
-- step its own answer and its own shared data, so that the other handlers may have changed
-- anything in between.
--
-- Bounds: 80 events in a log, three attempts at ending a grant (after 0, 100 and 300 ms), which are
-- the fuel of the stages `finishing` and `terminating`; four calls of `fetch` in the Groq proxy,
-- the fuel of `fetch_upstream`.
--
-- Not modelled: Fastify and its plugins, the file system, how the Runtimes' processes start and end,
-- the environment schema, the browser's forms and markup, the control plane (middleware/mandateflow, in
-- Go), whose answers are arguments. Of receipts and evidence the fields that a decision reads are there.
pub mod Base
pub mod Model
pub mod Proof
pub mod Config
pub mod Container
pub mod Session
pub mod Json
pub mod Groq
pub mod Codex
pub mod Runner
pub mod Fixture
pub mod Control
pub mod Service
pub mod Http
pub mod Web
pub mod Tests
