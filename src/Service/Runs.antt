-- ===== src/Service/Runs.antt =====
-- agent-service.ts: how a Run is admitted, `createRun` and `retryRun`.
use mandate_flow.Base.{
  ℕ, String, Bool, true, false, not, ◌&&◌, ◌||◌, ◌==◌, Option, none, some, List, [], ◌∷◌, find, any,
  push, truthy, same, codes, lower_codes, includes, if◌then◌else◌,
}
use mandate_flow.Model.{
  Agent, busy, AgentRun, RunStatus, Message, MessageRole, MandateStatus, Database,
  RuntimeSessionEvent, RunProgressStage, RuntimeSessionEventKind, RuntimeSessionEventState,
  PolicyReceipt, Error, http, Result, ok, err, ◌>>=◌, ◌>>◌, throw_if, is_busy, is_stopped,
  is_completed, is_pending_finalization, is_allow, is_provenance_deny,
}
use mandate_flow.Config.{AppConfig, is_fixture, is_groq_configured}
use mandate_flow.Service.Finalization.{Attempt, reconcile}
use mandate_flow.Service.Store.{
  Answer, mutate, agent_is, run_is, found, no_agent, get_agent, get_run, modify_agent,
}

pub fixture_supports_prompt : String → Bool
fixture_supports_prompt prompt =
    let normalized = lower_codes (codes prompt) in
    includes (codes "mandateflow verification workflow") normalized
    || includes (codes "retry only the previously denied") normalized

abbrev pub queued_event : String → String → ℕ → RuntimeSessionEvent
queued_event uuid run_id timestamp = record {
  id = uuid;
  run_id = run_id;
  sequence = 1;
  kind = RuntimeSessionEventKind.status;
  state = RuntimeSessionEventState.started;
  title = "Run queued";
  detail = "Waiting for the secure Agent Runtime to start.";
  stage = RunProgressStage.queued;
  label = "Run queued";
  safe_metadata = none;
  created_at = timestamp;
}

-- `answer.uuid` is the Run's identifier.
unfoldable pub new_run : Answer → String → String → Option String → AgentRun
new_run answer agent_id prompt retry_of_run_id = record {
  id = answer.uuid;
  agent_id = agent_id;
  status = RunStatus.queued;
  prompt = prompt;
  output = none;
  error = none;
  usage = none;
  started_at = none;
  completed_at = none;
  policy_context_id = none;
  run_grant_id = none;
  mandate_id = none;
  owner_principal = none;
  agent_principal = none;
  retry_of_run_id = retry_of_run_id;
  mandate_status = MandateStatus.pending;
  capability_fingerprint = none;
  grant_fingerprint = none;
  runtime_instance_id = none;
  progress = queued_event answer.message_uuid answer.uuid answer.now ∷ [];
  created_at = answer.now;
}

pub new_message : Answer → String → String → Bool → Option Message
new_message answer agent_id prompt create_user_message =
    if create_user_message
    then some (record {
      id = answer.message_uuid;
      agent_id = agent_id;
      run_id = answer.uuid;
      role = MessageRole.user;
      content = prompt;
      created_at = answer.now;
    })
    else none

-- Whether a Run may be retried by an Agent, as the mutation tests it again.
unfoldable pub eligible : Agent → AgentRun → Bool
eligible agent original =
    (original.agent_id == agent.id)
    && is_completed original.status
    && truthy original.policy_context_id
    && same original.policy_context_id agent.active_policy_context_id

abbrev retry_gone : Error
retry_gone = http 409 "Retry source is no longer eligible"

-- A Run whose `retryOfRunId` is null or empty needs no source.
unfoldable pub retry_allowed : Agent → Option String → Database → Bool
unfolding eligible
retry_allowed agent none database = true
retry_allowed agent (some source) database =
    not (truthy (some source)) || (elim (find (run_is source) database.runs) [
      | none ↦ false
      | some original ↦ eligible agent original
    ])

abbrev push_message : Option Message → List Message → List Message
push_message none messages = messages
push_message (some message) messages = push messages message

abbrev pub start_work : ℕ → Agent → Agent
start_work now agent = record agent { status = busy; last_error = none; updated_at = now }

-- The Run and its message are pushed, and the Agent is busy.
abbrev pub admitted : AgentRun → Option Message → ℕ → Database → Database
admitted run message now database = record (modify_agent run.agent_id (start_work now) database) {
  runs = push database.runs run;
  messages = push_message message database.messages;
}

-- The mutation of `createRun`: it returns the Agent as it was.
unfoldable pub admit : AgentRun → Option Message → ℕ → Database → Result (Database × Agent)
admit run message now database = do
  agent ← found (find (agent_is run.agent_id) database.agents) no_agent
  throw_if (is_stopped agent.status) (http 409 "Start the Agent before sending a message")
  throw_if (is_busy agent.status) (http 409 "This Agent is already running")
  throw_if (not (retry_allowed agent run.retry_of_run_id database)) retry_gone
  ok (admitted run message now database, agent)

abbrev pub pending_of : String → AgentRun → Bool
pending_of agent_id run = (run.agent_id == agent_id) && is_pending_finalization run.mandate_status

abbrev pub still_pending : Error
still_pending =
    http 503 "A prior Run capability is still pending terminalization; no new Runtime was started"

abbrev pub no_key : Error
no_key =
    http 503
      "Groq is not configured. Set GROQ_API_KEY in CodeJam/.env; GROQ_MODEL is optional, then restart."

abbrev pub not_a_proof : Error
not_a_proof =
    http 409
      "The deterministic proof profile only runs the MandateFlow proof. Use a Codex Runtime for coding work."

abbrev pub not_ready : Error
not_ready = http 503 "MandateFlow is unavailable; no secure Runtime was started"

abbrev pub test_pending : String → Database × Result (Unit {0}) → Database × Result (Unit {0})
test_pending agent_id (after, err e) = (after, err e)
test_pending agent_id (after, ok _) =
    (after, throw_if (any (pending_of agent_id) after.runs) still_pending)

-- `requireFinalizedAuthority`: the Agent's pending ends are reconciled first, which may write the
-- data; `snapshot` is what the reconciliation has read. The test is on the data after it.
unfoldable pub require_finalized_authority :
    (AgentRun → Attempt) → String → Database → Database → Database × Result (Unit {0})
require_finalized_authority attempts agent_id snapshot database =
    test_pending agent_id (reconcile true attempts (some agent_id) snapshot database)

abbrev pub lacks_key : AppConfig → Bool
lacks_key config = not (is_fixture config.runtime_provider) && not (is_groq_configured config)

abbrev pub lacks_proof : AppConfig → String → Bool
lacks_proof config prompt =
    is_fixture config.runtime_provider && not (fixture_supports_prompt prompt)

-- The tests that read no data; `readiness` is the answer of `ensureMandateFlowReady`.
unfoldable pub start_tests : AppConfig → Bool → String → Result (Unit {0})
start_tests config readiness prompt = do
  throw_if (lacks_key config) no_key
  throw_if (lacks_proof config prompt) not_a_proof
  throw_if (config.mandate_flow_enabled && not readiness) not_ready
  ok tt

-- What `createRun` does before its mutation.
unfoldable pub before_admission :
    AppConfig
    → (AgentRun → Attempt)
    → Bool
    → String
    → String
    → Database
    → Database
    → Database × Result (Unit {0})
unfolding start_tests require_finalized_authority
before_admission config attempts readiness agent_id prompt snapshot database =
    elim (start_tests config readiness prompt) [
      | err e ↦ (database, err e)
      | ok _ ↦
          if config.mandate_flow_enabled
          then require_finalized_authority attempts agent_id snapshot database
          else (database, ok tt)
    ]

-- The mutation, where the tests have passed.
unfoldable pub admit_tested :
    Bool
    → (Database → Result (Database × Agent))
    → (Database → Database)
    → Database × Result (Unit {0})
    → Database × Result Agent
unfolding mutate
admit_tested persisted mutation meanwhile (tested, err e) = (tested, err e)
admit_tested persisted mutation meanwhile (tested, ok _) =
    mutate persisted mutation (meanwhile tested)

-- `createRun` up to the execution's start. What other calls write while it reconciles is taken to come
-- before that or after it. `attempts` are the control plane's answers to the reconciliation, and
-- `meanwhile` is what other calls make of the data before the mutation has its turn.
unfoldable pub create_run :
    AppConfig
    → Answer
    → (AgentRun → Attempt)
    → (Database → Database)
    → String
    → String
    → Option String
    → Bool
    → Database
    → Database
    → Database × Result Agent
unfolding new_run new_message admit admit_tested before_admission
create_run config answer attempts meanwhile agent_id prompt retry create_user_message snapshot
      database =
    admit_tested answer.persisted
      (admit (new_run answer agent_id prompt retry)
        (new_message answer agent_id prompt create_user_message) answer.now)
      meanwhile (before_admission config attempts answer.resolved agent_id prompt snapshot database)

abbrev retryable_denial : String → PolicyReceipt → Bool
retryable_denial run_id receipt =
    (receipt.run_id == run_id)
    && (receipt.tool == "crm.resolve_customer")
    && is_allow receipt.static_scope_decision
    && is_provenance_deny receipt.provenance_decision
    && not receipt.downstream_invoked

-- The tests of `retryRun` before it creates the Run; the evidence is the control plane's.
unfoldable pub retry_source : Bool → Answer → String → Database → Result AgentRun
unfolding get_run get_agent
retry_source client answer run_id snapshot = do
  original ← get_run run_id snapshot
  throw_if (not (is_completed original.status) || not (truthy original.policy_context_id))
      (http 409 "Only a completed MandateFlow Run can be retried")
  agent ← get_agent original.agent_id snapshot
  throw_if
      (not (truthy agent.codex_thread_id)
        || not (same agent.active_policy_context_id original.policy_context_id))
      (http 409 "Retry requires the durable Codex thread and original policy context")
  throw_if (not client) (http 503 "MandateFlow is unavailable")
  throw_if (not answer.resolved) answer.failure
  throw_if (not (any (retryable_denial original.id) answer.evidence.receipts))
      (http 409 "Retry requires a completed Run with a provenance-denied CRM call")
  ok original
