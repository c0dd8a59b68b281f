-- ===== src/Service/Changes.antt =====
-- agent-service.ts: the changes that an execution makes to the data, one for each `mutate` of
-- `executeRun`, and the request to the control plane.
use Prim.Native.String
use mandate_flow.Base.{
  ℕ, String, Bool, not, ◌&&◌, ◌==◌, none, some, List, [], ◌∷◌, find, filter, push, latest, truthy,
  same, or_else, take_units, if◌then◌else◌,
}
use mandate_flow.Model.{
  Agent, AgentStatus, ready, AgentRun, RunStatus, Message, MessageRole, MandateStatus, Database,
  RunnerProgressEvent, RunProgressStage, RuntimeSessionEventKind, RuntimeSessionEventState,
  RunnerResult, MandatePermission, MandatePrepareRequest, MandatePrepareResult, Mode, is_active,
  is_completed, is_stopped,
}
use mandate_flow.Config.{AppConfig, container, fixture, local_process}
use mandate_flow.Container.{container_name}
use mandate_flow.Session.{Redaction, create_runner_progress_event}
use mandate_flow.Service.Progress.{add_run_progress}
use mandate_flow.Service.Store.{Answer, agent_is, run_is, modify_agent, modify_run}

-- The literals of the source: a title that is its label too.
abbrev pub progress_of :
    RunProgressStage
    → RuntimeSessionEventKind
    → RuntimeSessionEventState
    → String
    → String
    → RunnerProgressEvent
progress_of stage kind state title detail =
    create_runner_progress_event stage kind state title detail none

-- `MANDATE_PERMISSIONS` of mandateflow-client.ts
abbrev pub mandate_permissions : List MandatePermission
mandate_permissions =
    record { tool = "support.list_tickets"; action = "read"; resource_kind = "support-ticket" }
    ∷ record { tool = "payments.list_failures"; action = "read"; resource_kind = "payment-failure" }
    ∷ record { tool = "cases.lookup_subject"; action = "derive"; resource_kind = "operations-case" }
    ∷ record { tool = "crm.resolve_customer"; action = "read"; resource_kind = "customer-profile" }
    ∷ record {
      tool = "payments.aggregate_failures";
      action = "aggregate";
      resource_kind = "payment-summary";
    }
    ∷ []

abbrev predecessor_of : Agent → AgentRun → AgentRun → Bool
predecessor_of agent run candidate =
    not (candidate.id == run.id)
    && (candidate.agent_id == run.agent_id)
    && is_completed candidate.status
    && same candidate.policy_context_id agent.active_policy_context_id

runtime_instance : AppConfig → String → String
runtime_instance config run_id = elim config.runtime_provider [
  | container ↦ container_name run_id config.runtime_instance_id
  | fixture ↦ String.◌++◌ "fixture-runtime-" (take_units 12 run_id)
  | local_process ↦ String.◌++◌ "local-process-" (take_units 12 run_id)
]

-- What `prepare` is asked, from a snapshot of the data.
pub prepare_request : AppConfig → Answer → Agent → AgentRun → Database → MandatePrepareRequest
unfolding runtime_instance
prepare_request config answer agent run snapshot = record {
  agent_id = agent.id;
  owner_principal = agent.owner_principal;
  runtime_instance_id = runtime_instance config run.id;
  mode =
      if truthy run.retry_of_run_id
      then Mode.retry
      else if truthy agent.active_policy_context_id
      then Mode.follow_up
      else Mode.new;
  policy_context_id = agent.active_policy_context_id;
  predecessor_run_id =
      elim (latest (λ c. c.created_at) (filter (predecessor_of agent run) snapshot.runs)) [
        | none ↦ none
        | some predecessor ↦ some predecessor.id
      ];
  retry_of_run_id = run.retry_of_run_id;
  requested_permissions = mandate_permissions;
  capability_sha256 = answer.capability_sha256;
}

-- The mutation after `prepare`: nothing is stored unless both the Run and its Agent are there.
abbrev granted : MandatePrepareResult → Agent → AgentRun → AgentRun
granted grant agent run = record run {
  policy_context_id = some grant.policy_context_id;
  run_grant_id = some grant.run_grant_id;
  mandate_id = grant.mandate_id;
  owner_principal = some (or_else grant.owner_principal agent.owner_principal);
  agent_principal = some (or_else grant.agent_principal agent.agent_principal);
  capability_fingerprint = some grant.capability_fingerprint;
  grant_fingerprint = some grant.grant_fingerprint;
}

abbrev in_context : String → Agent → Agent
in_context context agent = record agent { active_policy_context_id = some context }

unfoldable pub record_grant : AgentRun → MandatePrepareResult → Database → Database
record_grant run grant database = elim (find (run_is run.id) database.runs) [
  | none ↦ database
  | some stored ↦ elim (find (agent_is run.agent_id) database.agents) [
    | none ↦ database
    | some agent ↦
        modify_run run.id (granted grant agent)
          (modify_agent run.agent_id (in_context grant.policy_context_id) database)
  ]
]

abbrev pub now_running : Bool → ℕ → AgentRun → AgentRun
now_running enabled now run = record run {
  status = RunStatus.running;
  mandate_status = if enabled then MandateStatus.active else MandateStatus.closed;
  started_at = some now;
}

unfoldable pub mark_running : Bool → String → ℕ → Database → Database
mark_running enabled run_id now database = modify_run run_id (now_running enabled now) database

abbrev now_finalizing : AgentRun → AgentRun
now_finalizing run = record run { mandate_status = MandateStatus.finalizing }

unfoldable pub mark_finalizing : String → Database → Database
mark_finalizing run_id database = modify_run run_id now_finalizing database

module _ (config : AppConfig) (r : Redaction) where
  abbrev progressed : Answer → RunnerProgressEvent → AgentRun → AgentRun
  progressed answer event run =
      if is_active run.status then add_run_progress r answer.uuid answer.now run event else run

  -- `queueRunProgress`: an error of the write is swallowed, and a Run that has ended takes no more.
  unfoldable pub queue_run_progress : Answer → String → RunnerProgressEvent → Database → Database
  queue_run_progress answer run_id event database =
      if answer.persisted then modify_run run_id (progressed answer event) database else database

  abbrev redacted : String → String
  redacted text = r.redact_runtime_text text (config.groq_api_key ∷ [])

  abbrev pub completed_run : Answer → RunnerResult → AgentRun → AgentRun
  completed_run answer result run =
      add_run_progress r answer.uuid answer.now
        (record run {
          status = RunStatus.completed;
          output = some (redacted result.output);
          usage = result.usage;
          completed_at = some answer.now;
          runtime_instance_id = some result.runtime_instance_id;
          mandate_status = MandateStatus.closed;
        })
        (progress_of RunProgressStage.complete RuntimeSessionEventKind.status
          RuntimeSessionEventState.completed "Run complete"
          "The Agent returned a result and the secure Run was closed.")

  abbrev reply : Answer → RunnerResult → String → Agent → Message
  reply answer result run_id agent = record {
    id = answer.message_uuid;
    agent_id = agent.id;
    run_id = run_id;
    role = MessageRole.assistant;
    content = redacted result.output;
    created_at = answer.now;
  }

  abbrev pub rested : Answer → RunnerResult → Agent → Agent
  rested answer result agent = record agent {
    status = ready;
    codex_thread_id = result.thread_id;
    last_error = none;
    updated_at = answer.now;
  }

  abbrev with_messages : List Message → Database → Database
  with_messages messages database = record database { messages = messages }

  -- The mutation of a Run that succeeded.
  unfoldable pub complete_run : Answer → RunnerResult → String → String → Database → Database
  complete_run answer result run_id agent_id database = elim (find (run_is run_id) database.runs) [
    | none ↦ database
    | some stored ↦ elim (find (agent_is agent_id) database.agents) [
      | none ↦ database
      | some agent ↦ with_messages (push database.messages (reply answer result run_id agent)) (
          modify_run run_id (completed_run answer result)
            (modify_agent agent_id (rested answer result) database))
    ]
  ]

  abbrev end_event : Bool → RunnerProgressEvent
  end_event cancelled =
      if cancelled
      then progress_of RunProgressStage.cancelled RuntimeSessionEventKind.status
          RuntimeSessionEventState.cancelled "Run cancelled"
          "The Runtime stopped before completing this request."
      else progress_of RunProgressStage.error RuntimeSessionEventKind.error
          RuntimeSessionEventState.failed "Run failed"
          "The Runtime could not complete this request. Review the error above and try again."

  abbrev pub ended_run : Answer → Bool → Bool → String → ℕ → AgentRun → AgentRun
  ended_run answer cancelled pending message completed_at run =
      add_run_progress r answer.uuid answer.now
        (record run {
          status = if cancelled then RunStatus.cancelled else RunStatus.failed;
          error = some message;
          completed_at = some completed_at;
          mandate_status =
              if pending then MandateStatus.security_finalization_pending else MandateStatus.closed;
        })
        (end_event cancelled)

  abbrev pub ended_agent : Bool → String → ℕ → Agent → Agent
  ended_agent cancelled message completed_at agent = record agent {
    status =
        if is_stopped agent.status
        then agent.status
        else if cancelled
        then ready
        else AgentStatus.error;
    last_error = if cancelled then none else some message;
    updated_at = completed_at;
  }

  -- The mutation of a Run that was cancelled or failed.
  unfoldable pub fail_run :
      Answer → Bool → Bool → String → ℕ → String → String → Database → Database
  fail_run answer cancelled pending message completed_at run_id agent_id database =
      modify_run run_id (ended_run answer cancelled pending message completed_at)
        (modify_agent agent_id (ended_agent cancelled message completed_at) database)
