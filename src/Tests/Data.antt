-- ===== src/Tests/Data.antt =====
-- The data of the tests.
use mandate_flow.Base.{ℕ, zero, suc, String, true, none, some, List, [], ◌∷◌, ℤ, pos}
use mandate_flow.Model.{
  Agent, AgentRun, Database, DemoOwnerPrincipal, ready, MandatePrepareResult, MandateEvidence,
  RunnerResult, PolicyReceipt, Decision, is_allow, ProvenanceDecision, ReceiptOutcome, other,
}
use mandate_flow.Config.{AppConfig, local_process}
use mandate_flow.Session.{Redaction}
use mandate_flow.Service.Store.{Answer}
use mandate_flow.Service.Runs.{new_run}
use mandate_flow.Service.Execution.{Shared}

abbrev pub redaction : Redaction
redaction = record { redact_runtime_text = λ text _. text; safe_workspace_path = λ path. some path }

abbrev pub config : AppConfig
config = record {
  groq_api_key = "gsk_1";
  runtime_provider = local_process;
  runtime_instance_id = "default";
  mandate_flow_enabled = true;
}

abbrev pub agent : Agent
agent = record {
  id = "agent-1";
  name = "Operator";
  description = "";
  instructions = "";
  status = ready;
  owner_principal = DemoOwnerPrincipal.user_a;
  agent_principal = "agent:agent-1";
  codex_home_version = 1;
  workspace_path = "/workspaces/agent-1";
  codex_thread_id = none;
  active_policy_context_id = none;
  last_error = none;
  created_at = 1;
  updated_at = 1;
}

abbrev pub grant : MandatePrepareResult
grant = record {
  run_grant_id = "grant-1";
  policy_context_id = "context-1";
  grant_fingerprint = "f1";
  capability_fingerprint = "f2";
  mandate_id = some "mandate-1";
  owner_principal = none;
  agent_principal = none;
}

abbrev receipt : String → Decision → ProvenanceDecision → ReceiptOutcome → ℤ → ℤ → PolicyReceipt
receipt tool decision provenance outcome before after = record {
  id = "receipt";
  run_id = "run-1";
  tool = tool;
  decision = decision;
  static_scope_decision = Decision.allow;
  provenance_decision = provenance;
  outcome = outcome;
  downstream_invoked = is_allow decision;
  rule_id = none;
  counter_before = before;
  counter_after = after;
}

abbrev call : String → ℤ → ℤ → PolicyReceipt
call tool before after =
    receipt tool Decision.allow ProvenanceDecision.allow ReceiptOutcome.succeeded before after

-- The receipts of the verification workflow.
abbrev pub receipts : List PolicyReceipt
receipts =
    call "support.list_tickets" (pos 0) (pos 0)
    ∷ call "cases.lookup_subject" (pos 0) (pos 0)
    ∷ call "crm.resolve_customer" (pos 0) (pos 1)
    ∷ call "payments.list_failures" (pos 1) (pos 1)
    ∷ call "cases.lookup_subject" (pos 1) (pos 1)
    ∷ receipt "crm.resolve_customer" Decision.deny ProvenanceDecision.deny
        ReceiptOutcome.not_invoked (pos 1) (pos 1)
    ∷ call "payments.aggregate_failures" (pos 1) (pos 1)
    ∷ call "support.list_tickets" (pos 1) (pos 1)
    ∷ call "cases.lookup_subject" (pos 1) (pos 1)
    ∷ call "crm.resolve_customer" (pos 1) (pos 2)
    ∷ []

abbrev pub evidence : MandateEvidence
evidence = record {
  run_id = "run-1";
  retry_of_run_id = none;
  run_status = "COMPLETED";
  receipts = receipts;
}

abbrev pub outcome : RunnerResult
outcome = record {
  output = "Done.";
  thread_id = some "thread-1";
  usage = none;
  runtime_instance_id = "local-process-run-1";
}

-- Everything goes through.
abbrev pub answer : Answer
answer = record {
  now = 2;
  uuid = "run-1";
  message_uuid = "message-1";
  persisted = true;
  resolved = true;
  failure = other "refused";
  grant = grant;
  outcome = outcome;
  evidence = evidence;
  capability_sha256 = "sha";
}

abbrev pub prompt : String
prompt = "Fix the failing test"

abbrev pub run : AgentRun
run = new_run answer "agent-1" prompt none

abbrev pub before : Database
before = record { agents = agent ∷ []; messages = []; runs = [] }

abbrev pub during : Database
during = record { agents = agent ∷ []; messages = []; runs = run ∷ [] }

abbrev pub shared : Shared
shared = record { database = during; cancellation_requests = [] }

abbrev pub repeat {ℓ} : {A : Type ℓ} → ℕ → A → List A
repeat zero a = []
repeat (suc n) a = a ∷ repeat n a
