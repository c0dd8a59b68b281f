-- ===== src/Model/Data.antt =====
-- types.ts: Agents, messages, Runs and the database that holds them.
use mandate_flow.Base.{ℕ, String, Option, List, Bool, true, false}
use mandate_flow.Model.Session.{RuntimeSessionEvent}

pub data AgentStatus : Type 0 where
  ready busy stopped error : AgentStatus

pub data RunStatus : Type 0 where
  queued running completed failed cancelled : RunStatus

pub data MessageRole : Type 0 where
  user assistant : MessageRole

pub data MandateStatus : Type 0 where
  pending active finalizing closed revoked security_finalization_pending : MandateStatus

pub data DemoOwnerPrincipal : Type 0 where
  user_a user_b : DemoOwnerPrincipal

pub record Agent : Type 0 where
  pub id : String
  pub name : String
  pub description : String
  pub instructions : String
  pub status : AgentStatus
  pub owner_principal : DemoOwnerPrincipal
  pub agent_principal : String
  pub codex_home_version : ℕ
  pub workspace_path : String
  pub codex_thread_id : Option String
  pub active_policy_context_id : Option String
  pub last_error : Option String
  pub created_at : ℕ
  pub updated_at : ℕ

pub record Message : Type 0 where
  pub id : String
  pub agent_id : String
  pub run_id : String
  pub role : MessageRole
  pub content : String
  pub created_at : ℕ

pub record RunUsage : Type 0 where
  pub input_tokens : Option ℕ
  pub cached_input_tokens : Option ℕ
  pub output_tokens : Option ℕ

pub record AgentRun : Type 0 where
  pub id : String
  pub agent_id : String
  pub status : RunStatus
  pub prompt : String
  pub output : Option String
  pub error : Option String
  pub usage : Option RunUsage
  pub started_at : Option ℕ
  pub completed_at : Option ℕ
  pub policy_context_id : Option String
  pub run_grant_id : Option String
  pub mandate_id : Option String
  pub owner_principal : Option DemoOwnerPrincipal
  pub agent_principal : Option String
  pub retry_of_run_id : Option String
  pub mandate_status : MandateStatus
  pub capability_fingerprint : Option String
  pub grant_fingerprint : Option String
  pub runtime_instance_id : Option String
  pub progress : List RuntimeSessionEvent
  pub created_at : ℕ

-- The version is 4 throughout, and is left out.
pub record Database : Type 0 where
  pub agents : List Agent
  pub messages : List Message
  pub runs : List AgentRun

pub record CreateAgentInput : Type 0 where
  pub name : String
  pub owner_principal : Option DemoOwnerPrincipal
  pub description : Option String
  pub instructions : Option String

pub record UpdateAgentInput : Type 0 where
  pub name : Option String
  pub description : Option String
  pub instructions : Option String

pub record RunnerResult : Type 0 where
  pub output : String
  pub thread_id : Option String
  pub usage : Option RunUsage
  pub runtime_instance_id : String

abbrev pub is_busy : AgentStatus → Bool
is_busy busy = true
is_busy _ = false

abbrev pub is_stopped : AgentStatus → Bool
is_stopped stopped = true
is_stopped _ = false

-- `status === "queued" || status === "running"`
abbrev pub is_active : RunStatus → Bool
is_active queued = true
is_active running = true
is_active _ = false

abbrev pub is_completed : RunStatus → Bool
is_completed completed = true
is_completed _ = false

abbrev pub is_pending_finalization : MandateStatus → Bool
is_pending_finalization security_finalization_pending = true
is_pending_finalization _ = false
