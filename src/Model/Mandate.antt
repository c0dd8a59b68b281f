-- ===== src/Model/Mandate.antt =====
-- types.ts: what the control plane is asked and what it answers.
use mandate_flow.Base.{ℤ, String, Option, List, Bool, true, false}
use mandate_flow.Model.Data.{DemoOwnerPrincipal}

pub record MandatePermission : Type 0 where
  pub tool : String
  pub action : String
  pub resource_kind : String

pub data Mode : Type 0 where
  new follow_up retry : Mode

-- The template is "morning-ops-v1" throughout, and is left out.
pub record MandatePrepareRequest : Type 0 where
  pub agent_id : String
  pub owner_principal : DemoOwnerPrincipal
  pub runtime_instance_id : String
  pub mode : Mode
  pub policy_context_id : Option String
  pub predecessor_run_id : Option String
  pub retry_of_run_id : Option String
  pub requested_permissions : List MandatePermission
  pub capability_sha256 : String

pub record MandatePrepareResult : Type 0 where
  pub run_grant_id : String
  pub policy_context_id : String
  pub grant_fingerprint : String
  pub capability_fingerprint : String
  pub mandate_id : Option String
  pub owner_principal : Option DemoOwnerPrincipal
  pub agent_principal : Option String

pub data Decision : Type 0 where
  allow deny : Decision

pub data ProvenanceDecision : Type 0 where
  allow deny not_evaluated : ProvenanceDecision

pub data ReceiptOutcome : Type 0 where
  succeeded failed not_invoked : ReceiptOutcome

-- The fields of a receipt that a decision of the server or of the browser reads.
pub record PolicyReceipt : Type 0 where
  pub id : String
  pub run_id : String
  pub tool : String
  pub decision : Decision
  pub static_scope_decision : Decision
  pub provenance_decision : ProvenanceDecision
  pub outcome : ReceiptOutcome
  pub downstream_invoked : Bool
  pub rule_id : Option String
  pub counter_before : ℤ
  pub counter_after : ℤ

-- Of the evidence likewise.
pub record MandateEvidence : Type 0 where
  pub run_id : String
  pub retry_of_run_id : Option String
  pub run_status : String
  pub receipts : List PolicyReceipt

pub data FinishStatus : Type 0 where
  completed failed cancelled abandoned : FinishStatus

abbrev pub is_allow : Decision → Bool
is_allow allow = true
is_allow deny = false

abbrev pub is_deny : Decision → Bool
is_deny allow = false
is_deny deny = true

abbrev pub is_provenance_deny : ProvenanceDecision → Bool
is_provenance_deny deny = true
is_provenance_deny _ = false

abbrev pub is_succeeded : ReceiptOutcome → Bool
is_succeeded succeeded = true
is_succeeded _ = false

abbrev pub is_not_invoked : ReceiptOutcome → Bool
is_not_invoked not_invoked = true
is_not_invoked _ = false
