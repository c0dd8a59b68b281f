-- ===== src/Control/Taken.antt =====
-- mandateflow-client.ts: what `as` makes of an answer that has passed its schema, with types.ts for the
-- types. An answer that is none of the type is read as none.
use mandate_flow.Base.{ℤ, pos, String, Bool, ◌==◌, Option, none, some, List, [], ◌∷◌, if◌then◌else◌}
use mandate_flow.Model.{
  DemoOwnerPrincipal, user_a, user_b, MandatePermission, MandatePrepareResult, Decision,
  ProvenanceDecision, ReceiptOutcome, PolicyReceipt, MandateEvidence,
}
use mandate_flow.Json.{
  Json, null, boolean, number, text, array, object, Items, blank, item, Fields, get,
}

infixl 1 ◌>>=◌
unfoldable pub ◌>>=◌ {ℓ κ} : {A : Type ℓ} {B : Type κ} → Option A → (A → Option B) → Option B
none >>= k = none
some a >>= k = k a

-- `MandateSummary`
pub data SummaryStatus : Type 0 where
  active revoked closed : SummaryStatus

pub record MandateSummary : Type 0 where
  pub mandate_id : String
  pub status : SummaryStatus
  pub owner_principal : DemoOwnerPrincipal
  pub agent_principal : String
  pub policy_context_id : String
  pub purpose_id : String
  pub policy_id : String
  pub policy_version : ℤ
  pub granted_permissions : List MandatePermission
  pub issued_at : String
  pub expires_at : String
  pub mandate_fingerprint : String
  pub revoked_at : Option String
  pub revoked_by : Option String
  pub revocation_reason : Option String

abbrev pub read_text : Json → Option String
read_text (text s) = some s
read_text _ = none

abbrev pub read_integer : Json → Option ℤ
read_integer (number n) = some (pos n)
read_integer _ = none

abbrev pub read_boolean : Json → Option Bool
read_boolean (boolean b) = some b
read_boolean _ = none

-- One of the texts that a union of types names, with its meaning.
abbrev pub read_as : {A : Type 0} → List (String × A) → Json → Option A
read_as [] json = none
read_as ((name, a) ∷ names) (text s) = if name == s then some a else read_as names (text s)
read_as (name ∷ names) _ = none

abbrev pub owners : List (String × DemoOwnerPrincipal)
owners = ("user-a", user_a) ∷ ("user-b", user_b) ∷ []

abbrev pub decisions : List (String × Decision)
decisions = ("ALLOW", Decision.allow) ∷ ("DENY", Decision.deny) ∷ []

abbrev pub provenance_decisions : List (String × ProvenanceDecision)
provenance_decisions =
    ("ALLOW", ProvenanceDecision.allow)
    ∷ ("DENY", ProvenanceDecision.deny)
    ∷ ("NOT_EVALUATED", ProvenanceDecision.not_evaluated)
    ∷ []

abbrev pub outcomes : List (String × ReceiptOutcome)
outcomes =
    ("SUCCEEDED", ReceiptOutcome.succeeded)
    ∷ ("FAILED", ReceiptOutcome.failed)
    ∷ ("NOT_INVOKED", ReceiptOutcome.not_invoked)
    ∷ []

abbrev pub summary_statuses : List (String × SummaryStatus)
summary_statuses = ("ACTIVE", active) ∷ ("REVOKED", revoked) ∷ ("CLOSED", closed) ∷ []

abbrev pub read_nullable : {A : Type 0} → (Json → Option A) → Json → Option (Option A)
read_nullable read null = some none
read_nullable read json = read json >>= λ a. some (some a)

abbrev pub read_items : {A : Type 0} → (Json → Option A) → Items → Option (List A)
read_items read blank = some []
read_items read (item json items) =
    read json >>= λ a. read_items read items >>= λ rest. some (a ∷ rest)

abbrev pub read_list : {A : Type 0} → (Json → Option A) → Json → Option (List A)
read_list read (array items) = read_items read items
read_list read _ = none

abbrev pub present : {A : Type 0} → (Json → Option A) → Option Json → Option A
present read none = none
present read (some json) = read json

abbrev pub possible : {A : Type 0} → (Json → Option A) → Option Json → Option (Option A)
possible read none = some none
possible read (some json) = read json >>= λ a. some (some a)

-- `value.retryOfRunId`: the schema has made null of a missing one.
abbrev pub possible_null : {A : Type 0} → (Json → Option A) → Option Json → Option (Option A)
possible_null read none = some none
possible_null read (some json) = read_nullable read json

abbrev pub with_fields : {A : Type 0} → (Fields → Option A) → Json → Option A
with_fields read (object fields) = read fields
with_fields read _ = none

unfoldable pub permission_of : Fields → Option MandatePermission
permission_of fields = do
  tool ← present read_text (get "tool" fields)
  action ← present read_text (get "action" fields)
  resource_kind ← present read_text (get "resourceKind" fields)
  some (record { tool = tool; action = action; resource_kind = resource_kind })

unfoldable pub prepare_result_of : Fields → Option MandatePrepareResult
prepare_result_of fields = do
  run_grant_id ← present read_text (get "runGrantId" fields)
  policy_context_id ← present read_text (get "policyContextId" fields)
  grant_fingerprint ← present read_text (get "grantFingerprint" fields)
  capability_fingerprint ← present read_text (get "capabilityFingerprint" fields)
  mandate_id ← possible read_text (get "mandateId" fields)
  owner_principal ← possible (read_as owners) (get "ownerPrincipal" fields)
  agent_principal ← possible read_text (get "agentPrincipal" fields)
  some (record {
    run_grant_id = run_grant_id;
    policy_context_id = policy_context_id;
    grant_fingerprint = grant_fingerprint;
    capability_fingerprint = capability_fingerprint;
    mandate_id = mandate_id;
    owner_principal = owner_principal;
    agent_principal = agent_principal;
  })

unfoldable pub receipt_of : Fields → Option PolicyReceipt
receipt_of fields = do
  id ← present read_text (get "id" fields)
  run_id ← present read_text (get "runId" fields)
  tool ← present read_text (get "tool" fields)
  decision ← present (read_as decisions) (get "decision" fields)
  static_scope_decision ← present (read_as decisions) (get "staticScopeDecision" fields)
  provenance_decision ← present (read_as provenance_decisions) (get "provenanceDecision" fields)
  outcome ← present (read_as outcomes) (get "outcome" fields)
  downstream_invoked ← present read_boolean (get "downstreamInvoked" fields)
  rule_id ← present (read_nullable read_text) (get "ruleId" fields)
  counter_before ← present read_integer (get "counterBefore" fields)
  counter_after ← present read_integer (get "counterAfter" fields)
  some (record {
    id = id;
    run_id = run_id;
    tool = tool;
    decision = decision;
    static_scope_decision = static_scope_decision;
    provenance_decision = provenance_decision;
    outcome = outcome;
    downstream_invoked = downstream_invoked;
    rule_id = rule_id;
    counter_before = counter_before;
    counter_after = counter_after;
  })

unfoldable pub evidence_of : Fields → Option MandateEvidence
evidence_of fields = do
  run_id ← present read_text (get "runId" fields)
  retry_of_run_id ← possible_null read_text (get "retryOfRunId" fields)
  run_status ← present read_text (get "runStatus" fields)
  receipts ← present (read_list (with_fields receipt_of)) (get "receipts" fields)
  some (record {
    run_id = run_id;
    retry_of_run_id = retry_of_run_id;
    run_status = run_status;
    receipts = receipts;
  })

unfoldable pub mandate_summary_of : Fields → Option MandateSummary
mandate_summary_of fields = do
  mandate_id ← present read_text (get "mandateId" fields)
  status ← present (read_as summary_statuses) (get "status" fields)
  owner_principal ← present (read_as owners) (get "ownerPrincipal" fields)
  agent_principal ← present read_text (get "agentPrincipal" fields)
  policy_context_id ← present read_text (get "policyContextId" fields)
  purpose_id ← present read_text (get "purposeId" fields)
  policy_id ← present read_text (get "policyId" fields)
  policy_version ← present read_integer (get "policyVersion" fields)
  granted_permissions ←
      present (read_list (with_fields permission_of)) (get "grantedPermissions" fields)
  issued_at ← present read_text (get "issuedAt" fields)
  expires_at ← present read_text (get "expiresAt" fields)
  mandate_fingerprint ← present read_text (get "mandateFingerprint" fields)
  revoked_at ← possible read_text (get "revokedAt" fields)
  revoked_by ← possible read_text (get "revokedBy" fields)
  revocation_reason ← possible read_text (get "revocationReason" fields)
  some (record {
    mandate_id = mandate_id;
    status = status;
    owner_principal = owner_principal;
    agent_principal = agent_principal;
    policy_context_id = policy_context_id;
    purpose_id = purpose_id;
    policy_id = policy_id;
    policy_version = policy_version;
    granted_permissions = granted_permissions;
    issued_at = issued_at;
    expires_at = expires_at;
    mandate_fingerprint = mandate_fingerprint;
    revoked_at = revoked_at;
    revoked_by = revoked_by;
    revocation_reason = revocation_reason;
  })

unfoldable pub affected_of : Fields → Option (List String)
affected_of fields = present (read_list read_text) (get "affectedRunIds" fields)

-- The mandate, and the Runs that its revocation affects.
unfoldable pub revocation_of : Fields → Option (MandateSummary × List String)
unfolding mandate_summary_of affected_of
revocation_of fields = do
  mandate ← mandate_summary_of fields
  affected_run_ids ← affected_of fields
  some (mandate, affected_run_ids)
