-- ===== src/Control/Schemas.antt =====
-- mandateflow-client.ts: the schemas of the answers of the control plane.
use mandate_flow.Base.{[], ◌∷◌}
use mandate_flow.Control.{
  Schema, any_text, nonempty, integer, nonnegative, any_boolean, one_of, nullable, array_of, strict,
  Shape, no_more, ◌&◌, required, optional,
}

abbrev pub principal : Schema
principal = one_of ("user-a" ∷ "user-b" ∷ [])

abbrev pub decision : Schema
decision = one_of ("ALLOW" ∷ "DENY" ∷ [])

abbrev pub provenance_decision : Schema
provenance_decision = one_of ("ALLOW" ∷ "DENY" ∷ "NOT_EVALUATED" ∷ [])

abbrev pub summary_status : Schema
summary_status = one_of ("ACTIVE" ∷ "REVOKED" ∷ "CLOSED" ∷ [])

abbrev pub outcome : Schema
outcome = one_of ("SUCCEEDED" ∷ "FAILED" ∷ "NOT_INVOKED" ∷ [])

abbrev pub texts : Schema
texts = array_of any_text

-- An entry of `grantedPermissions`.
abbrev pub permission_shape : Shape
permission_shape =
    required "tool" any_text
    & required "action" any_text
    & required "resourceKind" any_text
    & no_more

abbrev pub permission_schema : Schema
permission_schema = strict permission_shape

-- `prepareResultSchema`
abbrev pub prepare_result_shape : Shape
prepare_result_shape =
    required "runGrantId" nonempty
    & required "policyContextId" nonempty
    & required "grantFingerprint" nonempty
    & required "capabilityFingerprint" nonempty
    & required "mandateId" nonempty
    & required "ownerPrincipal" principal
    & required "agentPrincipal" nonempty
    & required "issuedAt" nonempty
    & required "status" (one_of ("PREPARED" ∷ "ACTIVE" ∷ []))
    & required "expiresAt" nonempty
    & required "grantedPermissions" (array_of permission_schema)
    & no_more

-- `lifecycleResultSchema`
abbrev pub lifecycle_result_shape : Shape
lifecycle_result_shape =
    required "runId" nonempty
    & required "status" nonempty
    & required "expiresAt" nonempty
    & optional "terminalAt" nonempty
    & no_more

-- `receiptSchema`
abbrev pub receipt_shape : Shape
receipt_shape =
    required "id" any_text
    & required "createdAt" any_text
    & required "runId" any_text
    & required "policyContextId" any_text
    & required "runGrantId" any_text
    & required "tool" any_text
    & required "action" any_text
    & required "resourceKind" any_text
    & required "decision" decision
    & required "staticScopeDecision" decision
    & required "provenanceDecision" provenance_decision
    & required "enforcementStage" (one_of ("PRE_EXECUTION" ∷ []))
    & required "outcome" outcome
    & required "downstreamInvoked" any_boolean
    & required "ruleId" (nullable any_text)
    & required "reason" any_text
    & required "causedByReceiptIds" texts
    & required "inputReferenceAliases" texts
    & required "redactedInputSummary" any_text
    & required "redactedResultSummary" any_text
    & required "counterBefore" integer
    & required "counterAfter" integer
    & required "policyId" any_text
    & required "policyVersion" integer
    & no_more

abbrev pub receipt_schema : Schema
receipt_schema = strict receipt_shape

-- `evidenceSchema`
abbrev pub evidence_shape : Shape
evidence_shape =
    required "runId" any_text
    & required "policyContextId" any_text
    & required "runGrantId" any_text
    & optional "retryOfRunId" (nullable any_text)
    & required "runtimeInstanceId" any_text
    & required "runStatus" any_text
    & required "purposeId" any_text
    & required "policyId" any_text
    & required "policyVersion" integer
    & required "grantFingerprint" any_text
    & required "capabilityFingerprint" any_text
    & required "crmCounter" nonnegative
    & required "receipts" (array_of receipt_schema)
    & required "mandateId" nonempty
    & required "mandateStatus" nonempty
    & required "ownerPrincipal" principal
    & required "agentPrincipal" nonempty
    & required "issuedAt" nonempty
    & required "expiresAt" nonempty
    & optional "revokedAt" any_text
    & optional "revokedBy" any_text
    & optional "revocationReason" any_text
    & no_more

-- `mandateSummarySchema`, before further keys
abbrev pub summary_before : Shape → Shape
summary_before rest =
    required "mandateId" nonempty
    & required "status" summary_status
    & required "ownerPrincipal" principal
    & required "agentPrincipal" nonempty
    & required "policyContextId" nonempty
    & required "purposeId" nonempty
    & required "policyId" nonempty
    & required "policyVersion" integer
    & required "grantedPermissions" (array_of permission_schema)
    & required "issuedAt" nonempty
    & required "expiresAt" nonempty
    & required "mandateFingerprint" nonempty
    & optional "revokedAt" any_text
    & optional "revokedBy" any_text
    & optional "revocationReason" any_text
    & rest

abbrev pub mandate_summary_shape : Shape
mandate_summary_shape = summary_before no_more

-- `revokeResultSchema`
abbrev pub revoke_result_shape : Shape
revoke_result_shape = summary_before (required "affectedRunIds" texts & no_more)
