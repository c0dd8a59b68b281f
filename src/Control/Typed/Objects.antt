-- ===== src/Control/Typed/Objects.antt =====
-- mandateflow-client.ts: an object that passes its schema is of the type that it is taken for.
use mandate_flow.Base.{◌≡◌, refl, true}
use mandate_flow.Model.{MandatePrepareResult}
use mandate_flow.Json.{Fields}
use mandate_flow.Control.{
  any_text, nonempty, integer, any_boolean, nullable, array_of, Shape, ◌&◌, no_more, required,
  accepts_keys,
}
use mandate_flow.Control.Schemas.{
  principal, outcome, summary_status, decision, provenance_decision, permission_shape,
  permission_schema, prepare_result_shape, receipt_shape, receipt_schema, evidence_shape,
  summary_before, revoke_result_shape, texts,
}
use mandate_flow.Control.Taken.{
  MandateSummary, owners, decisions, provenance_decisions, outcomes, summary_statuses,
  permission_of, prepare_result_of, receipt_of, evidence_of, mandate_summary_of, affected_of,
  revocation_of,
}
use mandate_flow.Control.Typed.Keys.{at, given_at, null_at, text_at, named_at, perhaps_text_at}
use mandate_flow.Control.Typed.Reading.{
  Gives, Some, Given, Nonempty, some-Gives, chain, Reads-text, Reads-nonempty, Reads-integer,
  Reads-boolean, Reads-one_of, Reads-nullable, Reads-list, Reads-fields,
}

module _ (fields : Fields) (h : accepts_keys permission_shape fields ≡ true) where
  pub permission_of-Gives : Gives Some (permission_of fields)
  unfolding permission_of
  permission_of-Gives = chain (text_at permission_shape fields h "tool" refl) (λ tool tool_holds.
      chain (text_at permission_shape fields h "action" refl) (λ action action_holds.
        chain (text_at permission_shape fields h "resourceKind" refl)
          (λ kind kind_holds. some-Gives _ tt)))

-- A grant is named, and it says whose mandate it is under.
pub record IsGrant (r : MandatePrepareResult) : Type 0 where
  pub grant : Nonempty r.run_grant_id
  pub context : Nonempty r.policy_context_id
  pub fingerprint : Nonempty r.grant_fingerprint
  pub capability : Nonempty r.capability_fingerprint
  pub mandate : Given Nonempty r.mandate_id
  pub owned : Given Some r.owner_principal
  pub agent : Given Nonempty r.agent_principal

module _ (fields : Fields) (h : accepts_keys prepare_result_shape fields ≡ true) where
  pub prepare_result_of-Gives : Gives IsGrant (prepare_result_of fields)
  unfolding prepare_result_of
  prepare_result_of-Gives =
      chain (named_at prepare_result_shape fields h "runGrantId" refl) (λ grant grant_holds.
        chain (named_at prepare_result_shape fields h "policyContextId" refl)
          (λ context context_holds.
            chain (named_at prepare_result_shape fields h "grantFingerprint" refl)
              (λ fingerprint fingerprint_holds.
                chain (named_at prepare_result_shape fields h "capabilityFingerprint" refl)
                  (λ capability capability_holds.
                    chain
                      (given_at prepare_result_shape fields h "mandateId" nonempty refl
                        Reads-nonempty)
                      (λ mandate mandate_holds.
                        chain
                          (given_at prepare_result_shape fields h "ownerPrincipal" principal refl
                            (Reads-one_of owners))
                          (λ owned owned_holds.
                            chain
                              (given_at prepare_result_shape fields h "agentPrincipal" nonempty refl
                                Reads-nonempty)
                              (λ agent agent_holds. some-Gives _ (record {
                                grant = grant_holds;
                                context = context_holds;
                                fingerprint = fingerprint_holds;
                                capability = capability_holds;
                                mandate = mandate_holds;
                                owned = owned_holds;
                                agent = agent_holds;
                              }))))))))

module _ (fields : Fields) (h : accepts_keys receipt_shape fields ≡ true) where
  receipt_of-Gives : Gives Some (receipt_of fields)
  unfolding receipt_of
  receipt_of-Gives = chain (text_at receipt_shape fields h "id" refl) (λ id id_holds.
      chain (text_at receipt_shape fields h "runId" refl) (λ run_id run_id_holds.
        chain (text_at receipt_shape fields h "tool" refl) (λ tool tool_holds.
          chain (at receipt_shape fields h "decision" decision refl (Reads-one_of decisions))
            (λ verdict verdict_holds.
              chain
                (at receipt_shape fields h "staticScopeDecision" decision refl
                  (Reads-one_of decisions))
                (λ scope scope_holds.
                  chain
                    (at receipt_shape fields h "provenanceDecision" provenance_decision refl
                      (Reads-one_of provenance_decisions))
                    (λ provenance provenance_holds.
                      chain
                        (at receipt_shape fields h "outcome" outcome refl (Reads-one_of outcomes))
                        (λ ending ending_holds.
                          chain
                            (at receipt_shape fields h "downstreamInvoked" any_boolean refl
                              Reads-boolean)
                            (λ invoked invoked_holds.
                              chain
                                (at receipt_shape fields h "ruleId" (nullable any_text) refl
                                  (Reads-nullable any_text Reads-text))
                                (λ rule rule_holds.
                                  chain
                                    (at receipt_shape fields h "counterBefore" integer refl
                                      Reads-integer)
                                    (λ before before_holds.
                                      chain
                                        (at receipt_shape fields h "counterAfter" integer refl
                                          Reads-integer)
                                        (λ after after_holds. some-Gives _ tt)))))))))))

module _ (fields : Fields) (h : accepts_keys evidence_shape fields ≡ true) where
  pub evidence_of-Gives : Gives Some (evidence_of fields)
  unfolding evidence_of
  evidence_of-Gives = chain (text_at evidence_shape fields h "runId" refl) (λ run_id run_id_holds.
      chain (null_at evidence_shape fields h "retryOfRunId" any_text refl Reads-text)
        (λ retry retry_holds.
          chain (text_at evidence_shape fields h "runStatus" refl) (λ status status_holds.
            chain
              (at evidence_shape fields h "receipts" (array_of receipt_schema) refl
                (Reads-list receipt_schema (Reads-fields receipt_shape receipt_of-Gives)))
              (λ receipts receipts_holds. some-Gives _ tt))))

-- A summary names its mandate, its Agent, its policy and its times.
pub record IsMandate (m : MandateSummary) : Type 0 where
  pub mandate : Nonempty m.mandate_id
  pub agent : Nonempty m.agent_principal
  pub context : Nonempty m.policy_context_id
  pub purpose : Nonempty m.purpose_id
  pub policy : Nonempty m.policy_id
  pub issued : Nonempty m.issued_at
  pub expires : Nonempty m.expires_at
  pub fingerprint : Nonempty m.mandate_fingerprint

module _ (rest : Shape) (fields : Fields)
    (h : accepts_keys (summary_before rest) fields ≡ true) where
  pub mandate_summary_of-Gives : Gives IsMandate (mandate_summary_of fields)
  unfolding mandate_summary_of
  mandate_summary_of-Gives =
      chain (named_at (summary_before rest) fields h "mandateId" refl) (λ mandate mandate_holds.
        chain
          (at (summary_before rest) fields h "status" summary_status refl
            (Reads-one_of summary_statuses))
          (λ state state_holds.
            chain
              (at (summary_before rest) fields h "ownerPrincipal" principal refl
                (Reads-one_of owners))
              (λ owned owned_holds.
                chain (named_at (summary_before rest) fields h "agentPrincipal" refl)
                  (λ agent agent_holds.
                    chain (named_at (summary_before rest) fields h "policyContextId" refl)
                      (λ context context_holds.
                        chain (named_at (summary_before rest) fields h "purposeId" refl)
                          (λ purpose purpose_holds.
                            chain (named_at (summary_before rest) fields h "policyId" refl)
                              (λ policy policy_holds.
                                chain
                                  (at (summary_before rest) fields h "policyVersion" integer refl
                                    Reads-integer)
                                  (λ version version_holds.
                                    chain
                                      (at (summary_before rest) fields h "grantedPermissions"
                                        (array_of permission_schema) refl
                                        (Reads-list permission_schema
                                          (Reads-fields permission_shape permission_of-Gives)))
                                      (λ permissions permissions_holds.
                                        chain
                                          (named_at (summary_before rest) fields h "issuedAt" refl)
                                          (λ issued issued_holds.
                                            chain
                                              (named_at (summary_before rest) fields h "expiresAt"
                                                refl)
                                              (λ expires expires_holds.
                                                chain
                                                  (named_at (summary_before rest) fields h
                                                    "mandateFingerprint" refl)
                                                  (λ fingerprint fingerprint_holds.
                                                    chain
                                                      (perhaps_text_at (summary_before rest) fields
                                                        h "revokedAt" refl)
                                                      (λ revoked_at revoked_at_holds.
                                                        chain
                                                          (perhaps_text_at (summary_before rest)
                                                            fields h "revokedBy" refl)
                                                          (λ revoked_by revoked_by_holds.
                                                            chain
                                                            (perhaps_text_at (summary_before rest)
                                                            fields h "revocationReason" refl)
                                                            (λ reason reason_holds.
                                                            some-Gives _ (record {
                                                            mandate = mandate_holds;
                                                            agent = agent_holds;
                                                            context = context_holds;
                                                            purpose = purpose_holds;
                                                            policy = policy_holds;
                                                            issued = issued_holds;
                                                            expires = expires_holds;
                                                            fingerprint = fingerprint_holds;
                                                            }))))))))))))))))

module _ (fields : Fields) (h : accepts_keys revoke_result_shape fields ≡ true) where
  pub revocation_of-Gives : Gives (λ r. IsMandate r.0) (revocation_of fields)
  unfolding revocation_of affected_of
  revocation_of-Gives =
      chain (mandate_summary_of-Gives (required "affectedRunIds" texts & no_more) fields h)
        (λ mandate holds.
          chain
            (at revoke_result_shape fields h "affectedRunIds" texts refl
              (Reads-list any_text Reads-text))
            (λ affected _. some-Gives (mandate, affected) holds))
