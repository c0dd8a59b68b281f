-- ===== src/Control/Client.antt =====
-- mandateflow-client.ts: `MandateFlowClient`. The network is a parameter that changes a world of its own.
use Prim.Native.String
use mandate_flow.Base.{String, Bool, false, ◌&&◌, Option, none, some, List, [], ◌∷◌}
use mandate_flow.Model.{
  DemoOwnerPrincipal, user_a, user_b, Mode, MandatePermission, MandatePrepareRequest,
  MandatePrepareResult, MandateEvidence, FinishStatus, completed, failed, cancelled, abandoned,
}
use mandate_flow.Json.{
  Json, null, boolean, text, array, object, Items, blank, item, bare, field, get,
}
use mandate_flow.Control.Schemas.{
  prepare_result_shape, lifecycle_result_shape, evidence_shape, mandate_summary_shape,
  revoke_result_shape,
}
use mandate_flow.Control.Answers.{
  ControlRequest, ControlReply, Answer, request_answer, parsed, is_ok,
}
use mandate_flow.Control.Taken.{
  MandateSummary, prepare_result_of, evidence_of, mandate_summary_of, revocation_of,
}

abbrev owner_json : DemoOwnerPrincipal → Json
owner_json user_a = text "user-a"
owner_json user_b = text "user-b"

abbrev mode_json : Mode → Json
mode_json Mode.new = text "NEW"
mode_json Mode.follow_up = text "FOLLOW_UP"
mode_json Mode.retry = text "RETRY"

abbrev nullable_json : Option String → Json
nullable_json none = null
nullable_json (some s) = text s

abbrev permission_items : List MandatePermission → Items
permission_items [] = blank
permission_items (p ∷ permissions) =
    item
      (object (
        field "tool" (text p.tool)
          (field "action" (text p.action) (field "resourceKind" (text p.resource_kind) bare))))
      (permission_items permissions)

-- `JSON.stringify(request)`
abbrev pub prepare_body : MandatePrepareRequest → Json
prepare_body request = object (
    field "agentId" (text request.agent_id) (
      field "ownerPrincipal" (owner_json request.owner_principal) (
        field "runtimeInstanceId" (text request.runtime_instance_id) (
          field "mode" (mode_json request.mode) (
            field "policyContextId" (nullable_json request.policy_context_id) (
              field "predecessorRunId" (nullable_json request.predecessor_run_id) (
                field "retryOfRunId" (nullable_json request.retry_of_run_id) (
                  field "mandateTemplateId" (text "morning-ops-v1") (
                    field "requestedPermissions"
                      (array (permission_items request.requested_permissions))
                      (field "capabilitySha256" (text request.capability_sha256) bare))))))))))

abbrev finish_text : FinishStatus → String
finish_text completed = "COMPLETED"
finish_text failed = "FAILED"
finish_text cancelled = "CANCELLED"
finish_text abandoned = "ABANDONED"

abbrev is_true : Option Json → Bool
is_true (some (boolean b)) = b
is_true _ = false

-- `body.ok === true`; null has no key to read, and the exception says no.
abbrev says_ok : Json → Bool
says_ok (object fields) = is_true (get "ok" fields)
says_ok _ = false

abbrev run_path : String → String → String
run_path id action = String.◌++◌ "/control/v1/runs/" (String.◌++◌ id action)

abbrev mandate_path : String → String → String
mandate_path id action = String.◌++◌ "/control/v1/mandates/" (String.◌++◌ id action)

-- The requests of the methods.
module _ (encode : String → String) where
  abbrev pub prepare_request : String → MandatePrepareRequest → ControlRequest
  prepare_request run_id request = record {
    path = run_path (encode run_id) "/prepare";
    method = "PUT";
    body = some (prepare_body request);
  }

  abbrev pub activate_request : String → ControlRequest
  activate_request run_id = record {
    path = run_path (encode run_id) "/activate";
    method = "POST";
    body = none;
  }

  abbrev pub finish_request : String → FinishStatus → ControlRequest
  finish_request run_id status = record {
    path = run_path (encode run_id) "/finish";
    method = "POST";
    body = some (object (field "status" (text (finish_text status)) bare));
  }

  abbrev pub evidence_request : String → ControlRequest
  evidence_request run_id = record {
    path = run_path (encode run_id) "/evidence";
    method = "GET";
    body = none;
  }

  abbrev pub summary_request : String → ControlRequest
  summary_request mandate_id = record {
    path = mandate_path (encode mandate_id) "";
    method = "GET";
    body = none;
  }

  abbrev pub revoke_request : String → String → ControlRequest
  revoke_request mandate_id actor_principal = record {
    path = mandate_path (encode mandate_id) "/revoke";
    method = "POST";
    body = some (object (field "actorPrincipal" (text actor_principal) bare));
  }

module _ {ℓ} {World : Type ℓ} (fetch : ControlRequest → World → World × Option ControlReply)
    (encode : String → String) where
  abbrev ask : {A : Type 0} → ControlRequest → (Answer Json → Answer A) → World → World × Answer A
  ask request read world =
      let (next, reply) = fetch request world in (next, read (request_answer reply))

  unfoldable pub ready : World → World × Bool
  ready world =
      let (next, reply) = fetch (record { path = "/healthz"; method = "GET"; body = none }) world in
      (next, elim reply [ none ↦ false | some r ↦ is_ok r.status && says_ok r.body ])

  unfoldable pub prepare :
      String → MandatePrepareRequest → World → World × Answer MandatePrepareResult
  unfolding request_answer parsed prepare_result_of
  prepare run_id request =
      ask (prepare_request encode run_id request) (parsed prepare_result_shape prepare_result_of)

  unfoldable pub activate : String → World → World × Answer {0} Unit
  unfolding request_answer parsed
  activate run_id =
      ask (activate_request encode run_id) (parsed lifecycle_result_shape (λ fields. some tt))

  unfoldable pub finish : String → FinishStatus → World → World × Answer {0} Unit
  unfolding request_answer parsed
  finish run_id status =
      ask (finish_request encode run_id status) (parsed lifecycle_result_shape (λ fields. some tt))

  unfoldable pub evidence : String → World → World × Answer MandateEvidence
  unfolding request_answer parsed evidence_of
  evidence run_id = ask (evidence_request encode run_id) (parsed evidence_shape evidence_of)

  unfoldable pub summary : String → World → World × Answer MandateSummary
  unfolding request_answer parsed mandate_summary_of
  summary mandate_id =
      ask (summary_request encode mandate_id) (parsed mandate_summary_shape mandate_summary_of)

  unfoldable pub revoke : String → String → World → World × Answer (MandateSummary × List String)
  unfolding request_answer parsed revocation_of
  revoke mandate_id actor_principal =
      ask (revoke_request encode mandate_id actor_principal)
        (parsed revoke_result_shape revocation_of)
