-- ===== src/Tests/ControlPlane.antt =====
-- A control plane that grants a Run, and knows nothing else.
use mandate_flow.Base.{ℕ, suc, ◌≡◌, refl, String, Option, none, some, [], ◌==◌, if◌then◌else◌}
use mandate_flow.Model.{user_a, Mode, MandatePrepareRequest}
use mandate_flow.Json.{Json, text, number, array, object, blank, item, Fields, bare, field}
use mandate_flow.Control.Schemas.{
  prepare_result_shape, evidence_shape, mandate_summary_shape, revoke_result_shape,
}
use mandate_flow.Control.Answers.{ControlRequest, ControlReply, answered, refused, schema_error}
use mandate_flow.Control.Client.{
  prepare_request, evidence_request, summary_request, revoke_request, prepare, evidence, summary,
  revoke,
}
use mandate_flow.Control.Taken.{◌>>=◌}
use mandate_flow.Control.Typed.{answers-Typed, Outcome}
use mandate_flow.Control.Typed.Reading.{Some}
use mandate_flow.Control.Typed.Objects.{IsGrant, IsMandate}

abbrev permission : Json
permission = object (
    field "tool" (text "support.list_tickets")
      (field "action" (text "read") (field "resourceKind" (text "support-ticket") bare)))

abbrev grant : Fields → Json
grant more = object (
    field "runGrantId" (text "grant-1") (
      field "policyContextId" (text "context-1") (
        field "grantFingerprint" (text "fp-1") (
          field "capabilityFingerprint" (text "fp-2") (
            field "mandateId" (text "mandate-1") (
              field "ownerPrincipal" (text "user-a") (
                field "agentPrincipal" (text "agent-1") (
                  field "issuedAt" (text "2026-01-01T00:00:00Z") (
                    field "status" (text "PREPARED") (
                      field "expiresAt" (text "2026-01-01T01:00:00Z")
                        (field "grantedPermissions" (array (item permission blank)) more)))))))))))

abbrev fetch : ControlRequest → ℕ → ℕ × Option ControlReply
fetch request n = (
  suc n,
  if request.method == "PUT"
      then some (record { status = 200; body = grant bare })
      else if request.method == "GET"
      then some (record { status = 404; body = object (field "error" (text "Run not found") bare) })
      else some (record { status = 200; body = grant (field "extra" (number 1) bare) }),
)

abbrev request : MandatePrepareRequest
request = record {
  agent_id = "agent-1";
  owner_principal = user_a;
  runtime_instance_id = "instance-1";
  mode = Mode.new;
  policy_context_id = none;
  predecessor_run_id = none;
  retry_of_run_id = none;
  requested_permissions = [];
  capability_sha256 = "sha";
}

abbrev encode : String → String
encode s = s

answers-Typed_example :
    Outcome IsGrant prepare_result_shape
      (fetch (prepare_request encode "run-1" request) 0).1
      (prepare fetch encode "run-1" request 0).1
    × Outcome Some evidence_shape
        (fetch (evidence_request encode "run-1") 0).1
        (evidence fetch encode "run-1" 0).1
    × Outcome IsMandate mandate_summary_shape
        (fetch (summary_request encode "mandate-1") 0).1
        (summary fetch encode "mandate-1" 0).1
    × Outcome
        (λ r. IsMandate r.0)
        revoke_result_shape
        (fetch (revoke_request encode "mandate-1" "user-a") 0).1
        (revoke fetch encode "mandate-1" "user-a" 0).1
answers-Typed_example = answers-Typed ℕ fetch encode "run-1" "mandate-1" "user-a" request 0

-- The grant is taken; a Run without evidence is an error, and so is an answer with an unknown key.
prepared :
    (prepare fetch encode "run-1" request 0).1
    ≡ answered (record {
      run_grant_id = "grant-1";
      policy_context_id = "context-1";
      grant_fingerprint = "fp-1";
      capability_fingerprint = "fp-2";
      mandate_id = some "mandate-1";
      owner_principal = some user_a;
      agent_principal = some "agent-1";
    })
unfolding prepare ◌>>=◌
prepared = refl

unknown_run : (evidence fetch encode "run-1" 0).1 ≡ refused 404 "Run not found"
unfolding evidence
unknown_run = refl

unknown_key : (revoke fetch encode "mandate-1" "user-a" 0).1 ≡ schema_error
unfolding revoke
unknown_key = refl
