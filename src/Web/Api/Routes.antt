-- ===== src/Web/Api/Routes.antt =====
-- api.ts and app.ts: the route that each request of the browser takes.
use mandate_flow.Base.{
  arith, and_both, ◌≡◌, refl, String, Bool, true, some, leb, trim, length_units,
}
use mandate_flow.Model.{DemoOwnerPrincipal}
use mandate_flow.Http.Bodies.{
  checked, within, create_agent_body, update_agent_body, message_body, mandate_param,
}
use mandate_flow.Http.{route}
use mandate_flow.Web.Api.{ApiCall, api}
use mandate_flow.Web.Api.Meant.{details_fit, is_sendable, meant, status_of}
use mandate_flow.Web.Api.Paths.{parts_of}

module _ (is_uuid : String → Bool) (encode : String → String) (token : String) where
  details :
      (name description instructions : String)
      → details_fit name description instructions ≡ true
      → (within 1 80 (trim name) ≡ true)
        × (leb (length_units description) 500 ≡ true)
        × (leb (length_units instructions) 10000 ≡ true)
  details name description instructions h =
      let (n, rest) = and_both (within 1 80 (trim name)) _ h in
      let (d, i) = and_both (leb (length_units description) 500) _ rest in (n, d, i)

  revocable : (id : String) → within 8 100 id ≡ true → within 8 128 id ≡ true
  revocable id h = ground arith

  -- Each request of the browser has its route, with the call that the browser means.
  pub route-meant :
      (call : ApiCall)
      → is_sendable is_uuid call ≡ true
      → route is_uuid
          (api encode token call).method
          (parts_of (λ id. id) call)
          (api encode token call).body
        ≡ some (checked (status_of call, meant call))
  unfolding api route create_agent_body update_agent_body message_body mandate_param length_units
      trim
  route-meant ApiCall.auth h = refl
  route-meant ApiCall.system h = refl
  route-meant ApiCall.list_agents h = refl
  route-meant (ApiCall.delete_agent id) h = rw h refl
  route-meant (ApiCall.start_agent id) h = rw h refl
  route-meant (ApiCall.stop_agent id) h = rw h refl
  route-meant (ApiCall.messages id) h = rw h refl
  route-meant (ApiCall.runs id) h = rw h refl
  route-meant (ApiCall.mandate id) h = rw h refl
  route-meant (ApiCall.run id) h = rw h refl
  route-meant (ApiCall.evidence id) h = rw h refl
  route-meant (ApiCall.retry_run id) h = rw h refl
  route-meant (ApiCall.new_demo_workflow id) h = rw h refl
  route-meant (ApiCall.revoke_mandate id) h = rw (revocable id h) refl
  route-meant (ApiCall.create_agent name description instructions DemoOwnerPrincipal.user_a) h =
      let (n, d, i) = details name description instructions h in rw (n, d, i) refl
  route-meant (ApiCall.create_agent name description instructions DemoOwnerPrincipal.user_b) h =
      let (n, d, i) = details name description instructions h in rw (n, d, i) refl
  route-meant (ApiCall.update_agent id name description instructions) h =
      let (u, rest) = and_both (is_uuid id) _ h in
      let (n, d, i) = details name description instructions rest in rw (u, n, d, i) refl
  route-meant (ApiCall.send_message id content) h =
      let (u, c) = and_both (is_uuid id) _ h in rw (u, c) refl
