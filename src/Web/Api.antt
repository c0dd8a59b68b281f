-- ===== src/Web/Api.antt =====
-- CodeJam/apps/web/src/api.ts: the requests that the browser makes of the server.
pub mod Meant
pub mod Paths
pub mod Routes
pub mod Served
use Prim.Native.String
use mandate_flow.Base.{
  ℕ, leb, String, Bool, true, false, not, ◌&&◌, Option, none, some, is_empty, or_else, trim,
  if◌then◌else◌,
}
use mandate_flow.Model.{DemoOwnerPrincipal}
use mandate_flow.Json.{Json, null, text, object, Fields, bare, field, get, as_text}

-- The functions of `api`, with their arguments.
pub data ApiCall : Type 0 where
  auth system list_agents : ApiCall
  create_agent : String → String → String → DemoOwnerPrincipal → ApiCall
  update_agent : String → String → String → String → ApiCall
  delete_agent start_agent stop_agent messages runs mandate : String → ApiCall
  send_message : String → String → ApiCall
  run evidence retry_run new_demo_workflow revoke_mandate : String → ApiCall

-- What `fetch` is called with; `body` is what `JSON.stringify` is given.
pub record Fetch : Type 0 where
  pub url : String
  pub method : String
  pub authorization : Option String
  pub body : Option Json

abbrev owner_text : DemoOwnerPrincipal → String
owner_text DemoOwnerPrincipal.user_a = "user-a"
owner_text DemoOwnerPrincipal.user_b = "user-b"

abbrev pub agent_fields : String → String → String → Fields → Fields
agent_fields name description instructions rest =
    field "name" (text name)
      (field "description" (text description) (field "instructions" (text instructions) rest))

-- `setAuthToken`
unfoldable pub set_auth_token : String → String
set_auth_token token = trim token

abbrev pub bearer : String → Option String
bearer token = if is_empty token then none else some (String.◌++◌ "Bearer " token)

module _ (encode : String → String) (token : String) where
  abbrev ask : String → Fetch
  ask url = record { url = url; method = "GET"; authorization = bearer token; body = none }

  abbrev tell : String → String → Option Json → Fetch
  tell method url body = record {
    url = url;
    method = method;
    authorization = bearer token;
    body = body;
  }

  abbrev agent_url : String → String → String
  agent_url id action = String.◌++◌ "/api/agents/" (String.◌++◌ id action)

  abbrev run_url : String → String → String
  run_url id action = String.◌++◌ "/api/runs/" (String.◌++◌ id action)

  -- `encode` is `encodeURIComponent`, `token` the token that was set.
  unfoldable pub api : ApiCall → Fetch
  api ApiCall.auth = ask "/api/auth"
  api ApiCall.system = ask "/api/system"
  api ApiCall.list_agents = ask "/api/agents"
  api (ApiCall.create_agent name description instructions owner) = tell "POST" "/api/agents" (
      some (
        object (
          agent_fields name description instructions
            (field "ownerPrincipal" (text (owner_text owner)) bare))))
  api (ApiCall.update_agent id name description instructions) =
      tell "PATCH" (agent_url id "")
        (some (object (agent_fields name description instructions bare)))
  api (ApiCall.delete_agent id) = tell "DELETE" (agent_url id "") none
  api (ApiCall.start_agent id) = tell "POST" (agent_url id "/start") none
  api (ApiCall.stop_agent id) = tell "POST" (agent_url id "/stop") none
  api (ApiCall.messages id) = ask (agent_url id "/messages")
  api (ApiCall.runs id) = ask (agent_url id "/runs")
  api (ApiCall.mandate id) = ask (agent_url id "/mandate")
  api (ApiCall.send_message id content) =
      tell "POST" (agent_url id "/messages") (some (object (field "content" (text content) bare)))
  api (ApiCall.run id) = ask (run_url id "")
  api (ApiCall.evidence id) = ask (run_url id "/evidence")
  api (ApiCall.retry_run id) = tell "POST" (run_url id "/retry") none
  api (ApiCall.new_demo_workflow id) = tell "POST" (agent_url id "/new-demo-workflow") none
  api (ApiCall.revoke_mandate id) =
      tell "POST" (String.◌++◌ "/api/mandates/" (String.◌++◌ (encode id) "/revoke")) none

-- A response; `data` is `{}` where the body is no JSON.
pub record FetchReply : Type 0 where
  pub status : ℕ
  pub payload : Json

-- A value, an `ApiError` with its message and status, or a `TypeError`.
pub data ApiResult : Type 0 where
  received : Json → ApiResult
  api_error : String → ℕ → ApiResult
  type_error : ApiResult

-- `data.error ?? "Request failed"`; an error is a text.
abbrev error_text : Fields → String
error_text fields = or_else (as_text (get "error" fields)) "Request failed"

abbrev failed : Json → ℕ → ApiResult
failed null status = type_error
failed (object fields) status = api_error (error_text fields) status
failed _ status = api_error "Request failed" status

-- `request`, once `fetch` has resolved.
unfoldable pub received_by : FetchReply → ApiResult
received_by reply =
    if leb 200 reply.status && leb reply.status 299
    then received reply.payload
    else failed reply.payload reply.status
