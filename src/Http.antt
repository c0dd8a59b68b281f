-- ===== src/Http.antt =====
-- CodeJam/apps/server/src/app.ts: the routes of the server, its access test and its error handler.
-- Fastify and zod are not modelled but where the code relies on them: a path comes divided and
-- decoded, a body parsed.
pub mod Bodies
pub mod Access
pub mod Inputs
pub mod Bounds
pub mod Secured
use Prim.Native.String
use mandate_flow.Base.{
  ℕ, zero, suc, leb, String, Bool, true, false, not, ◌&&◌, ◌||◌, ◌==◌, Option, none, some, List, [],
  ◌∷◌, codes, has_prefix, is_empty, or_else, if◌then◌else◌,
}
use mandate_flow.Model.{
  CreateAgentInput, UpdateAgentInput, Error, http, message_of, Result, ok, err,
}
use mandate_flow.Json.{Json}
use mandate_flow.Http.Bodies.{
  Checked, checked, invalid, ◌>>=◌, mandate_param, create_agent_body, update_agent_body,
  message_body,
}

-- What the routes call, with what the schemas have made of the request.
pub data Call : Type 0 where
  health_info auth_required system_info list_agents : Call
  create_agent : CreateAgentInput → Call
  update_agent : String → UpdateAgentInput → Call
  get_agent delete_agent start_agent stop_agent get_messages get_runs get_mandate_summary :
      String → Call
  send_message : String → String → Call
  new_demo_workflow get_run get_run_evidence retry_run revoke_mandate : String → Call

-- The divided path behind `/api/`, the body, and Fastify's refusal of it if there is one.
pub record HttpRequest : Type 0 where
  pub method : String
  pub url : String
  pub segments : List String
  pub authorization : Option String
  pub body : Option Json
  pub refused_body : Option (ℕ × String)

-- What a handler may throw, or Fastify before it.
pub data Thrown : Type 0 where
  by_app : Error → Thrown
  by_schema : Thrown
  by_framework : ℕ → String → Thrown

-- A value to send, the error text with or without the issues of a schema, or the browser's page.
pub data Payload : Type 0 where
  value : Json → Payload
  failure : String → Bool → Payload
  page : Payload

pub record Reply : Type 0 where
  pub status : ℕ
  pub payload : Payload

-- What the server reads of its settings, the test of `z.string().uuid()`, and the answers of the
-- packages where no route takes a request: Fastify's own one, and that of the static files.
pub record Site : Type 0 where
  pub auth_token : String
  pub is_production : Bool
  pub is_uuid : String → Bool
  pub unrouted : HttpRequest → Reply
  pub static_file : HttpRequest → Reply

-- `s.slice(n)` of a text that starts with `n` ASCII characters.
abbrev pub drop_text : ℕ → String → String
drop_text zero s = s
drop_text (suc n) String.[] = ""
drop_text (suc n) (String.◌∷◌ c s) = drop_text n s

abbrev pub is_bearer : String → Bool
is_bearer header = has_prefix (codes "Bearer ") (codes header)

-- `request.url.startsWith("/api/")`
abbrev pub is_api : String → Bool
is_api url = has_prefix (codes "/api/") (codes url)

abbrev pub candidate : Option String → String
candidate sent = let header = or_else sent "" in if is_bearer header then drop_text 7 header else ""

-- The hook: equal buffers are equal texts.
unfoldable pub is_admitted : Site → HttpRequest → Bool
is_admitted site request =
    is_empty site.auth_token
    || not (is_api request.url)
    || (request.url == "/api/health")
    || (request.url == "/api/auth")
    || (candidate request.authorization == site.auth_token)

abbrev pub Route : Type 0
Route = Option (Checked (ℕ × Call))

-- A call, and the status of its answer.
abbrev gives : ℕ → Checked Call → Route
gives status call = some (call >>= λ c. checked (status, c))

abbrev calls : Call → Route
calls call = gives 200 (checked call)

abbrev with_id : (String → Bool) → String → (String → Call) → Checked Call
with_id is_uuid id call = if is_uuid id then checked (call id) else invalid

unfoldable pub plain_route : String → String → Option Json → Route
unfolding create_agent_body
plain_route method name body =
    if (method == "GET") && (name == "health")
    then calls health_info
    else if (method == "GET") && (name == "auth")
    then calls auth_required
    else if (method == "GET") && (name == "system")
    then calls system_info
    else if (method == "GET") && (name == "agents")
    then calls list_agents
    else if (method == "POST") && (name == "agents")
    then gives 201 (create_agent_body body >>= λ input. checked (create_agent input))
    else none

unfoldable pub item_route : (String → Bool) → String → String → String → Option Json → Route
unfolding update_agent_body
item_route is_uuid method kind id body =
    if (method == "GET") && (kind == "agents")
    then gives 200 (with_id is_uuid id get_agent)
    else if (method == "PATCH") && (kind == "agents")
    then gives 200 (
        with_id is_uuid id get_agent >>= λ _.
        update_agent_body body >>= λ input. checked (update_agent id input))
    else if (method == "DELETE") && (kind == "agents")
    then gives 200 (with_id is_uuid id delete_agent)
    else if (method == "GET") && (kind == "runs")
    then gives 200 (with_id is_uuid id get_run)
    else none

unfoldable pub agent_route : (String → Bool) → String → String → String → Option Json → Route
unfolding message_body
agent_route is_uuid method id action body =
    if (method == "POST") && (action == "start")
    then gives 200 (with_id is_uuid id start_agent)
    else if (method == "POST") && (action == "stop")
    then gives 200 (with_id is_uuid id stop_agent)
    else if (method == "GET") && (action == "messages")
    then gives 200 (with_id is_uuid id get_messages)
    else if (method == "GET") && (action == "runs")
    then gives 200 (with_id is_uuid id get_runs)
    else if (method == "GET") && (action == "mandate")
    then gives 200 (with_id is_uuid id get_mandate_summary)
    else if (method == "POST") && (action == "messages")
    then gives 202 (
        with_id is_uuid id get_agent >>= λ _.
        message_body body >>= λ content. checked (send_message id content))
    else if (method == "POST") && (action == "new-demo-workflow")
    then gives 200 (with_id is_uuid id new_demo_workflow)
    else none

unfoldable pub action_route :
    (String → Bool) → String → String → String → String → Option Json → Route
unfolding agent_route mandate_param
action_route is_uuid method kind id action body =
    if kind == "agents"
    then agent_route is_uuid method id action body
    else if (method == "GET") && (kind == "runs") && (action == "evidence")
    then gives 200 (with_id is_uuid id get_run_evidence)
    else if (method == "POST") && (kind == "runs") && (action == "retry")
    then gives 202 (with_id is_uuid id retry_run)
    else if (method == "POST") && (kind == "mandates") && (action == "revoke")
    then gives 200 (mandate_param id >>= λ mandate_id. checked (revoke_mandate mandate_id))
    else none

-- The segments behind `/api`.
unfoldable pub route : (String → Bool) → String → List String → Option Json → Route
unfolding plain_route item_route action_route
route is_uuid method (name ∷ []) body = plain_route method name body
route is_uuid method (kind ∷ id ∷ []) body = item_route is_uuid method kind id body
route is_uuid method (kind ∷ id ∷ action ∷ []) body =
    action_route is_uuid method kind id action body
route is_uuid method _ body = none

-- `frameworkStatus >= 400 && frameworkStatus <= 599`
abbrev pub framework_status : ℕ → ℕ
framework_status status = if leb 400 status && leb status 599 then status else 500

unfoldable pub error_reply : Thrown → Reply
error_reply (by_app (http status message)) = record {
  status = status;
  payload = failure message false;
}
error_reply (by_app e) = record { status = 500; payload = failure (message_of e) false }
error_reply by_schema = record { status = 400; payload = failure "Request validation failed" true }
error_reply (by_framework status message) = record {
  status = framework_status status;
  payload = failure message false;
}

unfoldable pub not_found : Site → HttpRequest → Reply
not_found site request =
    if site.is_production
    then if is_api request.url
      then record { status = 404; payload = failure "API route not found" false }
      else site.static_file request
    else site.unrouted request

abbrev pub result_reply : ℕ → Result Json → Reply
result_reply status (err e) = error_reply (by_app e)
result_reply status (ok json) = record { status = status; payload = value json }

abbrev pub unauthenticated : Reply
unauthenticated = record { status = 401; payload = failure "Authentication required" false }

module _ {ℓ} (State : Type ℓ) (perform : Call → State → State × Result Json) where
  -- The handler of a route.
  unfoldable pub run_call : Checked (ℕ × Call) → State → State × Reply
  unfolding error_reply
  run_call invalid s = (s, error_reply by_schema)
  run_call (checked (status, call)) s =
      let (next, result) = perform call s in (next, result_reply status result)

  abbrev pub run_route : Option (ℕ × String) → Checked (ℕ × Call) → State → State × Reply
  run_route none call s = run_call call s
  run_route (some (status, message)) call s = (s, error_reply (by_framework status message))

  abbrev pub take_route : Site → HttpRequest → Route → State → State × Reply
  take_route site request none s = (s, not_found site request)
  take_route site request (some call) s = run_route request.refused_body call s

  unfoldable pub respond : Site → HttpRequest → State → State × Reply
  unfolding is_admitted route run_call not_found
  respond site request s =
      if is_admitted site request
      then take_route site request (route site.is_uuid request.method request.segments request.body)
          s
      else (s, unauthenticated)
