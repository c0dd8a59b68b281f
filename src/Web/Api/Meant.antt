-- ===== src/Web/Api/Meant.antt =====
-- api.ts and app.ts: what each request of the browser means to the server, and what it must fit.
use mandate_flow.Base.{ℕ, String, Bool, true, ◌&&◌, some, leb, trim, length_units}
use mandate_flow.Http.Bodies.{within}
use mandate_flow.Http.{Call}
use mandate_flow.Web.Api.{ApiCall}

-- What the browser must send for the schemas to take it.
abbrev pub details_fit : String → String → String → Bool
details_fit name description instructions =
    within 1 80 (trim name)
    && (leb (length_units description) 500 && leb (length_units instructions) 10000)

-- What the browser must send for the schemas and the router to take it: the schema takes a mandate's
-- identifier of up to 128 units, the router one of up to 100.
abbrev pub is_sendable : (String → Bool) → ApiCall → Bool
is_sendable is_uuid ApiCall.auth = true
is_sendable is_uuid ApiCall.system = true
is_sendable is_uuid ApiCall.list_agents = true
is_sendable is_uuid (ApiCall.create_agent name description instructions owner) =
    details_fit name description instructions
is_sendable is_uuid (ApiCall.update_agent id name description instructions) =
    is_uuid id && details_fit name description instructions
is_sendable is_uuid (ApiCall.delete_agent id) = is_uuid id
is_sendable is_uuid (ApiCall.start_agent id) = is_uuid id
is_sendable is_uuid (ApiCall.stop_agent id) = is_uuid id
is_sendable is_uuid (ApiCall.messages id) = is_uuid id
is_sendable is_uuid (ApiCall.runs id) = is_uuid id
is_sendable is_uuid (ApiCall.mandate id) = is_uuid id
is_sendable is_uuid (ApiCall.send_message id content) = is_uuid id && within 1 50000 (trim content)
is_sendable is_uuid (ApiCall.run id) = is_uuid id
is_sendable is_uuid (ApiCall.evidence id) = is_uuid id
is_sendable is_uuid (ApiCall.retry_run id) = is_uuid id
is_sendable is_uuid (ApiCall.new_demo_workflow id) = is_uuid id
is_sendable is_uuid (ApiCall.revoke_mandate id) = within 8 100 id

-- The call that the browser means.
abbrev pub meant : ApiCall → Call
meant ApiCall.auth = Call.auth_required
meant ApiCall.system = Call.system_info
meant ApiCall.list_agents = Call.list_agents
meant (ApiCall.create_agent name description instructions owner) = Call.create_agent (record {
  name = trim name;
  owner_principal = some owner;
  description = some description;
  instructions = some instructions;
})
meant (ApiCall.update_agent id name description instructions) = Call.update_agent id (record {
  name = some (trim name);
  description = some description;
  instructions = some instructions;
})
meant (ApiCall.delete_agent id) = Call.delete_agent id
meant (ApiCall.start_agent id) = Call.start_agent id
meant (ApiCall.stop_agent id) = Call.stop_agent id
meant (ApiCall.messages id) = Call.get_messages id
meant (ApiCall.runs id) = Call.get_runs id
meant (ApiCall.mandate id) = Call.get_mandate_summary id
meant (ApiCall.send_message id content) = Call.send_message id (trim content)
meant (ApiCall.run id) = Call.get_run id
meant (ApiCall.evidence id) = Call.get_run_evidence id
meant (ApiCall.retry_run id) = Call.retry_run id
meant (ApiCall.new_demo_workflow id) = Call.new_demo_workflow id
meant (ApiCall.revoke_mandate id) = Call.revoke_mandate id

abbrev pub status_of : ApiCall → ℕ
status_of (ApiCall.create_agent name description instructions owner) = 201
status_of (ApiCall.send_message id content) = 202
status_of (ApiCall.retry_run id) = 202
status_of _ = 200
