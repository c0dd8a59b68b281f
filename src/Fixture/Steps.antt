-- ===== src/Fixture/Steps.antt =====
-- fixture-runner.ts: the class `DeterministicMandateFlowRunner`.
use Prim.Native.String
use mandate_flow.Base.{
  ℕ, suc, ◌-◌, String, Bool, true, ◌&&◌, ◌==◌, Option, none, some, List, [], ◌∷◌, push, is_empty,
  mem, if◌then◌else◌,
}
use mandate_flow.Model.{
  RunProgressStage, RuntimeSessionEventKind, RuntimeSessionEventState, RuntimeSessionSafeMetadata,
  RunnerProgressEvent, Error, other, Result, ok, err,
}
use mandate_flow.Session.{create_runner_progress_event}
use mandate_flow.Json.{
  Json, text, array, object, Items, blank, item, Fields, bare, field, get, as_text, null,
}
use mandate_flow.Fixture.{
  McpRequest, HttpReply, Outside, World, Step, pure, lift, ◌>>=◌, ◌>>◌, holds,
}
use mandate_flow.Fixture.Calls.{result_of, tool_result, property}

pub record RunnerRequest : Type 0 where
  pub run_id : String
  pub agent_id : String
  pub prompt : String
  pub thread_id : Option String
  pub codex_home_path : Option String
  pub mandate_flow_capability : String

abbrev pub fixture_state_filename : String
fixture_state_filename = "mandateflow-fixture-state.json"

-- The last value that was set for a key.
abbrev pub value_of : String → List (String × Json) → Option Json
value_of key [] = none
value_of key ((name, value) ∷ rest) = if name == key then some value else value_of key rest

abbrev metadata : String → Option ℕ → Option RuntimeSessionSafeMetadata
metadata tool duration = some (record { paths = none; duration_ms = duration; tool = some tool })

abbrev tool_event :
    RunProgressStage
    → RuntimeSessionEventKind
    → RuntimeSessionEventState
    → String
    → String
    → Option ℕ
    → String
    → RunnerProgressEvent
tool_event stage kind state title detail duration name =
    create_runner_progress_event stage kind state title detail (metadata name duration)

abbrev call_started : String → RunnerProgressEvent
call_started =
    tool_event RunProgressStage.tool RuntimeSessionEventKind.mcp RuntimeSessionEventState.started
      "Protected tool call started"
      "MandateFlow is checking this call before the protected service runs." none

abbrev call_completed : ℕ → String → RunnerProgressEvent
call_completed ms =
    tool_event RunProgressStage.tool RuntimeSessionEventKind.mcp RuntimeSessionEventState.completed
      "Protected tool call complete"
      "MandateFlow returned a redacted policy decision for this call." (some ms)

abbrev call_failed : ℕ → String → RunnerProgressEvent
call_failed ms =
    tool_event RunProgressStage.error RuntimeSessionEventKind.error RuntimeSessionEventState.failed
      "Protected tool call failed" "MandateFlow could not record a complete protected-tool result."
      (some ms)

abbrev pub client_params : Fields
client_params = field "protocolVersion" (text "2025-06-18") (
    field "capabilities" (object bare) (
      field "clientInfo"
        (object
          (field "name" (text "mandateflow-fixture-runner") (field "version" (text "1.0.0") bare)))
        bare))

abbrev pub tool_params : String → Fields → Fields
tool_params name arguments = field "name" (text name) (field "arguments" (object arguments) bare)

abbrev pub expected_tools : List String
expected_tools =
    "support.list_tickets" ∷ "payments.list_failures" ∷ "cases.lookup_subject"
    ∷ "crm.resolve_customer" ∷ "payments.aggregate_failures" ∷ []

-- The names of a list of tools that are texts and not empty.
abbrev named : Option Json → List String → List String
named (some (text s)) names = if is_empty s then names else s ∷ names
named _ names = names

abbrev and_named : Result (Option Json) → Result (List String) → Result (List String)
and_named (err e) names = err e
and_named (ok name) (err e) = err e
and_named (ok name) (ok names) = ok (named name names)

abbrev tool_names : Items → Result (List String)
tool_names blank = ok []
tool_names (item tool rest) = and_named (property "name" tool) (tool_names rest)

-- `result.tools ?? []`; what is no array has no `map`.
abbrev discovered : Option Json → Result (List String)
discovered none = ok []
discovered (some null) = ok []
discovered (some (array items)) = tool_names items
discovered (some _) = err (other "(result.tools ?? []).map is not a function")

abbrev all_mem : List String → List String → Bool
all_mem [] names = true
all_mem (name ∷ rest) names = mem name names && all_mem rest names

abbrev not_discovered : Error
not_discovered = other "MandateFlow fixture Runtime did not discover the full granted tool set"

abbrev all_found : Result (List String) → Result (Unit {0})
all_found (err e) = err e
all_found (ok names) = if all_mem expected_tools names then ok tt else err not_discovered

abbrev names_of : Result (Option Json) → Result (List String)
names_of (err e) = err e
names_of (ok tools) = discovered tools

unfoldable pub full_grant : Json → Result (Unit {0})
full_grant result = all_found (names_of (property "tools" result))

abbrev no_retry_state : Error
no_retry_state = other "Deterministic retry state is unavailable after the Runtime restart"

-- The file that `savePaymentCaseReference` wrote holds a text.
abbrev stored_reference : Result Json → Option Json
stored_reference (ok (object state)) = elim (as_text (get "paymentCaseReference" state)) [
  | none ↦ none
  | some s ↦ some (text s)
]
stored_reference _ = none

unfoldable pub state_path : String → String
state_path home = String.◌++◌ home (String.◌++◌ "/" fixture_state_filename)

module _ (O : Outside) where
  unfoldable pub report : RunnerProgressEvent → Step O (Unit {0})
  report event w = (record w { reported = push w.reported event }, ok tt)

  abbrev pub reply_result : Result HttpReply → Result Json
  reply_result (err e) = err e
  reply_result (ok reply) = result_of reply

  -- `++this.requestNumber`, `fetch`, and what is made of the reply.
  unfoldable pub mcp_request : String → String → Fields → Step O Json
  mcp_request capability method params w =
      let request : McpRequest = record {
        capability = capability;
        id = suc w.request_number;
        method = method;
        params = params;
      } in
      let (outside, reply) = O.exchange w.outside request in
      (record w { outside = outside; request_number = suc w.request_number }, reply_result reply)

  abbrev pub structured : String → Result Json → Result Fields
  structured name (err e) = err e
  structured name (ok result) = tool_result O.parse name result

  unfoldable pub conclude_call : ℕ → String → World O → Result Fields → World O × Result Fields
  unfolding report
  conclude_call elapsed name w (ok result) = ((report (call_completed elapsed name) w).0, ok result)
  conclude_call elapsed name w (err e) = ((report (call_failed elapsed name) w).0, err e)

  unfoldable pub call_tool : String → String → Fields → Step O Fields
  unfolding report mcp_request conclude_call
  call_tool capability name arguments w =
      let (w, _) = report (call_started name) w in
      let started_at = O.now w.outside in
      let (w, reply) = mcp_request capability "tools/call" (tool_params name arguments) w in
      let elapsed = O.now w.outside - started_at in
      conclude_call elapsed name w (structured name reply)

  unfoldable pub initialize_session : String → Step O (Unit {0})
  unfolding mcp_request ◌>>=◌
  initialize_session capability = do
    result ← mcp_request capability "initialize" client_params
    pure tt

  unfoldable pub assert_full_grant_discovery : String → Step O (Unit {0})
  unfolding mcp_request full_grant ◌>>=◌
  assert_full_grant_discovery capability = do
    result ← mcp_request capability "tools/list" bare
    lift (full_grant result)

  -- `this.paymentCaseReferences.set`
  unfoldable pub remember : String → Json → Step O (Unit {0})
  remember agent_id reference w = (
    record w { payment_case_references = (agent_id, reference) ∷ w.payment_case_references },
    ok tt,
  )

  unfoldable pub load_from_disk : RunnerRequest → Step O Json
  unfolding remember
  load_from_disk request w = elim request.codex_home_path [
    | none ↦ (w, err no_retry_state)
    | some home ↦
        let read = stored_reference (O.read_json w.outside (state_path home)) in
        if is_empty home then (w, err no_retry_state) else elim read [
          | none ↦ (w, err no_retry_state)
          | some reference ↦ ((remember request.agent_id reference w).0, ok reference)
        ]
  ]

  unfoldable pub load_payment_case_reference : RunnerRequest → Step O Json
  unfolding load_from_disk
  load_payment_case_reference request w =
      elim (value_of request.agent_id w.payment_case_references) [
        | none ↦ load_from_disk request w
        | some reference ↦ if holds reference then (w, ok reference) else load_from_disk request w
      ]

  unfoldable pub write_file : String → Json → Step O (Unit {0})
  write_file path value w =
      let (outside, result) = O.write_json w.outside path value in
      (record w { outside = outside }, result)

  unfoldable pub change_mode : String → Step O (Unit {0})
  change_mode path w =
      let (outside, result) = O.chmod w.outside path in (record w { outside = outside }, result)

  unfoldable pub write_state : String → Json → Step O (Unit {0})
  unfolding write_file change_mode ◌>>=◌
  write_state path reference = do
    write_file path (object (field "paymentCaseReference" reference bare))
    change_mode path

  unfoldable pub save_on_disk : Option String → Json → Step O (Unit {0})
  unfolding write_state
  save_on_disk none reference = pure tt
  save_on_disk (some home) reference =
      if is_empty home then pure tt else write_state (state_path home) reference

  unfoldable pub save_payment_case_reference : RunnerRequest → Json → Step O (Unit {0})
  unfolding remember save_on_disk ◌>>=◌
  save_payment_case_reference request reference = do
    remember request.agent_id reference
    save_on_disk request.codex_home_path reference
