-- ===== src/Fixture/Run.antt =====
-- fixture-runner.ts: `run`, with its branch for a retry.
use Prim.Native.String
use mandate_flow.Base.{
  String, Bool, Option, none, some, List, [], ◌∷◌, codes, lower_codes, includes, is_empty, or_else,
  if◌then◌else◌,
}
use mandate_flow.Model.{
  RunProgressStage, RuntimeSessionEventKind, RuntimeSessionEventState, RuntimeSessionSafeMetadata,
  RunnerProgressEvent, RunnerResult, Error, other,
}
use mandate_flow.Session.{create_runner_progress_event}
use mandate_flow.Json.{Fields, bare, field, get, as_text, Json}
use mandate_flow.Fixture.{Outside, Step, pure, throw, lift, ensure, ◌>>=◌, ◌>>◌}
use mandate_flow.Fixture.Calls.{is_payment_denial, require_reference, require_success}
use mandate_flow.Fixture.Steps.{
  RunnerRequest, report, call_tool, initialize_session, assert_full_grant_discovery,
  load_payment_case_reference, save_payment_case_reference,
}

abbrev tool : String → Option RuntimeSessionSafeMetadata
tool name = some (record { paths = none; duration_ms = none; tool = some name })

abbrev started :
    RunProgressStage
    → RuntimeSessionEventKind
    → String
    → String
    → Option RuntimeSessionSafeMetadata
    → RunnerProgressEvent
started stage kind = create_runner_progress_event stage kind RuntimeSessionEventState.started

abbrev tool_started : String → String → Option RuntimeSessionSafeMetadata → RunnerProgressEvent
tool_started = started RunProgressStage.tool RuntimeSessionEventKind.mcp

abbrev pub replaying : RunnerProgressEvent
replaying =
    tool_started "Replaying the denied CRM call"
      "The retry is using the prior Payment-derived Case reference without re-deriving it."
      (tool "crm.resolve_customer")

abbrev pub discovering : RunnerProgressEvent
discovering =
    started RunProgressStage.phase RuntimeSessionEventKind.plan "Discovering protected tools"
      "The secure Runtime is confirming the tools granted by this mandate." none

abbrev pub support_path : RunnerProgressEvent
support_path =
    tool_started "Checking the trusted Support path"
      "Support → Case → CRM should be allowed by the provenance policy." none

abbrev pub payment_path : RunnerProgressEvent
payment_path =
    tool_started "Checking the Payment path"
      "Payment → Case → CRM should be blocked before CRM is invoked." none

abbrev pub recording_recovery : RunnerProgressEvent
recording_recovery =
    tool_started "Recording a safe recovery"
      "The protected workflow is using the offered aggregate operation after the denial."
      (tool "payments.aggregate_failures")

abbrev pub verifying_recovery : RunnerProgressEvent
verifying_recovery =
    tool_started "Verifying fresh Support recovery"
      "A new Support-derived Case should be allowed in the same policy context." none

abbrev join_lines : List String → String
join_lines [] = ""
join_lines (line ∷ []) = line
join_lines (line ∷ next ∷ rest) = String.◌++◌ line (String.◌++◌ "\n" (join_lines (next ∷ rest)))

-- The rule is the text that the test before has found.
abbrev pub retry_output : Fields → String
retry_output denial = join_lines (
    "MandateFlow fixture retry complete."
    ∷ "Payment → Case → CRM: BLOCKED before CRM."
    ∷ String.◌++◌ "Policy: " (String.◌++◌ (or_else (as_text (get "ruleId" denial)) "") ".")
    ∷ "The retry used the prior opaque Case reference with a fresh Run capability."
    ∷ [])

abbrev pub proof_output : String
proof_output = join_lines (
    "MandateFlow fixture proof complete." ∷ "Support → Case → CRM: ALLOWED."
    ∷ "Payment → Case → CRM: BLOCKED before CRM." ∷ "Payment aggregate recovery: ALLOWED."
    ∷ "Fresh Support → Case → CRM recovery: ALLOWED."
    ∷ "All outcomes came from the Go gateway and SQLite-backed receipts." ∷ [])

abbrev pub result_with : RunnerRequest → String → RunnerResult
result_with request output = record {
  output = output;
  thread_id = some (or_else request.thread_id (String.◌++◌ "fixture-thread-" request.agent_id));
  usage = none;
  runtime_instance_id = String.◌++◌ "fixture-runtime-" request.run_id;
}

abbrev pub by_reference : Json → Fields
by_reference reference = field "reference" reference bare

abbrev pub is_retry_prompt : String → Bool
is_retry_prompt prompt =
    includes (codes "retry only the previously denied") (lower_codes (codes prompt))

abbrev pub not_denied : Error
not_denied = other "Deterministic payment flow did not produce the expected policy denial"

abbrev pub retry_not_denied : Error
retry_not_denied = other "Deterministic retry did not remain provenance-denied"

abbrev no_capability : Error
no_capability = other "MandateFlow fixture Runtime requires a Run capability"

module _ (O : Outside) (request : RunnerRequest) where
  abbrev pub call : String → Fields → Step O Fields
  call = call_tool O request.mandate_flow_capability

  unfoldable pub replay : Step O RunnerResult
  unfolding ◌>>=◌
  replay = do
    report O replaying
    initialize_session O request.mandate_flow_capability
    payment_case_reference ← load_payment_case_reference O request
    retry_denial ← call "crm.resolve_customer" (by_reference payment_case_reference)
    ensure (is_payment_denial retry_denial) retry_not_denied
    pure (result_with request (retry_output retry_denial))

  -- Support → Case → CRM: three calls that must be allowed.
  unfoldable pub support_flow : String → String → String → Step O (Unit {0})
  unfolding ◌>>=◌
  support_flow lookup transform recovery = do
    support ← call "support.list_tickets" bare
    support_reference ← lift (require_reference support lookup)
    support_case ← call "cases.lookup_subject" (by_reference support_reference)
    support_case_reference ← lift (require_reference support_case transform)
    support_crm ← call "crm.resolve_customer" (by_reference support_case_reference)
    lift (require_success support_crm recovery)

  -- Payment → Case → CRM: the third call must be denied.
  unfoldable pub payment_flow : Step O (Unit {0})
  unfolding ◌>>=◌
  payment_flow = do
    payment ← call "payments.list_failures" bare
    payment_reference ← lift (require_reference payment "Payment lookup")
    payment_case ← call "cases.lookup_subject" (by_reference payment_reference)
    payment_case_reference ← lift (require_reference payment_case "Payment Case transform")
    save_payment_case_reference O request payment_case_reference
    payment_denial ← call "crm.resolve_customer" (by_reference payment_case_reference)
    ensure (is_payment_denial payment_denial) not_denied

  unfoldable pub aggregate_flow : Step O (Unit {0})
  unfolding ◌>>=◌
  aggregate_flow = do
    aggregate ← call "payments.aggregate_failures" bare
    lift (require_success aggregate "Payment aggregate recovery")

  unfoldable pub prove : Step O RunnerResult
  unfolding ◌>>=◌ support_flow payment_flow aggregate_flow
  prove = do
    report O discovering
    initialize_session O request.mandate_flow_capability
    assert_full_grant_discovery O request.mandate_flow_capability
    report O support_path
    support_flow "Support lookup" "Support Case transform" "Support CRM recovery"
    report O payment_path
    payment_flow
    report O recording_recovery
    aggregate_flow
    report O verifying_recovery
    support_flow "Fresh Support lookup" "Fresh Support Case transform" "Fresh Support CRM recovery"
    pure (result_with request proof_output)

  unfoldable pub run : Step O RunnerResult
  run =
      if is_empty request.mandate_flow_capability
      then throw no_capability
      else if is_retry_prompt request.prompt
      then replay
      else prove
