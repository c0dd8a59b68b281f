-- ===== src/Codex/Lines.antt =====
-- codex-runner.ts, `parseCodexEventLine`: one line of Codex's output, parsed as JSON or not at all.
use mandate_flow.Base.{
  String, true, false, Option, none, some, List, [], ◌∷◌, push, or_else, if◌then◌else◌,
}
use mandate_flow.Model.{
  RunProgressStage, RuntimeSessionEventKind, RuntimeSessionEventState, RunnerProgressEvent, Error,
  other, Result, ok, err, ◌>>=◌,
}
use mandate_flow.Session.{Redaction, create_runner_progress_event}
use mandate_flow.Json.{
  Json, null, boolean, number, text, array, object, Fields, get, as_text, as_number, as_object,
  says,
}
use mandate_flow.Codex.{ParsedEvents, progress_for_codex_item}

abbrev phase_event :
    RuntimeSessionEventKind → RuntimeSessionEventState → String → String → RunnerProgressEvent
phase_event kind state title detail =
    create_runner_progress_event RunProgressStage.phase kind state title detail none

-- `onProgress?.(…)`
abbrev report : RunnerProgressEvent → ParsedEvents → ParsedEvents
report event parsed = record parsed { reported = push parsed.reported event }

abbrev pub report_any : Option RunnerProgressEvent → ParsedEvents → ParsedEvents
report_any none parsed = parsed
report_any (some event) parsed = report event parsed

abbrev opened : Option String → ParsedEvents → ParsedEvents
opened none parsed = parsed
opened (some thread_id) parsed =
    report
      (phase_event RuntimeSessionEventKind.status RuntimeSessionEventState.completed
        "Codex session connected" "The Agent Runtime opened a secure coding session.")
      (record parsed { thread_id = some thread_id })

unfoldable pub on_thread_started : Fields → ParsedEvents → ParsedEvents
on_thread_started event parsed =
    if says "type" "thread.started" event
    then opened (as_text (get "thread_id" event)) parsed
    else parsed

unfoldable pub on_turn_started : Fields → ParsedEvents → ParsedEvents
on_turn_started event parsed =
    if says "type" "turn.started" event
    then report
        (phase_event RuntimeSessionEventKind.plan RuntimeSessionEventState.started
          "Agent is planning the next step"
          "The Agent is deciding whether to inspect files, edit code, run a command, or use a protected tool.")
        parsed
    else parsed

abbrev begun : Redaction → Option Fields → ParsedEvents → ParsedEvents
begun r none parsed = parsed
begun r (some fields) parsed =
    let shown = report_any (progress_for_codex_item r fields false) parsed in
    if says "type" "agent_message" fields
    then record shown { assistant_streaming = true }
    else shown

unfoldable pub on_item_started : Redaction → Fields → ParsedEvents → ParsedEvents
on_item_started r event parsed =
    if says "type" "item.started" event
    then begun r (as_object (get "item" event)) parsed
    else parsed

-- The text of an item that is a message of the Agent.
abbrev pub message_text : Fields → Option String
message_text fields =
    if says "type" "agent_message" fields then as_text (get "text" fields) else none

abbrev pub said : Option String → ParsedEvents → ParsedEvents
said none parsed = parsed
said (some message) parsed = record parsed {
  messages = push parsed.messages message;
  assistant_streaming = false;
}

abbrev done : Redaction → Option Fields → ParsedEvents → ParsedEvents
done r none parsed = parsed
done r (some fields) parsed =
    said (message_text fields) (report_any (progress_for_codex_item r fields true) parsed)

unfoldable pub on_item_completed : Redaction → Fields → ParsedEvents → ParsedEvents
on_item_completed r event parsed =
    if says "type" "item.completed" event
    then done r (as_object (get "item" event)) parsed
    else parsed

abbrev streamed : ParsedEvents → ParsedEvents
streamed parsed =
    if parsed.assistant_streaming
    then parsed
    else report
        (phase_event RuntimeSessionEventKind.assistant RuntimeSessionEventState.streaming
          "Agent response streaming"
          "The Agent is composing a response from the completed workspace work.")
        (record parsed { assistant_streaming = true })

unfoldable pub on_item_delta : Fields → ParsedEvents → ParsedEvents
on_item_delta event parsed = if says "type" "item.delta" event then streamed parsed else parsed

abbrev used : Option Fields → ParsedEvents → ParsedEvents
used none parsed = parsed
used (some usage) parsed = record parsed {
  usage = some (record {
    input_tokens = as_number (get "input_tokens" usage);
    cached_input_tokens = as_number (get "cached_input_tokens" usage);
    output_tokens = as_number (get "output_tokens" usage);
  });
}

unfoldable pub on_turn_completed : Fields → ParsedEvents → ParsedEvents
on_turn_completed event parsed =
    if says "type" "turn.completed" event
    then report
        (phase_event RuntimeSessionEventKind.status RuntimeSessionEventState.completed
          "Agent turn complete" "The Runtime finished this turn and is returning the result.")
        (used (as_object (get "usage" event)) parsed)
    else parsed

abbrev error_text : Fields → String
error_text event =
    or_else (as_text (get "message" event))
      (or_else (as_text (get "error" event)) "Codex reported an unknown error")

unfoldable pub on_error : Fields → ParsedEvents → ParsedEvents
on_error event parsed =
    if says "type" "error" event
    then report
        (create_runner_progress_event RunProgressStage.error RuntimeSessionEventKind.error
          RuntimeSessionEventState.failed "Codex reported an error"
          "The Agent Runtime reported a problem before the Run could finish." none)
        (record parsed { errors = push parsed.errors (error_text event) })
    else parsed

-- The tests of the type, one after the other.
unfoldable pub on_event : Redaction → Fields → ParsedEvents → ParsedEvents
unfolding on_thread_started on_turn_started on_item_started on_item_completed on_item_delta
    on_turn_completed on_error
on_event r event parsed =
    let opening = on_turn_started event (on_thread_started event parsed) in
    let items = on_item_completed r event (on_item_started r event opening) in
    on_error event (on_turn_completed event (on_item_delta event items))

abbrev no_property : Error
no_property = other "Cannot read properties of null (reading 'type')"

-- `line` is what `JSON.parse` makes of the line, `none` where it throws. A value with no properties
-- has no type; `null` has none that can be read.
unfoldable pub parse_codex_event_line : Redaction → Option Json → ParsedEvents → Result ParsedEvents
unfolding on_event
parse_codex_event_line r none parsed = ok parsed
parse_codex_event_line r (some null) parsed = err no_property
parse_codex_event_line r (some (object event)) parsed = ok (on_event r event parsed)
parse_codex_event_line r (some (boolean b)) parsed = ok parsed
parse_codex_event_line r (some (number n)) parsed = ok parsed
parse_codex_event_line r (some (text s)) parsed = ok parsed
parse_codex_event_line r (some (array items)) parsed = ok parsed

-- All lines of an output, in their order.
unfoldable pub parse_lines : Redaction → List (Option Json) → ParsedEvents → Result ParsedEvents
unfolding parse_codex_event_line
parse_lines r [] parsed = ok parsed
parse_lines r (line ∷ lines) parsed =
    parse_codex_event_line r line parsed >>= λ next. parse_lines r lines next
