-- ===== src/Tests/Runtimes.antt =====
-- The output of Codex, and requests to Groq.
use mandate_flow.Base.{◌≡◌, refl, ℕ, true, false, not, any, Option, none, some, List, [], ◌∷◌, pos}
use mandate_flow.Model.{ok, is_ok, Result}
use mandate_flow.Json.{
  Json, null, text, boolean, array, object, Fields, bare, field, blank, item, get,
}
use mandate_flow.Codex.{ParsedEvents}
use mandate_flow.Codex.Lines.{parse_codex_event_line, parse_lines, on_event}
use mandate_flow.Codex.Collected.{is_null, parse_lines-messages_of, parse_lines_lem}
use mandate_flow.Groq.{sanitize_groq_responses_request}
use mandate_flow.Groq.Requests.{SafeTools, sanitize_groq_responses_request_lem}
use mandate_flow.Groq.Retries.{Response, Outcome, Ended, fetch_upstream, fetch_upstream_lem}
use mandate_flow.Tests.Data.{redaction}

abbrev nothing_yet : ParsedEvents
nothing_yet = record {
  messages = [];
  thread_id = none;
  usage = none;
  errors = [];
  assistant_streaming = false;
  reported = [];
}

abbrev message : Fields
message = field "type" (text "agent_message") (field "text" (text "Done.") bare)

abbrev completed : Fields
completed = field "type" (text "item.completed") (field "item" (object message) bare)

abbrev lines : List (Option Json)
lines = none ∷ some (object completed) ∷ []

parse_lines-messages_of_example : (on_event redaction completed nothing_yet).messages ≡ "Done." ∷ []
unfolding parse_lines parse_codex_event_line
parse_lines-messages_of_example =
    parse_lines-messages_of redaction lines nothing_yet (on_event redaction completed nothing_yet)
      refl

parse_lines_lem_example :
    is_ok (parse_lines redaction (some null ∷ lines) nothing_yet)
    ≡ not (any is_null (some null ∷ lines))
parse_lines_lem_example = parse_lines_lem redaction (some null ∷ lines) nothing_yet

abbrev function_tool : Json
function_tool = object (field "type" (text "function") bare)

abbrev web_search : Json
web_search = object (field "type" (text "web_search") bare)

abbrev request : Json
request = object (
    field "store" (boolean true)
      (field "tools" (array (item web_search (item function_tool blank))) bare))

abbrev passed_on : Fields
passed_on = field "tools" (array (item function_tool blank)) bare

sanitize_groq_responses_request_lem_example :
    (get "store" passed_on ≡ none) × SafeTools (get "tools" passed_on)
unfolding sanitize_groq_responses_request
sanitize_groq_responses_request_lem_example =
    sanitize_groq_responses_request_lem request passed_on "store" refl refl

abbrev refused : ℕ → Result Response
refused attempt = ok (record { status = 429; retry_after = some (pos 1000) })

fetch_upstream_lem_example : (o : Outcome) × (fetch_upstream 4 0 refused ≡ some o) × Ended 4 o
fetch_upstream_lem_example = fetch_upstream_lem refused
