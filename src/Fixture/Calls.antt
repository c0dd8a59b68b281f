-- ===== src/Fixture/Calls.antt =====
-- fixture-runner.ts: what `mcpRequest` and `callTool` make of a reply.
use Prim.Native.String
use mandate_flow.Base.{
  String, Bool, true, false, not, ◌&&◌, Option, none, some, or_else, if◌then◌else◌,
}
use mandate_flow.Model.{Error, other, Result, ok, err}
use mandate_flow.Model.{◌>>=◌, ◌>>◌, throw_if}
use mandate_flow.Json.{
  Json, null, boolean, text, array, object, Items, blank, item, Fields, get, as_text, says,
}
use mandate_flow.Fixture.{HttpReply, holds?}

abbrev pub type_error : Error
type_error = other "Cannot read properties of null"

-- `value.key`: `null` throws, and no other value than an object has one of the keys read here.
abbrev pub property : String → Json → Result (Option Json)
property key null = err type_error
property key (object fields) = ok (get key fields)
property key _ = ok none

-- `value?.key`, of a value that is no `null`.
abbrev pub property? : String → Option Json → Option Json
property? key (some (object fields)) = get key fields
property? key _ = none

-- `payload.error.message ?? …`; a message is a text.
abbrev error_message : Option Json → String
error_message error =
    or_else (as_text (property? "message" error)) "MandateFlow fixture MCP request failed"

abbrev present : Option Json → Result Json
present none = err (other "MandateFlow fixture MCP response did not contain a result")
present (some result) = ok result

-- What `mcpRequest` makes of a reply.
unfoldable pub result_of : HttpReply → Result Json
result_of reply = do
  throw_if (not reply.is_success)
      (other (String.◌++◌ "MandateFlow fixture MCP request failed with HTTP " reply.status))
  error ← property "error" reply.payload
  throw_if (holds? error) (other (error_message error))
  result ← property "result" reply.payload
  present result

-- The first text among the contents.
abbrev is_text : Fields → Option String
is_text fields = if says "type" "text" fields then as_text (get "text" fields) else none

abbrev first_text : Items → Result (Option String)
first_text blank = ok none
first_text (item null rest) = err type_error
first_text (item (object fields) rest) =
    let found = first_text rest in elim (is_text fields) [ none ↦ found | some s ↦ ok (some s) ]
first_text (item _ rest) = first_text rest

-- `result.content?.find(…)?.text`; what is no array has no `find`.
abbrev content_text : Option Json → Result (Option String)
content_text none = ok none
content_text (some null) = ok none
content_text (some (array items)) = first_text items
content_text (some _) = err (other "result.content?.find is not a function")

abbrev said : String → Option String → Result String
said name none = err (
    other
      (String.◌++◌ "MandateFlow fixture tool " (String.◌++◌ name " returned no structured result")))
said name (some s) = ok s

abbrev is_boolean : Option Json → Bool
is_boolean (some (boolean b)) = true
is_boolean _ = false

abbrev is_string : Option Json → Bool
is_string (some (text s)) = true
is_string _ = false

abbrev invalid_result : String → Error
invalid_result name =
    other (String.◌++◌ "MandateFlow fixture tool " (String.◌++◌ name " returned an invalid result"))

-- `ok` is a boolean and `message` a text.
abbrev well_formed : String → Json → Result Fields
well_formed name null = err type_error
well_formed name (object fields) =
    if is_boolean (get "ok" fields) && is_string (get "message" fields)
    then ok fields
    else err (invalid_result name)
well_formed name _ = err (invalid_result name)

-- What `callTool` makes of the result.
unfoldable pub tool_result : (String → Result Json) → String → Json → Result Fields
tool_result parse name result = do
  content ← property "content" result
  found ← content_text content
  s ← said name found
  parsed ← parse s
  well_formed name parsed

-- What the flow reads of a tool's result.
abbrev pub is_ok_result : Fields → Bool
is_ok_result result = holds? (get "ok" result)

abbrev pub is_payment_denial : Fields → Bool
is_payment_denial result =
    not (is_ok_result result)
    && says "code" "FLOW_DENIED" result
    && says "ruleId" "NO_PAYMENT_REIDENTIFICATION" result

-- `result.reference?.reference`
abbrev reference_of : Fields → Option Json
reference_of result = property? "reference" (get "reference" result)

abbrev held : Error → Option Json → Result Json
held e none = err e
held e (some value) = if holds? (some value) then ok value else err e

unfoldable pub require_reference : Fields → String → Result Json
require_reference result label =
    let failed = other (String.◌++◌ label " did not return an opaque protected reference") in
    if is_ok_result result then held failed (reference_of result) else err failed

-- `result.code`; a code is a text.
unfoldable pub require_success : Fields → String → Result (Unit {0})
require_success result label =
    if is_ok_result result
    then ok tt
    else err (
        other (
          String.◌++◌ label
            (String.◌++◌ " was denied: " (or_else (as_text (get "code" result)) "unknown"))))
