-- ===== src/Groq.antt =====
-- CodeJam/apps/server/src/groq-responses.ts: the requests that the proxy passes on to Groq, and how
-- often it repeats one.
pub mod Requests
pub mod Retries
use mandate_flow.Base.{
  ℕ, ◌+◌, ◌*◌, min, max, zero, suc, String, Bool, true, false, not, ◌&&◌, ◌||◌, Option, none, some,
  List, [], ◌∷◌, ◌==◌, if◌then◌else◌,
}
use mandate_flow.Model.{Error, other, Result, ok, err}
use mandate_flow.Json.{
  Json, null, boolean, number, text, array, object, Items, blank, item, Fields, bare, field, get,
  delete, says, put,
}

abbrev pub unsupported_request_fields : List String
unsupported_request_fields =
    "access_programs" ∷ "client_metadata" ∷ "include" ∷ "previous_response_id" ∷ "prompt"
    ∷ "prompt_cache_key" ∷ "safety_identifier" ∷ "store" ∷ "truncation" ∷ []

-- `for (const field of fields) delete request[field]`
pub delete_all : List String → Fields → Fields
delete_all [] request = request
delete_all (name ∷ names) request = delete_all names (delete name request)

-- A record that is an object with no keys.
abbrev is_bare : Option Json → Bool
is_bare (some (object bare)) = true
is_bare _ = false

pub drop_bare_reasoning : Fields → Fields
drop_bare_reasoning request =
    if is_bare (get "reasoning" request) then delete "reasoning" request else request

abbrev pub is_function : Json → Bool
is_function (object fields) = says "type" "function" fields
is_function _ = false

abbrev pub functions : Items → Items
functions blank = blank
functions (item tool rest) =
    let kept = functions rest in if is_function tool then item tool kept else kept

abbrev pub with_tools : Items → Fields → Fields
with_tools blank request = delete "tool_choice" (delete "tools" request)
with_tools (item tool rest) request = put "tools" (array (item tool rest)) request

abbrev pub keep_functions : Option Json → Fields → Fields
keep_functions (some (array tools)) request = with_tools (functions tools) request
keep_functions _ request = request

pub only_functions : Fields → Fields
only_functions request = keep_functions (get "tools" request) request

abbrev not_an_object : Error
not_an_object = other "Groq Responses request must be a JSON object"

unfoldable pub sanitize_groq_responses_request : Json → Result Fields
unfolding delete_all drop_bare_reasoning only_functions
sanitize_groq_responses_request (object value) =
    ok (only_functions (drop_bare_reasoning (delete_all unsupported_request_fields value)))
sanitize_groq_responses_request null = err not_an_object
sanitize_groq_responses_request (boolean b) = err not_an_object
sanitize_groq_responses_request (number n) = err not_an_object
sanitize_groq_responses_request (text s) = err not_an_object
sanitize_groq_responses_request (array items) = err not_an_object
