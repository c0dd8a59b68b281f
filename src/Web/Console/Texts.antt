-- ===== src/Web/Console/Texts.antt =====
-- App.tsx: the texts that it makes of identifiers and of errors.
use mandate_flow.Base.{
  ℕ, leb, eqb, String, Bool, ◌||◌, Option, or_else, includes, codes, lower_codes, if◌then◌else◌,
}

abbrev mentions : String → String → Bool
mentions part s = includes (codes part) (lower_codes (codes s))

-- `friendlyRunError`
unfoldable pub friendly_run_error : Option String → String
friendly_run_error value =
    let message = or_else value "The Runtime did not return a result." in
    if mentions "429" message || mentions "too many requests" message
    then "The model provider is rate-limiting requests right now. Wait a moment and try again, or check the configured provider limits."
    else if mentions "timed out" message
    then "The Runtime did not respond before the timeout. Stop the Run, then try again with a smaller request."
    else if mentions "without an agent message" message
    then "The Runtime closed without returning a response. Try the request again."
    else message

-- `friendlyRequestError` of an `ApiError`
unfoldable pub friendly_request_error : String → ℕ → String → String
friendly_request_error message status fallback =
    if eqb status 401
    then "Your access token is no longer valid. Enter it again."
    else if eqb status 404
    then "That Agent or workflow is no longer available. Refresh and try again."
    else if leb 500 status
    then fallback
    else message
