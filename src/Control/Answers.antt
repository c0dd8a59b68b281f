-- ===== src/Control/Answers.antt =====
-- mandateflow-client.ts: `request`, and what a method of the client makes of its answer.
use mandate_flow.Base.{ℕ, leb, String, Bool, ◌&&◌, Option, none, some, or_else, if◌then◌else◌}
use mandate_flow.Json.{Json, null, object, Fields, get, as_text}
use mandate_flow.Control.{strict, Shape, accepts}

-- What `fetch` is called with, besides the control token, which every request but `ready` carries.
pub record ControlRequest : Type 0 where
  pub path : String
  pub method : String
  pub body : Option Json

-- `body` is `{}` where the answer is no JSON.
pub record ControlReply : Type 0 where
  pub status : ℕ
  pub body : Json

-- A value; an `HttpError`; a `TypeError`; a `ZodError`; or a value that is none of the type that it is
-- taken for.
pub data Answer {ℓ} (A : Type ℓ) : Type ℓ where
  answered : A → Answer A
  refused : ℕ → String → Answer A
  type_error : Answer A
  schema_error : Answer A
  mistaken : Answer A

abbrev pub is_ok : ℕ → Bool
is_ok status = leb 200 status && leb status 299

abbrev unavailable : {A : Type 0} → Answer A
unavailable = refused 503 "MandateFlow control plane is unavailable"

abbrev error_of : Json → Option String
error_of (object fields) = as_text (get "error" fields)
error_of _ = none

abbrev pub refusal : ℕ → Json → Answer Json
refusal status null = type_error
refusal status json = refused status (or_else (error_of json) "MandateFlow request failed")

-- `request`, once `fetch` has ended
unfoldable pub request_answer : Option ControlReply → Answer Json
request_answer none = unavailable
request_answer (some reply) =
    if is_ok reply.status then answered reply.body else refusal reply.status reply.body

abbrev taken {ℓ} : {A : Type ℓ} → Option A → Answer A
taken none = mistaken
taken (some a) = answered a

-- `schema.parse(body) as A`
abbrev parse_object {ℓ} : {A : Type ℓ} → Shape → (Fields → Option A) → Json → Answer A
parse_object shape read (object fields) =
    if accepts (strict shape) (object fields) then taken (read fields) else schema_error
parse_object shape read _ = schema_error

unfoldable pub parsed {ℓ} : {A : Type ℓ} → Shape → (Fields → Option A) → Answer Json → Answer A
unfolding accepts
parsed shape read (answered json) = parse_object shape read json
parsed shape read (refused status message) = refused status message
parsed shape read type_error = type_error
parsed shape read schema_error = schema_error
parsed shape read mistaken = mistaken
