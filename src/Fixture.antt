-- ===== src/Fixture.antt =====
-- CodeJam/apps/server/src/fixture-runner.ts: a Runtime that calls the protected tools in the order
-- of the proof, without a model. The MCP gateway, the disk and the clock are parameters. The Runner
-- is given an `onProgress`, as the service does.
pub mod Calls
pub mod Steps
pub mod Run
pub mod Receipts
pub mod Transcript
pub mod Ends
pub mod Effects
pub mod Flow
pub mod Complete
pub mod Restart
pub mod Retry
use mandate_flow.Base.{
  ℕ, ◌-◌, String, Bool, true, false, not, Option, none, some, List, push, is_empty, eqb,
}
use mandate_flow.Model.{RunnerProgressEvent, Error, Result, ok, err}
use mandate_flow.Json.{Json, null, boolean, number, text, array, object, Fields}

-- What `mcpRequest` sends.
pub record McpRequest : Type 0 where
  pub capability : String
  pub id : ℕ
  pub method : String
  pub params : Fields

-- `response.ok`, `response.status`, and the body, `{}` where it is no JSON.
pub record HttpReply : Type 0 where
  pub is_success : Bool
  pub status : String
  pub payload : Json

-- `fetch`, which may fail; a file that is read and parsed, or serialised and written; `Date.now`,
-- which does not go back; and `JSON.parse`.
pub record Outside : Type 1 where
  pub State : Type 0
  pub exchange : State → McpRequest → State × Result HttpReply
  pub read_json : State → String → Result Json
  pub write_json : State → String → Json → State × Result (Unit {0})
  pub chmod : State → String → State × Result (Unit {0})
  pub now : State → ℕ
  pub parse : String → Result Json

-- The Runner's fields, what its `onProgress` was told, and what lies outside.
pub record World (O : Outside) : Type 0 where
  pub outside : O.State
  pub request_number : ℕ
  pub payment_case_references : List (String × Json)
  pub reported : List RunnerProgressEvent

-- A step that may throw. What it has done by then stays done.
abbrev pub Step {ℓ} : Outside → Type ℓ → Type ℓ
Step O A = World O → World O × Result A

module _ {ℓ} {O : Outside} {A : Type ℓ} where
  abbrev pub pure : A → Step O A
  pure a w = (w, ok a)

  abbrev pub throw : Error → Step O A
  throw e w = (w, err e)

  abbrev pub lift : Result A → Step O A
  lift r w = (w, r)

-- `if (!test) throw e`
abbrev pub ensure : {O : Outside} → Bool → Error → Step O (Unit {0})
ensure true e = pure tt
ensure false e = throw e

module _ {ℓ κ} {O : Outside} {A : Type ℓ} {B : Type κ} where
  abbrev pub go_on : (A → Step O B) → World O × Result A → World O × Result B
  go_on next (w, err e) = (w, err e)
  go_on next (w, ok a) = next a w

  infixl 5 ◌>>=◌ ◌>>◌
  unfoldable pub ◌>>=◌ : Step O A → (A → Step O B) → Step O B
  ◌>>=◌ step next w = go_on next (step w)

  abbrev pub ◌>>◌ : Step O A → Step O B → Step O B
  step >> next = step >>= (λ _. next)

-- A value in a condition.
abbrev pub holds : Json → Bool
holds null = false
holds (boolean b) = b
holds (number n) = not (eqb n 0)
holds (text s) = not (is_empty s)
holds (array items) = true
holds (object fields) = true

abbrev pub holds? : Option Json → Bool
holds? none = false
holds? (some value) = holds value
