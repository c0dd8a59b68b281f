-- ===== src/Http/Bodies.antt =====
-- app.ts: the schemas of the parameters and of the bodies.
use mandate_flow.Base.{
  ℕ, leb, String, Bool, true, false, ◌&&◌, ◌==◌, Option, none, some, length_units, trim,
  if◌then◌else◌,
}
use mandate_flow.Model.{CreateAgentInput, UpdateAgentInput, DemoOwnerPrincipal}
use mandate_flow.Json.{Json, text, object, Fields, get}

-- What `parse` gives; a `ZodError` otherwise.
pub data Checked {ℓ} (A : Type ℓ) : Type ℓ where
  invalid : Checked A
  checked : A → Checked A

infixl 5 ◌>>=◌
abbrev pub ◌>>=◌ {ℓ κ} : {A : Type ℓ} {B : Type κ} → Checked A → (A → Checked B) → Checked B
invalid >>= next = invalid
checked a >>= next = next a

abbrev pub within : ℕ → ℕ → String → Bool
within low high s = leb low (length_units s) && leb (length_units s) high

-- `z.string().max(n).optional()`
abbrev pub optional_text : ℕ → Option Json → Checked (Option String)
optional_text max none = checked none
optional_text max (some (text s)) = if leb (length_units s) max then checked (some s) else invalid
optional_text max (some _) = invalid

-- `z.string().trim().min(1).max(n)`
abbrev pub trimmed_text : ℕ → Option Json → Checked String
trimmed_text max (some (text s)) = if within 1 max (trim s) then checked (trim s) else invalid
trimmed_text max _ = invalid

abbrev pub optional_name : Option Json → Checked (Option String)
optional_name none = checked none
optional_name (some value) = trimmed_text 80 (some value) >>= λ s. checked (some s)

abbrev pub owner : Option Json → Checked DemoOwnerPrincipal
owner none = checked DemoOwnerPrincipal.user_a
owner (some (text s)) =
    if s == "user-a"
    then checked DemoOwnerPrincipal.user_a
    else if s == "user-b"
    then checked DemoOwnerPrincipal.user_b
    else invalid
owner (some _) = invalid

-- `z.object`
abbrev pub fields_of : Option Json → Checked Fields
fields_of (some (object fields)) = checked fields
fields_of _ = invalid

unfoldable pub create_agent_body : Option Json → Checked CreateAgentInput
unfolding length_units trim
create_agent_body body = do
  fields ← fields_of body
  name ← trimmed_text 80 (get "name" fields)
  description ← optional_text 500 (get "description" fields)
  instructions ← optional_text 10000 (get "instructions" fields)
  owner_principal ← owner (get "ownerPrincipal" fields)
  checked (record {
    name = name;
    owner_principal = some owner_principal;
    description = description;
    instructions = instructions;
  })

abbrev any_there : Option String → Option String → Option String → Bool
any_there none none none = false
any_there _ _ _ = true

-- `refine`
abbrev pub at_least_one : UpdateAgentInput → Checked UpdateAgentInput
at_least_one input =
    if any_there input.name input.description input.instructions then checked input else invalid

unfoldable pub update_agent_body : Option Json → Checked UpdateAgentInput
unfolding length_units trim
update_agent_body body = do
  fields ← fields_of body
  name ← optional_name (get "name" fields)
  description ← optional_text 500 (get "description" fields)
  instructions ← optional_text 10000 (get "instructions" fields)
  at_least_one (record { name = name; description = description; instructions = instructions })

unfoldable pub message_body : Option Json → Checked String
unfolding length_units trim
message_body body = do fields ← fields_of body; trimmed_text 50000 (get "content" fields)

-- `z.string().min(8).max(128)`
unfoldable pub mandate_param : String → Checked String
unfolding length_units
mandate_param id = if within 8 128 id then checked id else invalid
