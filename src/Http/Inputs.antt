-- ===== src/Http/Inputs.antt =====
-- app.ts: what the schemas let through is within their bounds.
use mandate_flow.Base.{
  ℕ, ◌≤◌, ◌≡◌, refl, String, Bool, true, false, Option, none, some, length_units, trim,
  if◌then◌else◌, arith,
}
use mandate_flow.Model.{CreateAgentInput, UpdateAgentInput}
use mandate_flow.Json.{Json, text, get}
use mandate_flow.Http.Bodies.{
  Checked, checked, invalid, ◌>>=◌, within, trimmed_text, optional_text, optional_name, owner,
  fields_of, at_least_one, create_agent_body, update_agent_body, message_body, mandate_param,
}

abbrev pub Between : ℕ → ℕ → String → Type 0
Between low high s = (low ≤ length_units s) × (length_units s ≤ high)

abbrev pub OptionalUpTo : ℕ → Option String → Type 0
OptionalUpTo high none = Unit
OptionalUpTo high (some s) = length_units s ≤ high

abbrev pub OptionalName : Option String → Type 0
OptionalName none = Unit
OptionalName (some s) = Between 1 80 s

abbrev pub Good {ℓ} : {A : Type ℓ} → (A → Type 0) → Checked A → Type 0
Good P invalid = Unit
Good P (checked a) = P a

module _ {A B : Type 0} where
  pub Good-bind :
      (P : A → Type 0) (Q : B → Type 0) (c : Checked A) (f : A → Checked B)
      → Good P c
      → ((a : A) → P a → Good Q (f a))
      → Good Q (c >>= f)
  Good-bind P Q invalid f h k = tt
  Good-bind P Q (checked a) f h k = k a h

pub Good-if :
    {A : Type 0} (P : A → Type 0) (b : Bool) (a : A)
    → (b ≡ true → P a)
    → Good P (if b then checked a else invalid)
Good-if P true a h = h refl
Good-if P false a h = tt

within-Between : (low high : ℕ) (s : String) → within low high s ≡ true → Between low high s
within-Between low high s h = ground arith

trimmed_text-Good : (max : ℕ) (value : Option Json) → Good (Between 1 max) (trimmed_text max value)
trimmed_text-Good max (some (text s)) =
    Good-if (Between 1 max) _ (trim s) (within-Between 1 max (trim s))
trimmed_text-Good max _ = tt

optional_text-Good :
    (max : ℕ) (value : Option Json) → Good (OptionalUpTo max) (optional_text max value)
optional_text-Good max none = tt
optional_text-Good max (some (text s)) = Good-if (OptionalUpTo max) _ (some s) λ h. ground arith
optional_text-Good max _ = tt

optional_name-Good : (value : Option Json) → Good OptionalName (optional_name value)
optional_name-Good none = tt
optional_name-Good (some value) =
    Good-bind (Between 1 80) OptionalName (trimmed_text 80 (some value)) (λ s. checked (some s))
      (trimmed_text-Good 80 (some value)) (λ s h. h)

pub any-Good : {A : Type 0} (c : Checked A) → Good (λ _. Unit) c
any-Good invalid = tt
any-Good (checked a) = tt

abbrev pub CreateBounds : CreateAgentInput → Type 0
CreateBounds input =
    Between 1 80 input.name
    × (OptionalUpTo 500 input.description × OptionalUpTo 10000 input.instructions)

abbrev pub UpdateBounds : UpdateAgentInput → Type 0
UpdateBounds input =
    OptionalName input.name
    × (OptionalUpTo 500 input.description × OptionalUpTo 10000 input.instructions)

pub create_agent_body-Good : (body : Option Json) → Good CreateBounds (create_agent_body body)
unfolding create_agent_body
create_agent_body-Good body =
    Good-bind _ _ (fields_of body) _ (any-Good (fields_of body)) λ fields _.
      Good-bind _ _ (trimmed_text 80 (get "name" fields)) _
        (trimmed_text-Good 80 (get "name" fields))
        λ name n.
          Good-bind _ _ (optional_text 500 (get "description" fields)) _
            (optional_text-Good 500 (get "description" fields))
            λ description d.
              Good-bind _ _ (optional_text 10000 (get "instructions" fields)) _
                (optional_text-Good 10000 (get "instructions" fields))
                λ instructions i.
                  Good-bind (λ _. Unit) CreateBounds (owner (get "ownerPrincipal" fields)) _
                    (any-Good (owner (get "ownerPrincipal" fields))) λ principal _. (n, (d, i))

at_least_one-Good :
    (input : UpdateAgentInput) → UpdateBounds input → Good UpdateBounds (at_least_one input)
at_least_one-Good input h = Good-if UpdateBounds _ input λ _. h

pub update_agent_body-Good : (body : Option Json) → Good UpdateBounds (update_agent_body body)
unfolding update_agent_body
update_agent_body-Good body =
    Good-bind _ _ (fields_of body) _ (any-Good (fields_of body)) λ fields _.
      Good-bind _ _ (optional_name (get "name" fields)) _ (optional_name-Good (get "name" fields))
        λ name n.
          Good-bind _ _ (optional_text 500 (get "description" fields)) _
            (optional_text-Good 500 (get "description" fields))
            λ description d.
              Good-bind _ UpdateBounds (optional_text 10000 (get "instructions" fields)) _
                (optional_text-Good 10000 (get "instructions" fields))
                λ instructions i.
                  at_least_one-Good
                    (record { name = name; description = description; instructions = instructions })
                    (n, (d, i))

pub message_body-Good : (body : Option Json) → Good (Between 1 50000) (message_body body)
unfolding message_body
message_body-Good body =
    Good-bind _ _ (fields_of body) _ (any-Good (fields_of body))
      λ fields _. trimmed_text-Good 50000 (get "content" fields)

pub mandate_param-Good : (id : String) → Good (Between 8 128) (mandate_param id)
unfolding mandate_param
mandate_param-Good id = Good-if (Between 8 128) _ id (within-Between 8 128 id)
