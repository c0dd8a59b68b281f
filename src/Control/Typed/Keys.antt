-- ===== src/Control/Typed/Keys.antt =====
-- mandateflow-client.ts: the readings of the keys of an object whose keys are accepted.
use mandate_flow.Base.{◌≡◌, String, true, Option, some}
use mandate_flow.Json.{Json, Fields, get}
use mandate_flow.Control.{
  Schema, any_text, nonempty, nullable, required, optional, Shape, accepts_keys,
}
use mandate_flow.Control.Taken.{read_text, present, possible, possible_null}
use mandate_flow.Control.Typed.Reading.{
  Gives, Some, Given, Nonempty, accepted_at, schema_at, Reads, present-Gives, possible-Gives,
  possible_given, possible_null-Gives, Reads-text, Reads-nonempty,
}

module _ (shape : Shape) (fields : Fields) (h : accepts_keys shape fields ≡ true) where
  pub at {ℓ} :
      {A : Type 0} {P : A → Type ℓ} {read : Json → Option A} (name : String) (schema : Schema)
      → schema_at name shape ≡ some (required name schema)
      → Reads schema P read
      → Gives P (present read (get name fields))
  at name schema here reads =
      present-Gives schema (get name fields) reads
        (accepted_at name shape (required name schema) fields here h)

  pub given_at :
      {A : Type 0} {P : A → Type 0} {read : Json → Option A} (name : String) (schema : Schema)
      → schema_at name shape ≡ some (required name schema)
      → Reads schema P read
      → Gives (Given P) (possible read (get name fields))
  given_at name schema here reads =
      possible_given schema (get name fields) reads
        (accepted_at name shape (required name schema) fields here h)

  pub perhaps_at {ℓ} :
      {A : Type 0} {P : A → Type ℓ} {read : Json → Option A} (name : String) (schema : Schema)
      → schema_at name shape ≡ some (optional name schema)
      → Reads schema P read
      → Gives Some (possible read (get name fields))
  perhaps_at name schema here reads =
      possible-Gives schema (get name fields) reads
        (accepted_at name shape (optional name schema) fields here h)

  pub null_at :
      {A : Type 0} {read : Json → Option A} (name : String) (schema : Schema)
      → schema_at name shape ≡ some (optional name (nullable schema))
      → Reads schema Some read
      → Gives Some (possible_null read (get name fields))
  null_at name schema here reads =
      possible_null-Gives schema (get name fields) reads
        (accepted_at name shape (optional name (nullable schema)) fields here h)

  pub text_at :
      (name : String)
      → schema_at name shape ≡ some (required name any_text)
      → Gives Some (present read_text (get name fields))
  text_at name here = at name any_text here Reads-text

  pub named_at :
      (name : String)
      → schema_at name shape ≡ some (required name nonempty)
      → Gives Nonempty (present read_text (get name fields))
  named_at name here = at name nonempty here Reads-nonempty

  pub perhaps_text_at :
      (name : String)
      → schema_at name shape ≡ some (optional name any_text)
      → Gives Some (possible read_text (get name fields))
  perhaps_text_at name here = perhaps_at name any_text here Reads-text
