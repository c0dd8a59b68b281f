-- ===== src/Control.antt =====
-- CodeJam/apps/server/src/mandateflow-client.ts: what the server asks of the control plane, and what
-- it takes for an answer. zod's schemas are data, which `accepts` reads as zod does; the
-- numbers of JSON are whole and not negative here, so that both tests of a number take every one.
pub mod Schemas
pub mod Answers
pub mod Client
pub mod Taken
pub mod Typed
use mandate_flow.Base.{
  ℕ, String, Bool, true, false, not, ◌&&◌, ◌||◌, ◌==◌, Option, none, some, List, [], ◌∷◌, is_empty,
  any,
}
use mandate_flow.Json.{
  Json, null, boolean, number, text, array, object, Items, blank, item, Fields, bare, field, get,
}

mutual
  pub data Schema : Type 0 where
    any_text nonempty integer nonnegative any_boolean : Schema
    one_of : List String → Schema
    nullable : Schema → Schema
    array_of : Schema → Schema
    strict : Shape → Schema

  -- A key of an object, with the schema of its value.
  pub data Key : Type 0 where
    required optional : String → Schema → Key

  infixr 5 ◌&◌
  pub data Shape : Type 0 where
    no_more : Shape
    ◌&◌ : Key → Shape → Shape

abbrev pub name_of : Key → String
name_of (required name schema) = name
name_of (optional name schema) = name

abbrev pub is_named : String → Shape → Bool
is_named name no_more = false
is_named name (k & shape) = (name_of k == name) || is_named name shape

-- No key is there that the shape does not name.
abbrev pub all_named : Shape → Fields → Bool
all_named shape bare = true
all_named shape (field name value fields) = is_named name shape && all_named shape fields

abbrev pub all_items : (Json → Bool) → Items → Bool
all_items p blank = true
all_items p (item json items) = p json && all_items p items

abbrev pub is_in : List String → String → Bool
is_in [] s = false
is_in (t ∷ texts) s = (t == s) || is_in texts s

-- A key may be missing where the first argument says so.
abbrev pub fits : Bool → (Json → Bool) → Option Json → Bool
fits may_miss p none = may_miss
fits may_miss p (some json) = p json

-- `safeParse(json).success`. The numbers of Json are whole and not negative, so that `int()` and
-- `nonnegative()` refuse none of them; of negative numbers and fractions nothing is said.
unfoldable mutual
  pub accepts : Schema → Json → Bool
  accepts any_text (text s) = true
  accepts nonempty (text s) = not (is_empty s)
  accepts integer (number n) = true
  accepts nonnegative (number n) = true
  accepts any_boolean (boolean b) = true
  accepts (one_of texts) (text s) = is_in texts s
  accepts (nullable schema) null = true
  accepts (nullable schema) json = accepts schema json
  accepts (array_of schema) (array items) = all_items (accepts schema) items
  accepts (strict shape) (object fields) = all_named shape fields && accepts_keys shape fields
  accepts _ _ = false

  pub accepts_keys : Shape → Fields → Bool
  accepts_keys no_more fields = true
  accepts_keys (required name schema & shape) fields =
      fits false (accepts schema) (get name fields) && accepts_keys shape fields
  accepts_keys (optional name schema & shape) fields =
      fits true (accepts schema) (get name fields) && accepts_keys shape fields
