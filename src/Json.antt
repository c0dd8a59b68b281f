-- ===== src/Json.antt =====
-- What `JSON.parse` gives, and the tests that the code makes on it. Numbers are whole and not
-- negative, as the counters and the milliseconds of Codex are. An object has each key once.
use mandate_flow.Base.{ℕ, String, Bool, false, Option, none, some, ◌==◌, if◌then◌else◌}

mutual
  pub data Json : Type 0 where
    null : Json
    boolean : Bool → Json
    number : ℕ → Json
    text : String → Json
    array : Items → Json
    object : Fields → Json

  pub data Items : Type 0 where
    blank : Items
    item : Json → Items → Items

  pub data Fields : Type 0 where
    bare : Fields
    field : String → Json → Fields → Fields

-- `value.key`: a missing key is `undefined`.
abbrev pub get : String → Fields → Option Json
get key bare = none
get key (field name value rest) = if name == key then some value else get key rest

-- `delete value.key`
abbrev pub delete : String → Fields → Fields
delete key bare = bare
delete key (field name value rest) =
    let kept = delete key rest in if name == key then kept else field name value kept

-- `typeof value === "string"`
abbrev pub as_text : Option Json → Option String
as_text (some (text s)) = some s
as_text _ = none

abbrev pub as_number : Option Json → Option ℕ
as_number (some (number n)) = some n
as_number _ = none

-- `value && typeof value === "object"`; an array has none of the keys that the code reads.
abbrev pub as_object : Option Json → Option Fields
as_object (some (object fields)) = some fields
as_object (some (array items)) = some bare
as_object _ = none

-- `value.key === "…"`
abbrev pub says : String → String → Fields → Bool
says key expected fields = elim (as_text (get key fields)) [ none ↦ false | some s ↦ s == expected ]

-- `value.key = …`, which keeps the place of a key that is there.
abbrev pub put : String → Json → Fields → Fields
put key new bare = field key new bare
put key new (field name value rest) =
    let later = put key new rest in
    if name == key then field name new rest else field name value later
