-- ===== src/Control/Typed/Reading.antt =====
-- mandateflow-client.ts: what the parts of a schema say of the values that pass them.
use mandate_flow.Base.{
  and_both, pos, ◌≡◌, refl, sym, inl, inr, String, true, false, ◌==◌, Option, none, some, List, [],
  ◌∷◌, is_empty, Bool-cases, if◌then◌else◌, arith,
}
use mathlib.Core.Path.{subst}
use mathlib.Core.Option.{some-injective, some-ne-none}
use mandate_flow.Json.{
  Json, null, boolean, number, text, array, object, Items, blank, item, Fields, get,
}
use mandate_flow.Control.{
  Schema, any_text, nonempty, integer, any_boolean, one_of, nullable, array_of, strict, Key,
  required, optional, Shape, no_more, ◌&◌, name_of, all_named, all_items, is_in, fits, accepts,
  accepts_keys,
}
use mandate_flow.Control.Taken.{
  ◌>>=◌, read_text, read_integer, read_boolean, read_as, read_nullable, read_list, read_items,
  present, possible, possible_null, with_fields,
}

-- A reading gives a value that has a property.
pub record Gives {ℓ κ} {A : Type ℓ} (P : A → Type κ) (o : Option A) : Type (ℓ ⊔ κ) where
  pub value : A
  pub is : o ≡ some value
  pub holds : P value

abbrev pub Some {ℓ} : {A : Type ℓ} → A → Type 0
Some a = Unit

pub some-Gives {ℓ κ} : {A : Type ℓ} {P : A → Type κ} (a : A) → P a → Gives P (some a)
some-Gives a h = record { value = a; is = refl; holds = h }

pub chain {ℓ κ ℓ' κ'} :
    {A : Type ℓ} {B : Type ℓ'} {P : A → Type κ} {Q : B → Type κ'} {o : Option A} {k : A → Option B}
    → Gives P o
    → ((a : A) → P a → Gives Q (k a))
    → Gives Q (o >>= k)
unfolding ◌>>=◌
chain {k = k} g next =
    let rest = next g.value g.holds in
    record { value = rest.value; is = rw g.is rest.is; holds = rest.holds }

-- The schema that a shape has for a key.
abbrev pub schema_at : String → Shape → Option Key
schema_at name no_more = none
schema_at name (k & shape) = if name_of k == name then some k else schema_at name shape

abbrev pub AcceptedBy : Key → Fields → Type 0
AcceptedBy (required name schema) fields = fits false (accepts schema) (get name fields) ≡ true
AcceptedBy (optional name schema) fields = fits true (accepts schema) (get name fields) ≡ true

accepted_here :
    (k l : Key) (fields : Fields) → some k ≡ some l → AcceptedBy k fields → AcceptedBy l fields
accepted_here k l fields same h = subst (λ x. AcceptedBy x fields) (some-injective k l same) h

pub accepted_at :
    (name : String) (shape : Shape) (k : Key) (fields : Fields)
    → schema_at name shape ≡ some k
    → accepts_keys shape fields ≡ true
    → AcceptedBy k fields
unfolding accepts
accepted_at name no_more k fields here h = elim (some-ne-none k (sym here)) [ ]
accepted_at name (required n schema & shape) k fields here h =
    let (first, rest) = and_both (fits false (accepts schema) (get n fields)) _ h in
    elim (Bool-cases (n == name)) [
      | inl e ↦ accepted_here (required n schema) k fields (rw e at here) first
      | inr e ↦ accepted_at name shape k fields (rw e at here) rest
    ]
accepted_at name (optional n schema & shape) k fields here h =
    let (first, rest) = and_both (fits true (accepts schema) (get n fields)) _ h in
    elim (Bool-cases (n == name)) [
      | inl e ↦ accepted_here (optional n schema) k fields (rw e at here) first
      | inr e ↦ accepted_at name shape k fields (rw e at here) rest
    ]

-- A reading that gives a value with the property wherever the schema accepts.
abbrev pub Reads {ℓ} : {A : Type 0} → Schema → (A → Type ℓ) → (Json → Option A) → Type ℓ
Reads schema P read = (json : Json) → accepts schema json ≡ true → Gives P (read json)

pub present-Gives {ℓ} :
    {A : Type 0} {P : A → Type ℓ} {read : Json → Option A} (schema : Schema) (o : Option Json)
    → Reads schema P read
    → fits false (accepts schema) o ≡ true
    → Gives P (present read o)
present-Gives schema none reads h = ground arith
present-Gives schema (some json) reads h = reads json h

pub possible-Gives {ℓ} :
    {A : Type 0} {P : A → Type ℓ} {read : Json → Option A} (schema : Schema) (o : Option Json)
    → Reads schema P read
    → fits true (accepts schema) o ≡ true
    → Gives Some (possible read o)
possible-Gives schema none reads h = some-Gives none tt
possible-Gives schema (some json) reads h = chain (reads json h) (λ a holds. some-Gives (some a) tt)

pub Reads-text : Reads any_text Some read_text
unfolding accepts
Reads-text (text s) h = some-Gives s tt
Reads-text _ h = ground arith

abbrev pub Nonempty : String → Type 0
Nonempty s = is_empty s ≡ false

pub Reads-nonempty : Reads nonempty Nonempty read_text
unfolding accepts
Reads-nonempty (text s) h = some-Gives s (ground arith)
Reads-nonempty _ h = ground arith

pub Reads-integer : Reads integer Some read_integer
unfolding accepts
Reads-integer (number n) h = some-Gives (pos n) tt
Reads-integer _ h = ground arith

pub Reads-boolean : Reads any_boolean Some read_boolean
unfolding accepts
Reads-boolean (boolean b) h = some-Gives b tt
Reads-boolean _ h = ground arith

abbrev pub names_of : {A : Type 0} → List (String × A) → List String
names_of [] = []
names_of ((name, a) ∷ names) = name ∷ names_of names

read_as_text :
    {A : Type 0} (names : List (String × A)) (s : String)
    → is_in (names_of names) s ≡ true
    → Gives Some (read_as names (text s))
read_as_text [] s h = ground arith
read_as_text ((name, a) ∷ names) s h = elim (Bool-cases (name == s)) [
  | inl e ↦ rw e (some-Gives a tt)
  | inr e ↦ rw e (read_as_text names s (rw e at h))
]

pub Reads-one_of :
    {A : Type 0} (names : List (String × A)) → Reads (one_of (names_of names)) Some (read_as names)
unfolding accepts
Reads-one_of names (text s) h = read_as_text names s h
Reads-one_of names _ h = ground arith

pub Reads-nullable :
    {A : Type 0} {read : Json → Option A} (schema : Schema)
    → Reads schema Some read
    → Reads (nullable schema) Some (read_nullable read)
unfolding accepts
Reads-nullable schema reads null h = some-Gives none tt
Reads-nullable schema reads json h = chain (reads json h) (λ a holds. some-Gives (some a) tt)

read_items-Gives :
    {A : Type 0} {read : Json → Option A} (schema : Schema)
    → Reads schema Some read
    → (items : Items) → all_items (accepts schema) items ≡ true
    → Gives Some (read_items read items)
read_items-Gives schema reads blank h = some-Gives [] tt
read_items-Gives schema reads (item json items) h =
    let (first, rest) = and_both (accepts schema json) _ h in
    chain (reads json first)
      (λ a _. chain (read_items-Gives schema reads items rest) (λ list _. some-Gives (a ∷ list) tt))

pub Reads-list :
    {A : Type 0} {read : Json → Option A} (schema : Schema)
    → Reads schema Some read
    → Reads (array_of schema) Some (read_list read)
unfolding accepts
Reads-list schema reads (array items) h = read_items-Gives schema reads items h
Reads-list schema reads _ h = ground arith

pub Reads-fields {ℓ} :
    {A : Type 0} {P : A → Type ℓ} {read : Fields → Option A} (shape : Shape)
    → ((fields : Fields) → accepts_keys shape fields ≡ true → Gives P (read fields))
    → Reads (strict shape) P (with_fields read)
unfolding accepts
Reads-fields shape reads (object fields) h = reads fields (and_both (all_named shape fields) _ h).1
Reads-fields shape reads _ h = ground arith

-- An optional property that is there, with a property of its value.
abbrev pub Given : {A : Type 0} → (A → Type 0) → Option A → Type 0
Given P none = ⊥
Given P (some a) = P a

pub possible_given :
    {A : Type 0} {P : A → Type 0} {read : Json → Option A} (schema : Schema) (o : Option Json)
    → Reads schema P read
    → fits false (accepts schema) o ≡ true
    → Gives (Given P) (possible read o)
possible_given schema none reads h = ground arith
possible_given schema (some json) reads h =
    chain (reads json h) (λ a holds. some-Gives (some a) holds)

pub possible_null-Gives :
    {A : Type 0} {read : Json → Option A} (schema : Schema) (o : Option Json)
    → Reads schema Some read
    → fits true (accepts (nullable schema)) o ≡ true
    → Gives Some (possible_null read o)
possible_null-Gives schema none reads h = some-Gives none tt
possible_null-Gives schema (some json) reads h = Reads-nullable schema reads json h
