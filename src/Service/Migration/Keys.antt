-- ===== src/Service/Migration/Keys.antt =====
-- store.ts: an assignment to one key, and the values of the keys.
use mathlib.Core.Path.{subst}
use mathlib.Core.Option.{some-injective}
use mandate_flow.Base.{
  ◌≡◌, refl, sym, ap, inl, inr, String, false, ◌==◌, some, eq_iff, Bool-cases, arith,
}
use mandate_flow.Json.{Json, Fields, bare, field, get, put}

pub get-put_other :
    (key other : String) (new : Json) (fields : Fields)
    → (other == key) ≡ false
    → get key (put other new fields) ≡ get key fields
get-put_other key other new bare apart = rw apart refl
get-put_other key other new (field name value rest) apart = elim (Bool-cases (name == other)) [
  | inl hit ↦
      let miss = subst (λ s. (s == key) ≡ false) (sym ((eq_iff name other).0 hit)) apart in
      rw (hit, miss) refl
  | inr miss ↦ rw miss (ground (arith, get-put_other key other new rest apart))
]

-- A value that a key has already changes nothing.
pub put-get :
    (key : String) (value : Json) (fields : Fields)
    → get key fields ≡ some value
    → put key value fields ≡ fields
put-get key value bare h = ground arith
put-get key value (field name other rest) h = elim (Bool-cases (name == key)) [
  | inl hit ↦ rw hit (ap (λ v. field name v rest) (sym (some-injective other value (rw hit at h))))
  | inr miss ↦ rw (miss, put-get key value rest (rw miss at h)) refl
]
