-- ===== src/Tests/Browser.antt =====
-- Requests of the browser to a server that keeps the last call, with a router that escapes `/` and `%`.
use Prim.Native.Char.{Char, char, code}
use package.text.Mathlib.TextEquality.{Char-path, eq_iff}
use package.text.Mathlib.TextLemmas.{cons-append, append_assoc, nil-append}
use mandate_flow.Base.{
  and_both, ℕ, ◌≡◌, refl, ap, ◌∙◌, inl, inr, String, ◌==◌, Bool, true, false, List, [], ◌∷◌,
  length_units, eqb, map, arith, Bool-cases, if◌then◌else◌,
}
use mandate_flow.Model.{Result, err, http}
use mandate_flow.Json.{Json, text}
use mandate_flow.Http.{Call}
use mandate_flow.Web.Api.Paths.{Router, ◌<>◌, path, is_plain, is_part, is_kept, all_parts}
use mandate_flow.Tests.Requests.{site}

abbrev slash : Char
slash = char 47 tt

abbrev percent : Char
percent = char 37 tt

abbrev add : Char → String → String
add = String.◌∷◌

-- `/` becomes `%S`, and `%` becomes `%P`.
abbrev escape : Char → String → String
escape c rest =
    if eqb (code c) 47
    then add percent (add (char 83 tt) rest)
    else if eqb (code c) 37
    then add percent (add (char 80 tt) rest)
    else add c rest

abbrev encode : String → String
encode String.[] = ""
encode (String.◌∷◌ c s) = escape c (encode s)

abbrev before : Char → List String → List String
before c [] = add c "" ∷ []
before c (s ∷ parts) = add c s ∷ parts

-- The parts between the slashes, decoded; the first argument says that `%` stands before.
abbrev divide : Bool → String → List String
divide escaped String.[] = "" ∷ []
divide true (String.◌∷◌ c s) = before (if eqb (code c) 83 then slash else percent) (divide false s)
divide false (String.◌∷◌ c s) =
    if eqb (code c) 47
    then "" ∷ divide false s
    else if eqb (code c) 37
    then divide true s
    else before c (divide false s)

abbrev rest_of : List String → List String
rest_of [] = []
rest_of (s ∷ parts) = parts

-- The parts behind `/api/`.
abbrev segments_of : String → List String
segments_of url = rest_of (rest_of (divide false url))

abbrev join : String → List String → List String
join String.[] parts = parts
join (String.◌∷◌ c s) parts = before c (join s parts)

same : (a b : ℕ) → eqb a b ≡ true → b ≡ a
same a b h = ground arith

divide-escape :
    (c : Char) (s rest : String)
    → divide false (escape c s <> rest) ≡ before c (divide false (s <> rest))
divide-escape c s rest = elim (Bool-cases (eqb (code c) 47)) [
  | inl h ↦
      rw (h, cons-append percent (add (char 83 tt) s) rest, cons-append (char 83 tt) s rest)
        (ap (λ d. before d (divide false (s <> rest))) (Char-path slash c (same (code c) 47 h)))
  | inr h ↦ elim (Bool-cases (eqb (code c) 37)) [
    | inl g ↦
        rw (h, g, cons-append percent (add (char 80 tt) s) rest, cons-append (char 80 tt) s rest)
          (ap (λ d. before d (divide false (s <> rest))) (Char-path percent c (same (code c) 37 g)))
    | inr g ↦ rw (h, g, cons-append c s rest, h, g) refl
  ]
]

divide-encode : (s rest : String) → divide false (encode s <> rest) ≡ join s (divide false rest)
divide-encode String.[] rest = rw (nil-append rest) refl
divide-encode (String.◌∷◌ c s) rest =
    divide-escape c (encode s) rest ∙ ap (before c) (divide-encode s rest)

join_one : (s : String) (parts : List String) → join s ("" ∷ parts) ≡ s ∷ parts
join_one String.[] parts = refl
join_one (String.◌∷◌ c s) parts = rw (join_one s parts) refl

divide-slash : (s : String) → divide false ("/" <> s) ≡ "" ∷ divide false s
divide-slash s = rw (cons-append slash "" s, nil-append s) refl

divide-path : (segments : List String) → divide false (path (map encode segments)) ≡ "" ∷ segments
divide-path [] = refl
divide-path (s ∷ segments) =
    divide-slash (encode s <> path (map encode segments))
    ∙ ap (λ parts. "" ∷ parts)
        (divide-encode s (path (map encode segments))
          ∙ ap (join s) (divide-path segments)
          ∙ join_one s segments)

segments-encode :
    (segments : List String)
    → all_parts segments ≡ true
    → segments_of ("/api" <> path (map encode segments)) ≡ segments
segments-encode segments h =
    rw
      (
        append_assoc "/" "api" (path (map encode segments)),
        divide-slash ("api" <> path (map encode segments)),
        divide-encode "api" (path (map encode segments)),
        divide-path segments,
      )
      refl

unescaped : (c : ℕ) → is_kept c ≡ true → (eqb c 47 ≡ false) × (eqb c 37 ≡ false)
unescaped c h = ground arith

encode-plain : (s : String) → is_plain s ≡ true → encode s ≡ s
encode-plain String.[] h = refl
encode-plain (String.◌∷◌ c s) h =
    let (kept, rest) = and_both (is_kept (code c)) _ h in
    let (a, b) = unescaped (code c) kept in rw (a, b, encode-plain s rest) refl

only : (id : String) (p : String → Bool) → p "id-1" ≡ true → (id == "id-1") ≡ true → p id ≡ true
only id p h e = rw ((eq_iff id "id-1").0 e) h

id_is_part : is_part "id-1" ≡ true
unfolding length_units
id_is_part = refl

abbrev router : Router site.is_uuid
router = record {
  segments_of = segments_of;
  encode = encode;
  divides = segments-encode;
  encodes_plain = encode-plain;
  uuid_is_plain = λ id e. only id is_plain refl e;
  uuid_is_part = λ id e. only id is_part id_is_part e;
}

abbrev refuse : Call → List Call → List Call × Result Json
refuse call s = (call ∷ s, err (http 404 "Mandate not found"))
