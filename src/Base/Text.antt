-- ===== src/Base/Text.antt =====
-- Texts: the methods of `String` and the regular expressions that the program applies to them.
use Prim.Native.Nat.{ℕ, ◌+◌}
use Prim.Native.Char.{code}
use Prim.Native.String.{String}
use mathlib.Core.Bool.{Bool, true, false, not, ◌&&◌, ◌||◌}
use mathlib.Core.Option.{Option, none, some}
use mathlib.Core.List.{List, [], ◌∷◌}
use text.Mathlib.Text.{◌==◌}
use mandate_flow.Base.Tests.{leb, eqb, if◌then◌else◌}

abbrev pub codes : String → List ℕ
codes String.[] = []
codes (String.◌∷◌ c s) = code c ∷ codes s

abbrev pub is_empty : String → Bool
is_empty String.[] = true
is_empty (String.◌∷◌ c s) = false

-- A text is true in a condition if it is there and not empty.
abbrev pub truthy : Option String → Bool
truthy none = false
truthy (some s) = not (is_empty s)

-- `===` on `string | null`
abbrev pub same : Option String → Option String → Bool
same none none = true
same (some s) (some t) = s == t
same _ _ = false

-- `??`
abbrev pub or_else {ℓ} : {A : Type ℓ} → Option A → A → A
or_else none a = a
or_else (some b) a = b

abbrev pub mem : String → List String → Bool
mem s [] = false
mem s (t ∷ ts) = (t == s) || mem s ts

-- `prefix` of a list of codes
abbrev pub has_prefix : List ℕ → List ℕ → Bool
has_prefix [] s = true
has_prefix (c ∷ p) [] = false
has_prefix (c ∷ p) (d ∷ s) = eqb c d && has_prefix p s

-- `s.includes(p)`
abbrev pub includes : List ℕ → List ℕ → Bool
includes p [] = has_prefix p []
includes p (d ∷ s) = has_prefix p (d ∷ s) || includes p s

-- The `i` flag without `u` folds ASCII letters with ASCII letters only.
abbrev pub fold_case : ℕ → ℕ
fold_case c = if leb b'A' c && leb c b'Z' then c + 32 else c

abbrev pub fold_codes : List ℕ → List ℕ
fold_codes [] = []
fold_codes (c ∷ s) = fold_case c ∷ fold_codes s

-- `toLowerCase` as far as an inclusion of ASCII text can tell: beside the ASCII capitals, the
-- Kelvin sign becomes `k` and the dotted capital I becomes `i` and a combining dot. What else it
-- changes has no ASCII letter in its result.
abbrev pub lower_codes : List ℕ → List ℕ
lower_codes [] = []
lower_codes (c ∷ s) =
    if eqb c 0x212a
    then b'k' ∷ lower_codes s
    else if eqb c 0x130
    then b'i' ∷ 0x307 ∷ lower_codes s
    else fold_case c ∷ lower_codes s
