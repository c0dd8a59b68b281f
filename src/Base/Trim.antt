-- ===== src/Base/Trim.antt =====
-- Texts measured in UTF-16 units, trimmed and cut.
use Prim.Native.Nat.{ℕ, ◌+◌, ◌-◌, ◌≤◌}
use Prim.Native.Char.{Char, code}
use Prim.Native.String.{String}
use mathlib.Core.Logic.{inl, inr}
use mathlib.Core.Bool.{Bool, ◌&&◌, ◌||◌}
use native.Mathlib.Omega.{arith}
use mandate_flow.Base.Tests.{leb, eqb, if◌then◌else◌, Bool-cases}
use mandate_flow.Base.Text.{is_empty}

-- `s.length` counts a character beyond the first plane twice.
abbrev pub units : Char → ℕ
units c = if leb (code c) 0xffff then 1 else 2

unfoldable pub length_units : String → ℕ
length_units String.[] = 0
length_units (String.◌∷◌ c s) = units c + length_units s

-- `s.slice(0, n)`; of a character whose second half is cut off nothing is kept.
unfoldable pub take_units : ℕ → String → String
take_units n String.[] = ""
take_units n (String.◌∷◌ c s) =
    let rest = take_units (n - units c) s in if leb (units c) n then String.◌∷◌ c rest else ""

-- What `trim` takes off: white space and line ends.
abbrev pub is_space : ℕ → Bool
is_space c =
    (leb 9 c && leb c 13)
    || eqb c 32
    || eqb c 0xa0
    || eqb c 0x1680
    || (leb 0x2000 c && leb c 0x200a)
    || eqb c 0x2028
    || eqb c 0x2029
    || eqb c 0x202f
    || eqb c 0x205f
    || eqb c 0x3000
    || eqb c 0xfeff

pub trim_start : String → String
trim_start String.[] = ""
trim_start (String.◌∷◌ c s) = if is_space (code c) then trim_start s else String.◌∷◌ c s

pub trim_end : String → String
trim_end String.[] = ""
trim_end (String.◌∷◌ c s) =
    let rest = trim_end s in if is_space (code c) && is_empty rest then "" else String.◌∷◌ c rest

unfoldable pub trim : String → String
unfolding trim_start trim_end
trim s = trim_end (trim_start s)

-- `replace(/[\u0000-\u001f\u007f]/g, " ")`
unfoldable pub blank_controls : String → String
blank_controls String.[] = ""
blank_controls (String.◌∷◌ c s) =
    String.◌∷◌ (if leb (code c) 0x1f || eqb (code c) 0x7f then " " else c) (blank_controls s)

pub length-take_units : (n : ℕ) (s : String) → length_units (take_units n s) ≤ n
unfolding length_units take_units
length-take_units n String.[] = omega arith
length-take_units n (String.◌∷◌ c s) = elim (Bool-cases (leb (units c) n)) [
  | inl fits ↦ rw fits (ground (arith, length-take_units (n - units c) s))
  | inr cut ↦ rw cut (omega arith)
]
