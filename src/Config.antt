-- ===== src/Config.antt =====
-- CodeJam/apps/server/src/config.ts: the settings that the service reads, and the key test.
pub mod Guards
use mandate_flow.Base.{
  ℕ, ◌≡◌, refl, leb, eqb, String, Bool, true, false, not, ◌&&◌, ◌||◌, List, [], ◌∷◌, codes,
  fold_codes, is_empty, trim, has_prefix, length, drop,
}

pub data RuntimeProvider : Type 0 where
  local_process container fixture : RuntimeProvider

-- The fields of `AppConfig` that a decision of the service reads.
pub record AppConfig : Type 0 where
  pub groq_api_key : String
  pub runtime_provider : RuntimeProvider
  pub runtime_instance_id : String
  pub mandate_flow_enabled : Bool

abbrev pub is_fixture : RuntimeProvider → Bool
is_fixture fixture = true
is_fixture _ = false

-- `(?:[-_ ]|$)`
abbrev ends_word : List ℕ → Bool
ends_word [] = true
ends_word (c ∷ s) = eqb c b'-' || eqb c b'_' || eqb c b' '

-- `^word(?:[-_ ]|$)` on text that is folded already
abbrev starts_word : List ℕ → List ℕ → Bool
starts_word word key = has_prefix word key && ends_word (drop (length word) key)

abbrev all_x : List ℕ → Bool
all_x [] = true
all_x (c ∷ s) = eqb c b'x' && all_x s

-- `/^(?:replace(?:[-_ ]|$)|your(?:[-_ ]|$)|placeholder(?:[-_ ]|$)|change(?:[-_ ]|$)|xxx+$)/i`
abbrev is_placeholder : List ℕ → Bool
is_placeholder key =
    starts_word (codes "replace") key
    || starts_word (codes "your") key
    || starts_word (codes "placeholder") key
    || starts_word (codes "change") key
    || (leb 3 (length key) && all_x key)

unfoldable pub is_groq_configured : AppConfig → Bool
unfolding trim
is_groq_configured config =
    let key = trim config.groq_api_key in
    not (is_empty key) && not (is_placeholder (fold_codes (codes key)))

configured :
    is_groq_configured (record {
      groq_api_key = " gsk_1 ";
      runtime_provider = local_process;
      runtime_instance_id = "default";
      mandate_flow_enabled = true;
    })
    ≡ true
unfolding is_groq_configured
configured = refl
