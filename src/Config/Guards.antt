-- ===== src/Config/Guards.antt =====
-- config.ts: the tests of `loadConfig` on the tokens and the control plane's host.
use mathlib.Core.Path.{subst}
use mandate_flow.Base.{
  ℕ, ◌≤◌, ◌≡◌, ap, leb, ltb, eqb, String, Bool, true, false, not, ◌&&◌, ◌||◌, Option, none, some,
  List, [], ◌∷◌, codes, drop, has_prefix, length, length_units, trim, mem, arith,
}
use mandate_flow.Model.{other, Result, ok, ◌>>=◌, ◌>>◌, throw_if, throw_if-then, >>=-eq-ok, ok_inj}

-- The variables that the tests read, after the schema. `control_hostname` is `new URL(…).hostname`.
pub record Environment : Type 0 where
  pub is_production : Bool
  pub host : String
  pub auth_token : Option String
  pub is_enabled : Bool
  pub control_token : Option String
  pub control_hostname : Result String

pub record Tokens : Type 0 where
  pub auth_token : String
  pub control_token : String

-- `value?.trim() ?? ""`
unfoldable pub trimmed : Option String → String
trimmed none = ""
trimmed (some s) = trim s

abbrev pub is_loopback : String → Bool
is_loopback host = mem host ("127.0.0.1" ∷ "::1" ∷ "localhost" ∷ [])

abbrev is_loopback_hostname : String → Bool
is_loopback_hostname name = mem name ("127.0.0.1" ∷ "localhost" ∷ "::1" ∷ "[::1]" ∷ [])

abbrev pub is_weak : String → Bool
is_weak token = ltb (length_units token) 24 || has_prefix (codes "replace-") (codes token)

-- `[A-Za-z0-9_-]`
abbrev is_token_code : ℕ → Bool
is_token_code c =
    (leb b'A' c && leb c b'Z')
    || (leb b'a' c && leb c b'z')
    || (leb b'0' c && leb c b'9')
    || eqb c b'_'
    || eqb c b'-'

abbrev all_token_codes : List ℕ → Bool
all_token_codes [] = true
all_token_codes (c ∷ s) = is_token_code c && all_token_codes s

-- `/^mfc1_[A-Za-z0-9_-]{43}$/`
abbrev pub is_control_token : String → Bool
is_control_token token =
    has_prefix (codes "mfc1_") (codes token)
    && eqb (length (drop 5 (codes token))) 43
    && all_token_codes (drop 5 (codes token))

unfoldable pub check_mandate_flow : Environment → String → String → Result (Unit {0})
unfolding length_units
check_mandate_flow environment auth_token control_token = do
  throw_if (not (is_control_token control_token))
      (other "MANDATEFLOW_CONTROL_TOKEN must be a strong mfc1_ token when MandateFlow is enabled")
  throw_if (is_weak auth_token)
      (other "APP_AUTH_TOKEN must contain at least 24 characters when MandateFlow is enabled")
  hostname ← environment.control_hostname
  throw_if (not (is_loopback_hostname hostname))
      (other "MANDATEFLOW_CONTROL_URL must use a loopback host for the local P0")

-- `if (env.MANDATEFLOW_ENABLED)`
abbrev pub check_enabled : Bool → Environment → String → String → Result (Unit {0})
check_enabled true environment auth_token control_token =
    check_mandate_flow environment auth_token control_token
check_enabled false environment auth_token control_token = ok tt

unfoldable pub load_tokens : Environment → Result Tokens
unfolding trimmed check_mandate_flow length_units
load_tokens environment = do
  throw_if
      ((environment.is_production && not (is_loopback environment.host))
        && is_weak (trimmed environment.auth_token))
      (other
        "APP_AUTH_TOKEN must contain at least 24 characters for a non-loopback production server")
  check_enabled environment.is_enabled environment (trimmed environment.auth_token)
      (trimmed environment.control_token)
  ok (record {
    auth_token = trimmed environment.auth_token;
    control_token = trimmed environment.control_token;
  })

-- A server that others can reach in production, or that asks for mandates.
abbrev pub needs_token : Environment → Bool
needs_token environment =
    (environment.is_production && not (is_loopback environment.host)) || environment.is_enabled

check_mandate_flow_strong :
    (environment : Environment) (auth_token control_token : String)
    → check_mandate_flow environment auth_token control_token ≡ ok tt
    → is_weak auth_token ≡ false
unfolding check_mandate_flow
check_mandate_flow_strong environment auth_token control_token e =
    let (_, rest) = throw_if-then _ _ _ tt e in (throw_if-then _ _ _ tt rest).0

check_enabled_strong :
    (is_enabled : Bool) (environment : Environment) (auth_token control_token : String)
    → check_enabled is_enabled environment auth_token control_token ≡ ok tt
    → is_enabled ≡ true
    → is_weak auth_token ≡ false
check_enabled_strong true environment auth_token control_token e on =
    check_mandate_flow_strong environment auth_token control_token e
check_enabled_strong false environment auth_token control_token e on = cc

strong :
    (outside enabled weak : Bool)
    → (outside && weak) ≡ false
    → (enabled ≡ true → weak ≡ false)
    → (outside || enabled) ≡ true
    → weak ≡ false
strong true enabled weak h k needs = h
strong false enabled weak h k needs = k needs

strong_length :
    (token : String)
    → is_weak token ≡ false
    → (24 ≤ length_units token) × (has_prefix (codes "replace-") (codes token) ≡ false)
strong_length token h = ground arith

-- The settings of a server that is in production on no loopback host, or has MandateFlow enabled,
-- load only with an access token of at least 24 code units that does not start with "replace-".
pub load_tokens_strong :
    (environment : Environment) (tokens : Tokens)
    → load_tokens environment ≡ ok tokens
    → needs_token environment ≡ true
    → (24 ≤ length_units tokens.auth_token)
      × (has_prefix (codes "replace-") (codes tokens.auth_token) ≡ false)
unfolding load_tokens
load_tokens_strong environment tokens e needs =
    let (outside, rest) = throw_if-then _ _ _ tokens e in
    let (u, (enabled, loaded)) = >>=-eq-ok _ _ rest in
    let weak =
      strong _ _ (is_weak (trimmed environment.auth_token)) outside
        (check_enabled_strong environment.is_enabled environment _ _ enabled) needs in
    let same : trimmed environment.auth_token ≡ tokens.auth_token =
      ap (λ t. t.auth_token) (ok_inj loaded) in
    strong_length tokens.auth_token (subst (λ t. is_weak t ≡ false) same weak)
