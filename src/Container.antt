-- ===== src/Container.antt =====
-- CodeJam/apps/server/src/container-codex-runner.ts: the names of containers.
use Prim.Native.Char.{code}
use Prim.Native.String
use text.Mathlib.TextLemmas.{nil-append, cons-append}
use mandate_flow.Base.{
  ℕ, ◌-◌, ◌≡◌, refl, leb, eqb, String, Bool, true, ◌&&◌, ◌||◌, if◌then◌else◌, units, take_units,
  Bool-cases, inl, inr, arith,
}

-- `[a-zA-Z0-9_.-]`
abbrev pub is_name_code : ℕ → Bool
is_name_code c =
    (leb b'a' c && leb c b'z')
    || (leb b'A' c && leb c b'Z')
    || (leb b'0' c && leb c b'9')
    || eqb c b'_'
    || eqb c b'.'
    || eqb c b'-'

abbrev pub all_name_codes : String → Bool
all_name_codes String.[] = true
all_name_codes (String.◌∷◌ c s) = is_name_code (code c) && all_name_codes s

-- `replace(/[^a-zA-Z0-9_.-]/g, "-")`: a dash for each UTF-16 unit.
pub safe_name : String → String
safe_name String.[] = ""
safe_name (String.◌∷◌ c s) =
    if is_name_code (code c)
    then String.◌∷◌ c (safe_name s)
    else if eqb (units c) 1
    then String.◌∷◌ "-" (safe_name s)
    else String.◌∷◌ "-" (String.◌∷◌ "-" (safe_name s))

unfoldable pub container_name : String → String → String
unfolding safe_name take_units
container_name run_id instance_id =
    let safe_instance = take_units 32 (safe_name instance_id) in
    let safe_run = take_units 48 (safe_name run_id) in
    String.◌++◌ "launchpad-" (String.◌++◌ safe_instance (String.◌++◌ "-run-" safe_run))

all_name_codes-safe_name : (s : String) → all_name_codes (safe_name s) ≡ true
unfolding safe_name
all_name_codes-safe_name String.[] = refl
all_name_codes-safe_name (String.◌∷◌ c s) = elim (Bool-cases (is_name_code (code c))) [
  | inl safe ↦ rw (safe, safe, all_name_codes-safe_name s) refl
  | inr unsafe ↦ elim (Bool-cases (eqb (units c) 1)) [
    | inl one ↦ rw (unsafe, one, all_name_codes-safe_name s) refl
    | inr two ↦ rw (unsafe, two, all_name_codes-safe_name s) refl
  ]
]

all_name_codes-take :
    (n : ℕ) (s : String) → all_name_codes s ≡ true → all_name_codes (take_units n s) ≡ true
unfolding take_units
all_name_codes-take n String.[] h = refl
all_name_codes-take n (String.◌∷◌ c s) h = elim (Bool-cases (leb (units c) n)) [
  | inl fits ↦ rw fits (ground (arith, all_name_codes-take (n - units c) s))
  | inr cut ↦ rw cut refl
]

all_name_codes-append :
    (s t : String)
    → all_name_codes s ≡ true
    → all_name_codes t ≡ true
    → all_name_codes (String.◌++◌ s t) ≡ true
all_name_codes-append String.[] t h k = rw nil-append k
all_name_codes-append (String.◌∷◌ c s) t h k =
    rw (cons-append c s t) (ground (arith, all_name_codes-append s t))

-- Whatever the identifiers hold, a container's name has none but the characters that an engine
-- takes for names.
pub all_name_codes-container_name :
    (run_id instance_id : String) → all_name_codes (container_name run_id instance_id) ≡ true
unfolding container_name
all_name_codes-container_name run_id instance_id =
    let safe_instance = take_units 32 (safe_name instance_id) in
    let safe_run = take_units 48 (safe_name run_id) in
    let tail = String.◌++◌ "-run-" safe_run in
    all_name_codes-append "launchpad-" (String.◌++◌ safe_instance tail) refl (
      all_name_codes-append safe_instance tail
        (all_name_codes-take 32 (safe_name instance_id) (all_name_codes-safe_name instance_id))
        (all_name_codes-append "-run-" safe_run refl
          (all_name_codes-take 48 (safe_name run_id) (all_name_codes-safe_name run_id))))
