-- ===== src/Runner/Environment.antt =====
-- codex-runner.ts and container-codex-runner.ts: the environment that a Runtime's process is given.
use mathlib.Core.Path.{subst}
use mandate_flow.Base.{
  ◌≡◌, refl, ◌∙◌, sym, inl, inr, String, Bool, true, false, ◌==◌, ◌&&◌, and_both, Option, none,
  some, List, [], ◌∷◌, mem, is_empty, eq_iff, Bool-cases, arith, if◌then◌else◌,
}

abbrev pub Environment : Type 0
Environment = List (String × String)

abbrev pub look : String → Environment → Option String
look name [] = none
look name ((key, value) ∷ rest) = if key == name then some value else look name rest

-- `environment[name] = value`
abbrev pub assign : String → String → Environment → Environment
assign name value [] = (name, value) ∷ []
assign name value ((key, old) ∷ rest) =
    let later = assign name value rest in
    if key == name then (key, value) ∷ rest else (key, old) ∷ later

abbrev assign_some : String → Option String → Environment → Environment
assign_some name none environment = environment
assign_some name (some value) environment = assign name value environment

abbrev assign_full : String → String → Environment → Environment
assign_full name value environment =
    if is_empty value then environment else assign name value environment

-- The names that are passed on, where `process.env` has them.
abbrev pub inherit : (String → Option String) → List String → Environment → Environment
inherit process_env [] environment = environment
inherit process_env (name ∷ names) environment =
    inherit process_env names (assign_some name (process_env name) environment)

abbrev pub inherited_names : List String
inherited_names =
    "PATH" ∷ "HOME" ∷ "TMPDIR" ∷ "LANG" ∷ "LC_ALL" ∷ "SSL_CERT_FILE" ∷ "SSL_CERT_DIR" ∷ "HTTP_PROXY"
    ∷ "HTTPS_PROXY" ∷ "NO_PROXY" ∷ "NODE_EXTRA_CA_CERTS" ∷ "TERM" ∷ []

-- `childEnvironment` of codex-runner.ts
abbrev local_base : String → String → Environment
local_base groq_api_key codex_home =
    ("CODEX_HOME", codex_home) ∷ ("GROQ_API_KEY", groq_api_key) ∷ ("NO_COLOR", "1") ∷ []

unfoldable pub child_environment : (String → Option String) → String → String → String → Environment
child_environment process_env groq_api_key capability codex_home =
    inherit process_env inherited_names
      (assign_full "MANDATEFLOW_RUN_CAPABILITY" capability (local_base groq_api_key codex_home))

abbrev pub container_inherited_names : List String
container_inherited_names = "PATH" ∷ "HOME" ∷ "TMPDIR" ∷ "LANG" ∷ "LC_ALL" ∷ "XDG_RUNTIME_DIR" ∷ []

-- `childEnvironment` of container-codex-runner.ts
abbrev container_base : String → String → Environment
container_base groq_api_key groq_base_url =
    ("GROQ_API_KEY", groq_api_key)
    ∷ ("GROQ_UPSTREAM_BASE_URL", groq_base_url)
    ∷ ("GROQ_RESPONSES_PROXY_PORT", "34567")
    ∷ ("NO_COLOR", "1")
    ∷ []

unfoldable pub container_environment :
    (String → Option String) → String → String → String → Environment
container_environment process_env groq_api_key groq_base_url capability =
    inherit process_env container_inherited_names (
      assign_full "MANDATEFLOW_RUN_CAPABILITY" capability
        (container_base groq_api_key groq_base_url))

look-assign_other :
    (name key value : String) (environment : Environment)
    → (key == name) ≡ false
    → look name (assign key value environment) ≡ look name environment
look-assign_other name key value [] h = rw h refl
look-assign_other name key value ((other, old) ∷ rest) h = elim (Bool-cases (other == key)) [
  | inl hit ↦
      let miss = subst (λ s. (s == name) ≡ false) (sym ((eq_iff other key).0 hit)) h in
      rw (hit, miss) refl
  | inr miss ↦ rw miss (ground (arith, look-assign_other name key value rest h))
]

look-assign_some :
    (name key : String) (value : Option String) (environment : Environment)
    → (key == name) ≡ false
    → look name (assign_some key value environment) ≡ look name environment
look-assign_some name key none environment h = refl
look-assign_some name key (some value) environment h =
    look-assign_other name key value environment h

look-assign_full :
    (name key value : String) (environment : Environment)
    → (key == name) ≡ false
    → look name (assign_full key value environment) ≡ look name environment
look-assign_full name key value environment h = elim (Bool-cases (is_empty value)) [
  | inl e ↦ rw e refl
  | inr e ↦ rw e (look-assign_other name key value environment h)
]

look-inherit :
    (process_env : String → Option String) (names : List String) (name : String)
    (environment : Environment)
    → mem name names ≡ false
    → look name (inherit process_env names environment) ≡ look name environment
look-inherit process_env [] name environment h = refl
look-inherit process_env (key ∷ names) name environment h =
    look-inherit process_env names name (assign_some key (process_env key) environment)
      (ground arith)
    ∙ look-assign_some name key (process_env key) environment (ground arith)

-- What a Runtime may be given, name by name: none is a secret of the server but the key of the model's
-- provider, which the Runtime calls, and the capability of its own Run.
abbrev pub known_names : List String
known_names =
    "PATH" ∷ "HOME" ∷ "TMPDIR" ∷ "LANG" ∷ "LC_ALL" ∷ "SSL_CERT_FILE" ∷ "SSL_CERT_DIR" ∷ "HTTP_PROXY"
    ∷ "HTTPS_PROXY" ∷ "NO_PROXY" ∷ "NODE_EXTRA_CA_CERTS" ∷ "TERM" ∷ "CODEX_HOME" ∷ "GROQ_API_KEY"
    ∷ "NO_COLOR" ∷ "MANDATEFLOW_RUN_CAPABILITY" ∷ "GROQ_UPSTREAM_BASE_URL"
    ∷ "GROQ_RESPONSES_PROXY_PORT" ∷ "XDG_RUNTIME_DIR" ∷ []

abbrev all_mem : List String → List String → Bool
all_mem [] list = true
all_mem (s ∷ names) list = mem s list && all_mem names list

-- A name that is not in a list is none of its members.
apart :
    (key name : String) (list : List String)
    → mem key list ≡ true
    → mem name list ≡ false
    → (key == name) ≡ false
apart key name list here absent = elim (Bool-cases (key == name)) [
  | inl e ↦ let there = subst (λ s. mem s list ≡ true) ((eq_iff key name).0 e) here in ground arith
  | inr e ↦ e
]

absent_from :
    (name : String) (names list : List String)
    → all_mem names list ≡ true
    → mem name list ≡ false
    → mem name names ≡ false
absent_from name [] list h absent = refl
absent_from name (key ∷ names) list h absent =
    let (first, rest) = and_both (mem key list) _ h in
    rw (apart key name list first absent, absent_from name names list rest absent) refl

-- A Runtime's process, in a container or not, is given no variable but the 19 that `known_names` spells
-- out, so no token of the control plane, whatever the server's own environment holds.
pub environments-Closed :
    (process_env : String → Option String)
    (groq_api_key groq_base_url capability codex_home name : String)
    → mem name known_names ≡ false
    → (look name (child_environment process_env groq_api_key capability codex_home) ≡ none)
      × (look name (container_environment process_env groq_api_key groq_base_url capability) ≡ none)
unfolding child_environment container_environment
environments-Closed process_env groq_api_key groq_base_url capability codex_home name h =
    let local = local_base groq_api_key codex_home in
    let contained = container_base groq_api_key groq_base_url in
    (
      look-inherit process_env inherited_names name
            (assign_full "MANDATEFLOW_RUN_CAPABILITY" capability local)
            (absent_from name inherited_names known_names refl h)
          ∙ look-assign_full name "MANDATEFLOW_RUN_CAPABILITY" capability local
              (apart "MANDATEFLOW_RUN_CAPABILITY" name known_names refl h)
          ∙ rw
              (
                apart "CODEX_HOME" name known_names refl h,
                apart "GROQ_API_KEY" name known_names refl h,
                apart "NO_COLOR" name known_names refl h,
              )
              refl,
      look-inherit process_env container_inherited_names name
            (assign_full "MANDATEFLOW_RUN_CAPABILITY" capability contained)
            (absent_from name container_inherited_names known_names refl h)
          ∙ look-assign_full name "MANDATEFLOW_RUN_CAPABILITY" capability contained
              (apart "MANDATEFLOW_RUN_CAPABILITY" name known_names refl h)
          ∙ rw
              (
                apart "GROQ_API_KEY" name known_names refl h,
                apart "GROQ_UPSTREAM_BASE_URL" name known_names refl h,
                apart "GROQ_RESPONSES_PROXY_PORT" name known_names refl h,
                apart "NO_COLOR" name known_names refl h,
              )
              refl,
    )
