-- ===== src/Service/Migration/Settled.antt =====
-- store.ts: what a start makes of the file, another start leaves as it is.
use Prim.Native.Char.{char}
use package.text.Mathlib.TextLemmas.{cons-append}
use mandate_flow.Base.{
  ℕ, ◌≡◌, refl, sym, ap, ◌∙◌, ◌⊎◌, inl, inr, String, Bool, true, false, ◌==◌, ◌||◌, Option, none,
  some, is_empty, or_else, Bool-cases, if◌then◌else◌,
}
use mandate_flow.Json.{Json, text, number, Fields, get, put, as_text, as_number}
use mandate_flow.Groq.Requests.{get-put_same}
use mandate_flow.Service.Migration.{
  text_or_null, is_text, owner_from, owner_of, principal_or, principal_of, home_version,
  migrate_agent,
}
use mandate_flow.Service.Migration.Keys.{get-put_other, put-get}

-- An Agent of the data: its owner, its principal, the version of its home and its context.
pub record IsAgent (agent : Fields) : Type 0 where
  pub owner :
      (get "ownerPrincipal" agent ≡ some (text "user-a"))
      ⊎ (get "ownerPrincipal" agent ≡ some (text "user-b"))
  pub principal : (s : String) × (get "agentPrincipal" agent ≡ some (text s)) × (is_empty s ≡ false)
  pub home : (n : ℕ) × (get "codexHomeVersion" agent ≡ some (number n))
  pub context : (s : Option String) × (get "activePolicyContextId" agent ≡ some (text_or_null s))

is_empty-principal_or :
    (sent : Option String) (id : String) → is_empty (principal_or sent id) ≡ false
is_empty-principal_or none id = rw (cons-append (char 97 tt) "gent:" id) refl
is_empty-principal_or (some s) id = elim (Bool-cases (is_empty s)) [
  | inl e ↦ rw (e, cons-append (char 97 tt) "gent:" id) refl
  | inr e ↦ rw (e, e) refl
]

-- The four keys of an Agent, after its migration.
module _ (version : ℕ) (agent : Fields) where
  abbrev owned : Fields
  owned = put "ownerPrincipal" (text (owner_of agent)) agent

  abbrev titled : Fields
  titled = put "agentPrincipal" (text (principal_of agent)) owned

  abbrev homed : Fields
  homed = put "codexHomeVersion" (number (home_version version agent)) titled

  -- The context is put last.
  past_context :
      (key : String)
      → ("activePolicyContextId" == key) ≡ false
      → get key (migrate_agent version agent) ≡ get key homed
  unfolding migrate_agent
  past_context key h =
      get-put_other key "activePolicyContextId"
        (text_or_null (as_text (get "activePolicyContextId" agent))) homed h

  past_home : (key : String) → ("codexHomeVersion" == key) ≡ false → get key homed ≡ get key titled
  past_home key h =
      get-put_other key "codexHomeVersion" (number (home_version version agent)) titled h

  past_principal :
      (key : String) → ("agentPrincipal" == key) ≡ false → get key titled ≡ get key owned
  past_principal key h = get-put_other key "agentPrincipal" (text (principal_of agent)) owned h

  migrated_owner : get "ownerPrincipal" (migrate_agent version agent) ≡ some (text (owner_of agent))
  unfolding migrate_agent
  migrated_owner =
      past_context "ownerPrincipal" refl
      ∙ past_home "ownerPrincipal" refl
      ∙ past_principal "ownerPrincipal" refl
      ∙ get-put_same "ownerPrincipal" (text (owner_of agent)) agent

  migrated_principal :
      get "agentPrincipal" (migrate_agent version agent) ≡ some (text (principal_of agent))
  unfolding migrate_agent
  migrated_principal =
      past_context "agentPrincipal" refl
      ∙ past_home "agentPrincipal" refl
      ∙ get-put_same "agentPrincipal" (text (principal_of agent)) owned

  migrated_home :
      get "codexHomeVersion" (migrate_agent version agent)
      ≡ some (number (home_version version agent))
  unfolding migrate_agent
  migrated_home =
      past_context "codexHomeVersion" refl
      ∙ get-put_same "codexHomeVersion" (number (home_version version agent)) titled

  migrated_context :
      get "activePolicyContextId" (migrate_agent version agent)
      ≡ some (text_or_null (as_text (get "activePolicyContextId" agent)))
  unfolding migrate_agent
  migrated_context =
      get-put_same "activePolicyContextId"
        (text_or_null (as_text (get "activePolicyContextId" agent))) homed

  migrated_other :
      (key : String)
      → ("ownerPrincipal" == key) ≡ false
      → ("agentPrincipal" == key) ≡ false
      → ("codexHomeVersion" == key) ≡ false
      → ("activePolicyContextId" == key) ≡ false
      → get key (migrate_agent version agent) ≡ get key agent
  unfolding migrate_agent
  migrated_other key a b c d =
      past_context key d
      ∙ past_home key c
      ∙ past_principal key b
      ∙ get-put_other key "ownerPrincipal" (text (owner_of agent)) agent a

  owner_cases : (owner_of agent ≡ "user-a") ⊎ (owner_of agent ≡ "user-b")
  owner_cases =
      elim (Bool-cases
        (is_text "user-b" (get "ownerPrincipal" agent) || is_text "user-b" (get "owner" agent))) [
          | inl e ↦ inr (rw e refl)
          | inr e ↦ inl (rw e refl)
        ]

  pub migrate_agent-IsAgent : IsAgent (migrate_agent version agent)
  migrate_agent-IsAgent = record {
    owner = elim owner_cases [
      | inl e ↦ inl (migrated_owner ∙ ap (λ s. some (text s)) e)
      | inr e ↦ inr (migrated_owner ∙ ap (λ s. some (text s)) e)
    ];
    principal = (
      principal_of agent,
      migrated_principal,
      is_empty-principal_or (as_text (get "agentPrincipal" agent)) _,
    );
    home = (home_version version agent, migrated_home);
    context = (as_text (get "activePolicyContextId" agent), migrated_context);
  }

pick_owner : Bool → String
pick_owner b = if b then "user-b" else "user-a"

again_pick :
    (p q : Bool) → pick_owner ((pick_owner (p || q) == "user-b") || q) ≡ pick_owner (p || q)
unfolding pick_owner
again_pick true q = refl
again_pick false true = refl
again_pick false false = refl

again_owner :
    (sent legacy : Option Json)
    → owner_from (some (text (owner_from sent legacy))) legacy ≡ owner_from sent legacy
unfolding pick_owner
again_owner sent legacy = again_pick (is_text "user-b" sent) (is_text "user-b" legacy)

again_principal : (s id : String) → is_empty s ≡ false → principal_or (some s) id ≡ s
again_principal s id h = rw h refl

again_context : (o : Option String) → as_text (some (text_or_null o)) ≡ o
again_context none = refl
again_context (some s) = refl

-- An Agent whose four keys have the values that a migration puts is left as it is.
again :
    (agent : Fields)
    → get "ownerPrincipal" agent ≡ some (text (owner_of agent))
    → get "agentPrincipal" agent ≡ some (text (principal_of agent))
    → get "codexHomeVersion" agent ≡ some (number (home_version 4 agent))
    → get "activePolicyContextId" agent
      ≡ some (text_or_null (as_text (get "activePolicyContextId" agent)))
    → migrate_agent 4 agent ≡ agent
unfolding migrate_agent
again agent a b c d =
    ap (λ f. put "activePolicyContextId" x (put "codexHomeVersion" y (put "agentPrincipal" z f)))
      (put-get "ownerPrincipal" (text (owner_of agent)) agent a)
    ∙ ap (λ f. put "activePolicyContextId" x (put "codexHomeVersion" y f))
        (put-get "agentPrincipal" z agent b)
    ∙ ap (put "activePolicyContextId" x) (put-get "codexHomeVersion" y agent c)
    ∙ put-get "activePolicyContextId" x agent d
  where
    x : Json
    x = text_or_null (as_text (get "activePolicyContextId" agent))

    y : Json
    y = number (home_version 4 agent)

    z : Json
    z = text (principal_of agent)

-- A second start changes no Agent.
module _ (version : ℕ) (agent : Fields) where
  abbrev settled : Fields
  settled = migrate_agent version agent

  owner_of-settled : owner_of settled ≡ owner_of agent
  owner_of-settled =
      ap (λ sent. owner_from sent (get "owner" settled)) (migrated_owner version agent)
      ∙ ap (owner_from (some (text (owner_of agent))))
          (migrated_other version agent "owner" refl refl refl refl)
      ∙ again_owner (get "ownerPrincipal" agent) (get "owner" agent)

  principal_of-settled : principal_of settled ≡ principal_of agent
  principal_of-settled =
      let id = or_else (as_text (get "id" settled)) "legacy-agent" in
      ap (λ sent. principal_or (as_text sent) id) (migrated_principal version agent)
      ∙ again_principal (principal_of agent) id (
          is_empty-principal_or (as_text (get "agentPrincipal" agent))
            (or_else (as_text (get "id" agent)) "legacy-agent"))

  home_version-settled : home_version 4 settled ≡ home_version version agent
  home_version-settled = ap (λ sent. or_else (as_number sent) 0) (migrated_home version agent)

  context_of-settled :
      as_text (get "activePolicyContextId" settled) ≡ as_text (get "activePolicyContextId" agent)
  context_of-settled =
      ap as_text (migrated_context version agent)
      ∙ again_context (as_text (get "activePolicyContextId" agent))

  pub migrate_agent-migrate_agent : migrate_agent 4 settled ≡ settled
  migrate_agent-migrate_agent =
      again settled (migrated_owner version agent ∙ ap (λ s. some (text s)) (sym owner_of-settled))
        (migrated_principal version agent ∙ ap (λ s. some (text s)) (sym principal_of-settled))
        (migrated_home version agent ∙ ap (λ n. some (number n)) (sym home_version-settled))
        (migrated_context version agent ∙ ap (λ o. some (text_or_null o)) (sym context_of-settled))
