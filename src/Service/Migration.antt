-- ===== src/Service/Migration.antt =====
-- store.ts: `initialize` and `migrateDatabase`, over what JSON.parse makes of the file. A Run is kept as
-- its events beside its other keys. A key of a number's position, which an array or a text would give,
-- is left out: nothing reads one.
pub mod Keys
pub mod Settled
pub mod Runs
pub mod Started
use Prim.Native.String
use mandate_flow.Base.{
  ℕ, suc, leb, eqb, String, Bool, true, false, not, ◌&&◌, ◌||◌, ◌==◌, Option, none, some, List, [],
  ◌∷◌, or_else, is_empty, if◌then◌else◌,
}
use mandate_flow.Model.{RuntimeSessionEvent}
use mandate_flow.Json.{
  Json, null, text, number, array, object, Items, blank, item, Fields, bare, get, put, delete,
  as_text, as_number, says,
}
use mandate_flow.Session.{Redaction}
use mandate_flow.Session.Migration.{migrate_runtime_session_event}

pub record StoredRun : Type 0 where
  pub fields : Fields
  pub progress : List RuntimeSessionEvent

pub record Stored : Type 0 where
  pub agents : List Fields
  pub messages : Items
  pub runs : List StoredRun

-- The data, and whether the file is written anew; or "Unsupported database format"; or a TypeError.
pub data Initial : Type 0 where
  started : Stored → Bool → Initial
  unsupported type_error : Initial

abbrev pub text_or_null : Option String → Json
text_or_null none = null
text_or_null (some s) = text s

abbrev pub is_text : String → Option Json → Bool
is_text expected value = elim (as_text value) [ none ↦ false | some s ↦ s == expected ]

abbrev pub owner_from : Option Json → Option Json → String
owner_from sent legacy =
    if is_text "user-b" sent || is_text "user-b" legacy then "user-b" else "user-a"

abbrev pub owner_of : Fields → String
owner_of agent = owner_from (get "ownerPrincipal" agent) (get "owner" agent)

abbrev pub principal_or : Option String → String → String
principal_or none id = String.◌++◌ "agent:" id
principal_or (some s) id = if is_empty s then String.◌++◌ "agent:" id else s

abbrev pub principal_of : Fields → String
principal_of agent =
    principal_or (as_text (get "agentPrincipal" agent))
      (or_else (as_text (get "id" agent)) "legacy-agent")

abbrev pub home_version : ℕ → Fields → ℕ
home_version version agent =
    if leb 3 version then or_else (as_number (get "codexHomeVersion" agent)) 0 else 0

unfoldable pub migrate_agent : ℕ → Fields → Fields
migrate_agent version agent =
    put "activePolicyContextId" (text_or_null (as_text (get "activePolicyContextId" agent))) (
      put "codexHomeVersion" (number (home_version version agent)) (
        put "agentPrincipal" (text (principal_of agent))
          (put "ownerPrincipal" (text (owner_of agent)) agent)))

abbrev pub mandate_of : ℕ → Fields → Option String
mandate_of version run = elim (as_text (get "mandateId" run)) [
  | some s ↦ some s
  | none ↦ if leb 3 version then none else as_text (get "policyContextId" run)
]

abbrev pub put_all : List (String × Json) → Fields → Fields
put_all [] fields = fields
put_all ((name, value) ∷ changes) fields = put_all changes (put name value fields)

-- The first version had no mandates.
abbrev pub closed_keys : List (String × Json)
closed_keys =
    ("policyContextId", null)
    ∷ ("runGrantId", null)
    ∷ ("retryOfRunId", null)
    ∷ ("mandateStatus", text "closed")
    ∷ ("capabilityFingerprint", null)
    ∷ ("grantFingerprint", null)
    ∷ ("runtimeInstanceId", null)
    ∷ []

abbrev pub run_owner : Fields → Json
run_owner run = if is_text "user-b" (get "ownerPrincipal" run) then text "user-b" else null

abbrev pub run_keys : ℕ → Fields → List (String × Json)
run_keys version run =
    ("mandateId", text_or_null (mandate_of version run))
    ∷ ("ownerPrincipal", run_owner run)
    ∷ ("agentPrincipal", text_or_null (as_text (get "agentPrincipal" run)))
    ∷ []

unfoldable pub migrate_run : ℕ → Fields → Fields
migrate_run version run =
    put_all (if eqb version 1 then closed_keys else [])
      (put_all (run_keys version run) (delete "progress" run))

-- `{ ...value }`, and the reading of its keys, which throws where there is no object.
abbrev pub spread : Json → Option Fields
spread null = none
spread (object fields) = some fields
spread _ = some bare

abbrev pub both {ℓ} :
    {A : Type ℓ} → (Fields → A) → Option Fields → Option (List A) → Option (List A)
both f (some fields) (some rest) = some (f fields ∷ rest)
both f _ _ = none

abbrev pub migrate_each {ℓ} : {A : Type ℓ} → (Fields → A) → Items → Option (List A)
migrate_each f blank = some []
migrate_each f (item json items) = both f (spread json) (migrate_each f items)

-- `[1, 2, 3, 4].includes(version)`
abbrev pub supported : Option ℕ → Bool
supported none = false
supported (some version) = leb 1 version && leb version 4

module _ (r : Redaction) (time_of : String → ℕ) (digits : ℕ → String) where
  abbrev pub migrate_events : String → ℕ → Items → List RuntimeSessionEvent
  migrate_events run_id index blank = []
  migrate_events run_id index (item json items) =
      migrate_runtime_session_event r time_of digits run_id json index
      ∷ migrate_events run_id (suc index) items

  abbrev pub progress_of : String → Option Json → List RuntimeSessionEvent
  progress_of run_id (some (array items)) = migrate_events run_id 0 items
  progress_of run_id _ = []

  abbrev pub stored_run : ℕ → Fields → StoredRun
  stored_run version run = record {
    fields = migrate_run version run;
    progress = progress_of (or_else (as_text (get "id" run)) "legacy-run") (get "progress" run);
  }

  abbrev pub migrated : Bool → Items → Option (List Fields) → Option (List StoredRun) → Initial
  migrated anew messages (some agents) (some runs) =
      started (record { agents = agents; messages = messages; runs = runs }) anew
  migrated anew messages _ _ = type_error

  -- `migrateDatabase`; every version but the fourth is written anew.
  unfoldable pub migrate_database : ℕ → Items → Items → Items → Initial
  unfolding migrate_agent migrate_run
  migrate_database version agents messages runs =
      migrated (not (eqb version 4)) messages (migrate_each (migrate_agent version) agents)
        (migrate_each (stored_run version) runs)

  abbrev pub with_arrays : Option Json → Option Json → Option Json → ℕ → Initial
  with_arrays (some (array agents)) (some (array messages)) (some (array runs)) version =
      migrate_database version agents messages runs
  with_arrays _ _ _ version = unsupported

  abbrev pub read_database : Fields → Initial
  read_database parsed =
      if supported (as_number (get "version" parsed))
      then with_arrays (get "agents" parsed) (get "messages" parsed) (get "runs" parsed)
          (or_else (as_number (get "version" parsed)) 4)
      else unsupported

  -- `initialize`, with what the file holds if there is one.
  unfoldable pub initialize : Option Json → Initial
  unfolding migrate_database
  initialize none = started (record { agents = []; messages = blank; runs = [] }) true
  initialize (some null) = type_error
  initialize (some (object fields)) = read_database fields
  initialize (some json) = unsupported
