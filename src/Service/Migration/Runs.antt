-- ===== src/Service/Migration/Runs.antt =====
-- store.ts: the Runs that a start reads, with their events.
use mandate_flow.Base.{
  ℕ, suc, ◌≡◌, refl, ◌∙◌, ap, ◌⊎◌, inl, inr, ◌≤◌, String, false, ◌==◌, Option, some, List, [], ◌∷◌,
  any, eqb, length_units, Bool-cases, arith, if◌then◌else◌,
}
use mandate_flow.Model.{RuntimeSessionEvent}
use mandate_flow.Json.{
  Json, null, text, array, Items, blank, item, Fields, get, put, delete, as_text,
}
use mandate_flow.Session.{Redaction}
use mandate_flow.Session.Bounds.{Safe, create_runtime_session_event-bounds}
use mandate_flow.Session.Migration.{migrate_runtime_session_event}
use mandate_flow.Groq.Requests.{get-put_same}
use mandate_flow.Service.Migration.{
  StoredRun, text_or_null, is_text, mandate_of, run_owner, put_all, closed_keys, run_keys,
  migrate_run, migrate_events, progress_of, stored_run,
}
use mandate_flow.Service.Migration.Keys.{get-put_other}

abbrev pub All {ℓ} : {A : Type ℓ} → (A → Type 0) → List A → Type 0
All P [] = Unit
All P (a ∷ list) = P a × All P list

abbrev pub IsBounded : RuntimeSessionEvent → Type 0
IsBounded e = (length_units e.title ≤ 161) × (length_units e.detail ≤ 501) × Safe e.safe_metadata

-- A Run of the data; its owner is `user-b` or not known.
pub record IsRun (run : StoredRun) : Type 0 where
  pub mandate : (s : Option String) × (get "mandateId" run.fields ≡ some (text_or_null s))
  pub owner :
      (get "ownerPrincipal" run.fields ≡ some null)
      ⊎ (get "ownerPrincipal" run.fields ≡ some (text "user-b"))
  pub agent : (s : Option String) × (get "agentPrincipal" run.fields ≡ some (text_or_null s))
  pub events : All IsBounded run.progress

get-put_all :
    (key : String) (changes : List (String × Json)) (fields : Fields)
    → any (λ change. change.0 == key) changes ≡ false
    → get key (put_all changes fields) ≡ get key fields
get-put_all key [] fields h = refl
get-put_all key ((name, value) ∷ changes) fields h =
    get-put_all key changes (put name value fields) (ground arith)
    ∙ get-put_other key name value fields (ground arith)

-- The first version's changes leave a key that they do not name.
past_closed :
    (key : String) (version : ℕ) (fields : Fields)
    → any (λ change. change.0 == key) closed_keys ≡ false
    → get key (put_all (if eqb version 1 then closed_keys else []) fields) ≡ get key fields
past_closed key version fields h = elim (Bool-cases (eqb version 1)) [
  | inl e ↦ rw e (get-put_all key closed_keys fields h)
  | inr e ↦ rw e refl
]

module _ (version : ℕ) (run : Fields) where
  abbrev kept : Fields
  kept = delete "progress" run

  abbrev mandate : Json
  mandate = text_or_null (mandate_of version run)

  abbrev principal : Json
  principal = text_or_null (as_text (get "agentPrincipal" run))

  -- The value of a key after all changes.
  past :
      (key : String) (value : Json)
      → any (λ change. change.0 == key) closed_keys ≡ false
      → get key (put_all (run_keys version run) kept) ≡ some value
      → get key (migrate_run version run) ≡ some value
  unfolding migrate_run
  past key value h e = past_closed key version (put_all (run_keys version run) kept) h ∙ e

  run_mandate : get "mandateId" (migrate_run version run) ≡ some mandate
  run_mandate = past "mandateId" mandate refl (
      get-put_all "mandateId"
        (("ownerPrincipal", run_owner run) ∷ ("agentPrincipal", principal) ∷ [])
        (put "mandateId" mandate kept) refl
      ∙ get-put_same "mandateId" mandate kept)

  run_owned : get "ownerPrincipal" (migrate_run version run) ≡ some (run_owner run)
  run_owned = past "ownerPrincipal" (run_owner run) refl (
      get-put_all "ownerPrincipal" (("agentPrincipal", principal) ∷ [])
        (put "ownerPrincipal" (run_owner run) (put "mandateId" mandate kept)) refl
      ∙ get-put_same "ownerPrincipal" (run_owner run) (put "mandateId" mandate kept))

  run_agent : get "agentPrincipal" (migrate_run version run) ≡ some principal
  run_agent = past "agentPrincipal" principal refl (
      get-put_same "agentPrincipal" principal
        (put "ownerPrincipal" (run_owner run) (put "mandateId" mandate kept)))

  owner_cases : (run_owner run ≡ null) ⊎ (run_owner run ≡ text "user-b")
  owner_cases = elim (Bool-cases (is_text "user-b" (get "ownerPrincipal" run))) [
    | inl e ↦ inr (rw e refl)
    | inr e ↦ inl (rw e refl)
  ]

module _ (r : Redaction) (time_of : String → ℕ) (digits : ℕ → String) where
  migrate_events-All :
      (run_id : String) (index : ℕ) (items : Items)
      → All IsBounded (migrate_events r time_of digits run_id index items)
  unfolding migrate_runtime_session_event
  migrate_events-All run_id index blank = tt
  migrate_events-All run_id index (item json items) = (
    create_runtime_session_event-bounds r run_id _ _ _ _,
    migrate_events-All run_id (suc index) items,
  )

  progress_of-All :
      (run_id : String) (progress : Option Json)
      → All IsBounded (progress_of r time_of digits run_id progress)
  progress_of-All run_id (some (array items)) = migrate_events-All run_id 0 items
  progress_of-All run_id _ = tt

  pub stored_run-IsRun :
      (version : ℕ) (run : Fields) → IsRun (stored_run r time_of digits version run)
  stored_run-IsRun version run = record {
    mandate = (mandate_of version run, run_mandate version run);
    owner = elim (owner_cases version run) [
      | inl e ↦ inl (run_owned version run ∙ ap some e)
      | inr e ↦ inr (run_owned version run ∙ ap some e)
    ];
    agent = (as_text (get "agentPrincipal" run), run_agent version run);
    events = progress_of-All _ (get "progress" run);
  }
