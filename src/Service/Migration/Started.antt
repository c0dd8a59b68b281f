-- ===== src/Service/Migration/Started.antt =====
-- store.ts: the data that a start reads.
use mandate_flow.Base.{
  ℕ, ◌≡◌, refl, ◌∙◌, inl, inr, String, Bool, true, false, ◌&&◌, Option, none, some, List, or_else,
  Bool-cases,
}
use mandate_flow.Json.{Json, null, array, object, Items, blank, item, Fields, get, as_number}
use mandate_flow.Session.{Redaction}
use mandate_flow.Service.Migration.{
  StoredRun, Initial, started, migrate_agent, spread, both, migrate_each, supported, stored_run,
  migrated, migrate_database, with_arrays, read_database, initialize,
}
use mandate_flow.Service.Migration.Settled.{
  IsAgent, migrate_agent-IsAgent, migrate_agent-migrate_agent,
}
use mandate_flow.Service.Migration.Runs.{All, IsRun, stored_run-IsRun}

-- An Agent that a further start leaves as it is.
abbrev pub IsSettled : Fields → Type 0
IsSettled agent = IsAgent agent × (migrate_agent 4 agent ≡ agent)

abbrev pub AllSettled : Initial → Type 0
AllSettled (started stored anew) = All IsSettled stored.agents × All IsRun stored.runs
AllSettled _ = Unit

-- The files that a start reads: with a version from 1 to 4, three arrays, and no null for an Agent or a
-- Run; or none at all.
abbrev no_null : Items → Bool
no_null blank = true
no_null (item null items) = false
no_null (item json items) = no_null items

abbrev three_arrays : Option Json → Option Json → Option Json → Bool
three_arrays (some (array agents)) (some (array messages)) (some (array runs)) =
    no_null agents && no_null runs
three_arrays _ _ _ = false

abbrev pub is_readable : Option Json → Bool
is_readable none = true
is_readable (some (object fields)) =
    supported (as_number (get "version" fields))
    && three_arrays (get "agents" fields) (get "messages" fields) (get "runs" fields)
is_readable _ = false

abbrev pub is_started : Initial → Bool
is_started (started stored anew) = true
is_started _ = false

abbrev is_some {ℓ} : {A : Type ℓ} → Option A → Bool
is_some none = false
is_some (some a) = true

is_some-both {ℓ} :
    {A : Type ℓ} (f : Fields → A) (fields : Fields) (rest : Option (List A))
    → is_some (both f (some fields) rest) ≡ is_some rest
is_some-both f fields none = refl
is_some-both f fields (some rest) = refl

is_some-migrate_each {ℓ} :
    {A : Type ℓ} (f : Fields → A) (items : Items) → is_some (migrate_each f items) ≡ no_null items
is_some-migrate_each f blank = refl
is_some-migrate_each f (item null items) = refl
is_some-migrate_each f (item json items) =
    is_some-both f _ (migrate_each f items) ∙ is_some-migrate_each f items

module _ (r : Redaction) (time_of : String → ℕ) (digits : ℕ → String) where
  abbrev OptionAll {ℓ} : {A : Type ℓ} → (A → Type 0) → Option (List A) → Type 0
  OptionAll P none = Unit
  OptionAll P (some list) = All P list

  both-All {ℓ} :
      {A : Type ℓ} (P : A → Type 0) (f : Fields → A)
      → ((fields : Fields) → P (f fields))
      → (first : Option Fields) (rest : Option (List A)) → OptionAll P rest
      → OptionAll P (both f first rest)
  both-All P f h (some fields) (some rest) all = (h fields, all)
  both-All P f h (some fields) none all = tt
  both-All P f h none rest all = tt

  migrate_each-All {ℓ} :
      {A : Type ℓ} (P : A → Type 0) (f : Fields → A)
      → ((fields : Fields) → P (f fields))
      → (items : Items) → OptionAll P (migrate_each f items)
  migrate_each-All P f h blank = tt
  migrate_each-All P f h (item json items) =
      both-All P f h (spread json) (migrate_each f items) (migrate_each-All P f h items)

  migrated-AllSettled :
      (anew : Bool) (messages : Items) (agents : Option (List Fields))
      (runs : Option (List StoredRun))
      → OptionAll IsSettled agents
      → OptionAll IsRun runs
      → AllSettled (migrated r time_of digits anew messages agents runs)
  migrated-AllSettled anew messages (some agents) (some runs) a b = (a, b)
  migrated-AllSettled anew messages (some agents) none a b = tt
  migrated-AllSettled anew messages none runs a b = tt

  with_arrays-AllSettled :
      (agents messages runs : Option Json) (version : ℕ)
      → AllSettled (with_arrays r time_of digits agents messages runs version)
  unfolding migrate_database
  with_arrays-AllSettled (some (array agents)) (some (array messages)) (some (array runs)) version =
      migrated-AllSettled _ messages (migrate_each (migrate_agent version) agents)
        (migrate_each (stored_run r time_of digits version) runs)
        (migrate_each-All IsSettled (migrate_agent version)
          (λ agent.
            (migrate_agent-IsAgent version agent, migrate_agent-migrate_agent version agent))
          agents)
        (migrate_each-All IsRun (stored_run r time_of digits version)
          (stored_run-IsRun r time_of digits version) runs)
  with_arrays-AllSettled _ _ _ version = tt

  read_database-AllSettled : (fields : Fields) → AllSettled (read_database r time_of digits fields)
  read_database-AllSettled fields =
      elim (Bool-cases (supported (as_number (get "version" fields)))) [
        | inl e ↦ rw e (
            with_arrays-AllSettled (get "agents" fields) (get "messages" fields) (get "runs" fields)
              (or_else (as_number (get "version" fields)) 4))
        | inr e ↦ rw e tt
      ]

  settled-initialize : (file : Option Json) → AllSettled (initialize r time_of digits file)
  unfolding initialize
  settled-initialize none = (tt, tt)
  settled-initialize (some null) = tt
  settled-initialize (some (object fields)) = read_database-AllSettled fields
  settled-initialize (some _) = tt

  is_started-migrated :
      (anew : Bool) (messages : Items) (agents : Option (List Fields))
      (runs : Option (List StoredRun))
      → is_started (migrated r time_of digits anew messages agents runs)
        ≡ (is_some agents && is_some runs)
  is_started-migrated anew messages (some agents) (some runs) = refl
  is_started-migrated anew messages (some agents) none = refl
  is_started-migrated anew messages none runs = refl

  is_started-with_arrays :
      (agents messages runs : Option Json) (version : ℕ)
      → is_started (with_arrays r time_of digits agents messages runs version)
        ≡ three_arrays agents messages runs
  unfolding migrate_database
  is_started-with_arrays (some (array agents)) (some (array messages)) (some (array runs)) version =
      is_started-migrated _ messages (migrate_each (migrate_agent version) agents)
        (migrate_each (stored_run r time_of digits version) runs)
      ∙ rw
          (
            is_some-migrate_each (migrate_agent version) agents,
            is_some-migrate_each (stored_run r time_of digits version) runs,
          )
          refl
  is_started-with_arrays _ _ _ version = refl

  is_started-initialize :
      (file : Option Json) → is_started (initialize r time_of digits file) ≡ is_readable file
  unfolding initialize
  is_started-initialize none = refl
  is_started-initialize (some (object fields)) =
      elim (Bool-cases (supported (as_number (get "version" fields)))) [
        | inl e ↦ rw e (
            is_started-with_arrays (get "agents" fields) (get "messages" fields) (get "runs" fields)
              (or_else (as_number (get "version" fields)) 4))
        | inr e ↦ rw e refl
      ]
  is_started-initialize (some _) = refl

  -- A start reads exactly the files that have a version from 1 to 4, three arrays, and no null among the
  -- Agents and the Runs, and starts where there is no file. Every Agent that it reads has an owner, a
  -- principal that is not empty, a version of its home and a context or null, and a further start leaves
  -- it as it is; every Run has a mandate and a principal or null, the owner `user-b` or null, and events
  -- within their bounds.
  pub initialize-AllSettled :
      (file : Option Json)
      → (is_started (initialize r time_of digits file) ≡ is_readable file)
        × AllSettled (initialize r time_of digits file)
  initialize-AllSettled file = (is_started-initialize file, settled-initialize file)
