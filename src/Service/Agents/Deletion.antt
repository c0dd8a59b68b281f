-- ===== src/Service/Agents/Deletion.antt =====
-- What is left once an Agent is deleted.
use mandate_flow.Base.{
  ◌≡◌, refl, ◌⊎◌, inl, inr, ◌==◌, eq_iff, Bool, true, false, not, String, Option, none, some, List,
  [], ◌∷◌, filter, find, mem, All, arith, Bool-cases, if◌then◌else◌,
}
use mandate_flow.Model.{Agent, AgentRun, Database, Result, ok, err}
use mandate_flow.Service.Store.{Answer, mutate, agent_is, found, no_agent, get_agent}
use mandate_flow.Service.Agents.{
  remove_agent, delete_agent, request_cancellation, active_of, asked_by,
}

module _ {ℓ} {A : Type ℓ} (gone : A → Bool) where
  All-filter-not : (xs : List A) → All (λ x. gone x ≡ false) (filter (λ x. not (gone x)) xs)
  All-filter-not [] = tt
  All-filter-not (x ∷ xs) = elim (Bool-cases (gone x)) [
    | inl hit ↦ rw hit (All-filter-not xs)
    | inr miss ↦ rw miss (miss, All-filter-not xs)
  ]

  -- A search that what is gone does not pass finds the same.
  find-filter-not :
      (p : A → Bool) (xs : List A)
      → ((x : A) → p x ≡ true → gone x ≡ false)
      → find p (filter (λ x. not (gone x)) xs) ≡ find p xs
  find-filter-not p [] apart = refl
  find-filter-not p (x ∷ xs) apart = ground (arith, apart x, find-filter-not p xs apart)

-- Nothing of the Agent is left, and what is found of another Agent is as it was.
pub record Removed (id : String) (before after : Database) : Type 0 where
  pub no_agent : All (λ agent. agent_is id agent ≡ false) after.agents
  pub no_message : All (λ message. (message.agent_id == id) ≡ false) after.messages
  pub no_run : All (λ run. (run.agent_id == id) ≡ false) after.runs
  pub others_kept :
      (other : String)
      → (other == id) ≡ false
      → find (agent_is other) after.agents ≡ find (agent_is other) before.agents

remove_agent-Removed :
    (id : String) (database : Database) → Removed id database (remove_agent id database)
unfolding remove_agent
remove_agent-Removed id database = record {
  no_agent = All-filter-not (agent_is id) database.agents;
  no_message = All-filter-not (λ message. message.agent_id == id) database.messages;
  no_run = All-filter-not (λ run. run.agent_id == id) database.runs;
  others_kept = λ other apart.
      find-filter-not (agent_is id) (agent_is other) database.agents
        (λ agent found. let same = (eq_iff agent.id other).0 found in rw same apart);
}

-- The Run of the Agent that was active, if one was, is among those that are asked to end.
abbrev pub Asked : String → Database → List String → Type 0
Asked id before asked =
    (run : AgentRun) → find (active_of id) before.runs ≡ some run → mem run.id asked ≡ true

-- What a deletion leaves, with the requests for cancellation when its wait begins. It fails because the Agent is not there,
-- and has done nothing, or it has asked the Agent's active Run to end, and the data is what that end and
-- other calls have made of it.
abbrev pub Deletion :
    (Database → Database)
    → String
    → List String
    → Database
    → (Database × List String) × Result Agent
    → Type 0
Deletion meanwhile id requests before ((after, asked), err e) =
    ((find (agent_is id) before.agents ≡ none) × (after ≡ before) × (asked ≡ requests))
    ⊎ ((after ≡ meanwhile before) × Asked id before asked)
Deletion meanwhile id requests before ((after, asked), ok agent) =
    (find (agent_is id) before.agents ≡ some agent)
    × Removed id (meanwhile before) after
    × Asked id before asked

mem-first : (id : String) (ids : List String) → mem id (id ∷ ids) ≡ true
mem-first id ids = let same : (id == id) ≡ true = (eq_iff id id).1 refl in rw same refl

request_cancellation-Asked :
    (id : String) (before : Database) (requests : List String)
    → Asked id before (request_cancellation id before requests)
unfolding request_cancellation
request_cancellation-Asked id before requests run active =
    rw (active, request_cancellation)
      (elim (Bool-cases (mem run.id requests)) [
        | inl there ↦ rw (there, there) refl
        | inr fresh ↦ rw fresh (mem-first run.id requests)
      ])

-- A deletion that succeeds has found the Agent and asked its active Run, if there is one, to end; it
-- leaves neither the Agent nor a message or a Run of it, and every other Agent is found as it was when
-- the mutation had its turn. One that fails has done nothing, where the Agent is not there; otherwise it
-- has asked the Run to end, and the data is what that Run's end and other calls have made of it.
pub delete_agent-Deletion :
    (answer : Answer) (meanwhile : Database → Database) (id : String) (requests : List String)
    (before : Database)
    → Deletion meanwhile id requests before (delete_agent answer meanwhile id requests before)
unfolding delete_agent get_agent mutate
delete_agent-Deletion answer meanwhile id requests before =
    by_cases (find (agent_is id) before.agents) refl answer.resolved answer.persisted
  where
    asked : Asked id before (request_cancellation id before requests)
    asked = request_cancellation-Asked id before requests

    by_cases :
        (owner : Option Agent)
        → find (agent_is id) before.agents ≡ owner
        → (moved persisted : Bool)
        → Deletion meanwhile id requests before (elim (found owner no_agent) [
          | err e ↦ ((before, requests), err e)
          | ok agent ↦
              asked_by
                (if moved
                  then mutate persisted (λ db. ok (remove_agent id db, agent)) (meanwhile before)
                  else (meanwhile before, err answer.failure))
                (request_cancellation id before requests)
        ])
    by_cases none missing moved persisted = inl (missing, refl, refl)
    by_cases (some agent) there false persisted = inr (refl, asked)
    by_cases (some agent) there true false = inr (refl, asked)
    by_cases (some agent) there true true =
        (there, remove_agent-Removed id (meanwhile before), asked)
