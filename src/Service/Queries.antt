-- ===== src/Service/Queries.antt =====
-- agent-service.ts: the methods that only read. A snapshot is an argument.
pub mod Order
use mandate_flow.Base.{
  ℕ, leb, String, Bool, true, false, not, ◌&&◌, ◌==◌, Option, none, some, List, [], ◌∷◌, filter,
  sort_latest, latest, same, truthy, if◌then◌else◌,
}
use mandate_flow.Model.{
  Agent, AgentRun, Message, Database, MandateEvidence, Error, http, Result, ok, err, ◌>>=◌, ◌>>◌,
  throw_if,
}
use mandate_flow.Service.Store.{get_agent, get_run}

module _ {ℓ} {A : Type ℓ} (key : A → ℕ) where
  -- Before the first element that is no earlier.
  abbrev pub insert_earliest : A → List A → List A
  insert_earliest a [] = a ∷ []
  insert_earliest a (x ∷ xs) = if leb (key a) (key x) then a ∷ x ∷ xs else x ∷ insert_earliest a xs

  -- `sort((left, right) => left.key.localeCompare(right.key))`
  abbrev pub sort_earliest : List A → List A
  sort_earliest [] = []
  sort_earliest (x ∷ xs) = insert_earliest x (sort_earliest xs)

unfoldable pub list_agents : Database → List Agent
list_agents snapshot = sort_latest (λ agent. agent.updated_at) snapshot.agents

unfoldable pub get_messages : String → Database → Result (List Message)
unfolding get_agent
get_messages agent_id snapshot = do
  agent ← get_agent agent_id snapshot
  ok (
      sort_earliest (λ message. message.created_at)
        (filter (λ message. message.agent_id == agent_id) snapshot.messages))

unfoldable pub get_runs : String → Database → Result (List AgentRun)
unfolding get_agent
get_runs agent_id snapshot = do
  agent ← get_agent agent_id snapshot
  ok (sort_latest (λ run. run.created_at) (filter (λ run. run.agent_id == agent_id) snapshot.runs))

abbrev answer_of : Option (Result MandateEvidence) → Result MandateEvidence
answer_of none = err (http 404 "MandateFlow evidence is not enabled")
answer_of (some answer) = answer

-- `evidence` is what the control plane answers, if there is a client.
unfoldable pub get_run_evidence :
    Bool → Option (Result MandateEvidence) → String → Database → Result MandateEvidence
unfolding get_run
get_run_evidence enabled evidence run_id snapshot = do
  run ← get_run run_id snapshot
  throw_if (not enabled) (http 404 "MandateFlow evidence is not enabled")
  answer_of evidence

abbrev governed : Agent → String → AgentRun → Bool
governed agent agent_id run =
    (run.agent_id == agent_id) && same run.policy_context_id agent.active_policy_context_id

abbrev asked : Bool → Option AgentRun → Option String
asked has_summary none = none
asked has_summary (some run) = if truthy run.mandate_id && has_summary then run.mandate_id else none

-- The mandate whose summary is asked for; `none` where `null` is returned without a question.
unfoldable pub summary_target : Bool → String → Database → Result (Option String)
unfolding get_agent
summary_target has_summary agent_id snapshot = do
  agent ← get_agent agent_id snapshot
  ok (
      asked has_summary
        (latest (λ run. run.created_at) (filter (governed agent agent_id) snapshot.runs)))

pub record HealthInfo : Type 0 where
  pub mandate_flow_enabled : Bool
  pub mandate_flow_ready : Bool

-- `ready` is the answer of the control plane, if there is a client.
unfoldable pub health_info : Bool → Option Bool → HealthInfo
health_info enabled none = record { mandate_flow_enabled = enabled; mandate_flow_ready = false }
health_info enabled (some ready) = record {
  mandate_flow_enabled = enabled;
  mandate_flow_ready = enabled && ready;
}
