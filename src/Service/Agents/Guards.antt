-- ===== src/Service/Agents/Guards.antt =====
-- What the operations on an Agent leave alone, and when they refuse.
use mandate_flow.Base.{
  ◌≡◌, refl, inl, inr, ℕ, false, String, Option, none, some, find, find-modify, any, arith,
  Option-cases,
}
use mandate_flow.Model.{Agent, Database, ok, is_busy}
use mandate_flow.Service.Store.{agent_is, modify_agent}
use mandate_flow.Service.Agents.{new_demo_workflow, active_of, fresh_workflow}

-- The Agent is there, is not busy, and has no active Run.
abbrev pub Idle : String → Database → Option Agent → Type 0
Idle id database none = ⊥
Idle id database (some agent) =
    (is_busy agent.status ≡ false) × (any (active_of id) database.runs ≡ false)

-- What a new workflow forgets.
abbrev pub Forgotten : Option Agent → Type 0
Forgotten none = ⊥
Forgotten (some agent) = (agent.codex_thread_id ≡ none) × (agent.active_policy_context_id ≡ none)

fresh_agent :
    (id : String) (now : ℕ) (before after : Database) (owner agent : Agent)
    → find (agent_is id) before.agents ≡ some owner
    → new_demo_workflow id now before ≡ ok (after, agent)
    → Idle id before (some owner)
      × ((after ≡ modify_agent id (fresh_workflow now) before) × (agent ≡ fresh_workflow now owner))
unfolding new_demo_workflow
fresh_agent id now before after owner agent there e =
    let f = (rw (there, new_demo_workflow) at e) in ground arith

-- A new workflow begins only for an Agent that is there, is not busy and has no active Run, and the
-- stored Agent has then no thread and no policy context.
pub new_demo_workflow-Idle :
    (id : String) (now : ℕ) (before after : Database) (agent : Agent)
    → new_demo_workflow id now before ≡ ok (after, agent)
    → Idle id before (find (agent_is id) before.agents)
      × Forgotten (find (agent_is id) after.agents)
unfolding new_demo_workflow
new_demo_workflow-Idle id now before after agent e =
    elim (Option-cases (find (agent_is id) before.agents)) [
      | inl missing ↦ cc (rw (missing, new_demo_workflow) at e)
      | inr (owner, there) ↦
          let (idle, (changed, _)) = fresh_agent id now before after owner agent there e in
          let stored : find (agent_is id) after.agents ≡ some (fresh_workflow now owner) =
            rw
              (
                changed,
                find-modify (agent_is id) (fresh_workflow now) before.agents (λ x. refl),
                there,
              )
              refl in
          rw (there, stored) (idle, (refl, refl))
    ]
