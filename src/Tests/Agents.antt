-- ===== src/Tests/Agents.antt =====
-- Deleting an Agent, and its new workflow.
use mandate_flow.Base.{refl, find, filter, [], ◌∷◌, ◌==◌}
use mandate_flow.Model.{Database, AgentRun}
use mandate_flow.Service.Store.{agent_is, modify_agent}
use mandate_flow.Service.Runs.{new_run}
use mandate_flow.Service.Agents.{delete_agent, new_demo_workflow, fresh_workflow}
use mandate_flow.Service.Agents.Deletion.{Deletion, delete_agent-Deletion}
use mandate_flow.Service.Agents.Guards.{Idle, Forgotten, new_demo_workflow-Idle}
use mandate_flow.Service.Queries.{list_agents, get_messages, get_runs}
use mandate_flow.Service.Queries.Order.{Latest, Earliest, lists_lem}
use mandate_flow.Tests.Data.{agent, answer, before, during, run}

delete_agent-Deletion_example :
    Deletion
      (λ database. database)
      "agent-1"
      []
      during
      (delete_agent answer (λ database. database) "agent-1" [] during)
delete_agent-Deletion_example =
    delete_agent-Deletion answer (λ database. database) "agent-1" [] during

abbrev renewed : Database
renewed = modify_agent "agent-1" (fresh_workflow 5) before

new_demo_workflow-Idle_example :
    Idle "agent-1" before (find (agent_is "agent-1") before.agents)
    × Forgotten (find (agent_is "agent-1") renewed.agents)
unfolding new_demo_workflow
new_demo_workflow-Idle_example =
    new_demo_workflow-Idle "agent-1" 5 before renewed (fresh_workflow 5 agent) refl

-- A second Run of the Agent, later than the first, and one of another Agent.
abbrev later : AgentRun
later = record run { id = "run-2"; created_at = 5 }

abbrev foreign : AgentRun
foreign = record run { id = "run-3"; agent_id = "agent-2"; created_at = 7 }

abbrev filled : Database
filled = record during { runs = run ∷ foreign ∷ later ∷ [] }

lists_lem_example :
    Latest (λ a. a.updated_at) filled.agents (list_agents filled)
    × Earliest
        (λ message. message.created_at)
        (filter (λ message. message.agent_id == "agent-1") filled.messages)
        []
    × Latest
        (λ r. r.created_at)
        (filter (λ r. r.agent_id == "agent-1") filled.runs)
        (later ∷ run ∷ [])
unfolding get_messages get_runs new_run
lists_lem_example = lists_lem "agent-1" filled [] (later ∷ run ∷ []) refl refl
