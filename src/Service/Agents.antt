-- ===== src/Service/Agents.antt =====
-- agent-service.ts: creating, editing, starting, stopping and deleting Agents.
pub mod Deletion
pub mod Guards
use Prim.Native.String
use mandate_flow.Base.{
  ℕ, String, Bool, true, false, not, ◌&&◌, ◌||◌, ◌==◌, Option, none, some, find, filter, any, push,
  List, ◌∷◌, mem, or_else, trim, if◌then◌else◌,
}
use mandate_flow.Model.{
  Agent, AgentStatus, ready, stopped, AgentRun, Database, CreateAgentInput, UpdateAgentInput,
  DemoOwnerPrincipal, Error, http, Result, ok, err, ◌>>=◌, ◌>>◌, throw_if, is_busy, is_active,
}
use mandate_flow.Service.Store.{Answer, mutate, agent_is, found, no_agent, get_agent, modify_agent}

abbrev pub codex_home_version : ℕ
codex_home_version = 1

abbrev pub edit_while_busy : Error
edit_while_busy = http 409 "Stop the active run before editing this Agent"

abbrev trim_or_empty : Option String → String
trim_or_empty none = ""
trim_or_empty (some s) = trim s

new_agent : Answer → String → CreateAgentInput → Agent
new_agent answer workspace_path input = record {
  id = answer.uuid;
  name = trim input.name;
  description = trim_or_empty input.description;
  instructions = trim_or_empty input.instructions;
  status = ready;
  owner_principal = or_else input.owner_principal DemoOwnerPrincipal.user_a;
  agent_principal = String.◌++◌ "agent:" answer.uuid;
  codex_home_version = codex_home_version;
  workspace_path = workspace_path;
  codex_thread_id = none;
  active_policy_context_id = none;
  last_error = none;
  created_at = answer.now;
  updated_at = answer.now;
}

-- The workspace is made first; the type of the input leaves no third owner to refuse.
pub create_agent : Answer → String → CreateAgentInput → Database → Database × Result Agent
unfolding new_agent mutate
create_agent answer workspace_path input database =
    let agent = new_agent answer workspace_path input in
    if answer.resolved
    then mutate answer.persisted (λ db. ok (record db { agents = push db.agents agent }, agent))
        database
    else (database, err answer.failure)

abbrev trim_over : Option String → String → String
trim_over none old = old
trim_over (some s) old = trim s

abbrev edited : UpdateAgentInput → ℕ → Agent → Agent
edited input now agent = record agent {
  name = trim_over input.name agent.name;
  description = trim_over input.description agent.description;
  instructions = trim_over input.instructions agent.instructions;
  last_error = none;
  updated_at = now;
}

-- Inside `mutate`.
edit : String → UpdateAgentInput → ℕ → Database → Result (Database × Agent)
edit id input now database = do
  agent ← found (find (agent_is id) database.agents) no_agent
  throw_if (is_busy agent.status) edit_while_busy
  ok (modify_agent id (edited input now) database, edited input now agent)

abbrev then_write : Answer → Database × Result Agent → Database × Result Agent
then_write answer (database, err e) = (database, err e)
then_write answer (database, ok agent) =
    (database, if answer.resolved then ok agent else err answer.failure)

-- `snapshot` is the data when the request came, `database` when its turn in the queue came. The
-- instructions are written after the commit.
pub update_agent :
    Answer → String → UpdateAgentInput → Database → Database → Database × Result Agent
unfolding edit get_agent mutate
update_agent answer id input snapshot database = elim (get_agent id snapshot) [
  | err e ↦ (database, err e)
  | ok current ↦
      if is_busy current.status
      then (database, err edit_while_busy)
      else then_write answer (mutate answer.persisted (edit id input answer.now) database)
]

-- The mutation of `deleteAgent`, after the cancellation and the move of the workspace.
unfoldable pub remove_agent : String → Database → Database
remove_agent id database = record {
  agents = filter (λ agent. not (agent_is id agent)) database.agents;
  messages = filter (λ message. not (message.agent_id == id)) database.messages;
  runs = filter (λ run. not (run.agent_id == id)) database.runs;
}

abbrev pub active_of : String → AgentRun → Bool
active_of agent_id run = (run.agent_id == agent_id) && is_active run.status

-- The Run that `cancelExecution` asks to end, and the requests after it has asked.
unfoldable pub request_cancellation : String → Database → List String → List String
request_cancellation agent_id snapshot requests = elim (find (active_of agent_id) snapshot.runs) [
  | none ↦ requests
  | some run ↦ if mem run.id requests then requests else run.id ∷ requests
]

abbrev pub asked_by :
    Database × Result Agent → List String → (Database × List String) × Result Agent
asked_by (after, result) requests = ((after, requests), result)

-- `deleteAgent`: the Agent's active Run is asked to end first, and `meanwhile` is what that Run's end and
-- other calls make of the data until the workspace is moved. With the data come the requests for
-- cancellation, as they are when the wait for that end begins.
unfoldable pub delete_agent :
    Answer
    → (Database → Database)
    → String
    → List String
    → Database
    → (Database × List String) × Result Agent
unfolding remove_agent get_agent mutate request_cancellation
delete_agent answer meanwhile id requests database = elim (get_agent id database) [
  | err e ↦ ((database, requests), err e)
  | ok agent ↦
      asked_by
        (if answer.resolved
          then mutate answer.persisted (λ db. ok (remove_agent id db, agent)) (meanwhile database)
          else (meanwhile database, err answer.failure))
        (request_cancellation id database requests)
]

abbrev is_ready : AgentStatus → Bool
is_ready ready = true
is_ready _ = false

abbrev with_status : AgentStatus → ℕ → Agent → Agent
with_status status now agent = record agent {
  status = status;
  last_error = if is_ready status then none else agent.last_error;
  updated_at = now;
}

-- The mutation of `setStatus`.
unfoldable pub set_status : String → AgentStatus → ℕ → Database → Result (Database × Agent)
set_status id status now database = do
  agent ← found (find (agent_is id) database.agents) no_agent
  throw_if (is_ready status && is_busy agent.status)
      (http 409 "Stop the active run before starting this Agent")
  ok (modify_agent id (with_status status now) database, with_status status now agent)

pub start_agent : Answer → String → Database → Database × Result Agent
unfolding set_status mutate
start_agent answer id database = mutate answer.persisted (set_status id ready answer.now) database

-- `stopAgent` once it has asked the execution to end, and waited for it.
pub stop_agent : Answer → String → Database → Database × Result Agent
unfolding set_status mutate
stop_agent answer id database = mutate answer.persisted (set_status id stopped answer.now) database

abbrev is_error : AgentStatus → Bool
is_error AgentStatus.error = true
is_error _ = false

abbrev pub fresh_workflow : ℕ → Agent → Agent
fresh_workflow now agent = record agent {
  active_policy_context_id = none;
  codex_thread_id = none;
  last_error = none;
  status = if is_error agent.status then ready else agent.status;
  updated_at = now;
}

-- The mutation of `newDemoWorkflow`, after the tests of the control plane.
unfoldable pub new_demo_workflow : String → ℕ → Database → Result (Database × Agent)
new_demo_workflow id now database = do
  agent ← found (find (agent_is id) database.agents) no_agent
  throw_if (is_busy agent.status || any (active_of id) database.runs)
      (http 409 "Stop the active Run before starting a new workflow")
  ok (modify_agent id (fresh_workflow now) database, fresh_workflow now agent)
