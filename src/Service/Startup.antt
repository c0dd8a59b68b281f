-- ===== src/Service/Startup.antt =====
-- agent-service.ts: the first mutation of `initialize`, after a restart of the server.
use Prim.Native.String
use mandate_flow.Base.{
  ℕ, ◌≡◌, refl, true, false, ◌&&◌, Option, none, some, List, [], ◌∷◌, map, find, truthy, is_empty,
  eqb, if◌then◌else◌, Each2, Each2-map, arith,
}
use mandate_flow.Model.{
  Agent, ready, AgentRun, RunStatus, MandateStatus, Database, is_busy, is_active,
}
use mandate_flow.Config.{AppConfig}
use mandate_flow.Service.Store.{agent_is}
use mandate_flow.Service.Agents.{codex_home_version}

-- The data has passed the store's migration, which leaves no other owner.
adopt_agent : Agent → Agent
adopt_agent agent = record agent {
  agent_principal =
      if is_empty agent.agent_principal
      then String.◌++◌ "agent:" agent.id
      else agent.agent_principal;
  codex_thread_id =
      if eqb agent.codex_home_version codex_home_version then agent.codex_thread_id else none;
  codex_home_version = codex_home_version;
}

-- `??=`
abbrev fill {ℓ} : {A : Type ℓ} → Option A → A → Option A
fill none a = some a
fill (some b) a = some b

abbrev attribute : Option Agent → AgentRun → AgentRun
attribute none run = run
attribute (some agent) run = record run {
  owner_principal = fill run.owner_principal agent.owner_principal;
  agent_principal = fill run.agent_principal agent.agent_principal;
}

abbrev interrupt : AppConfig → ℕ → AgentRun → AgentRun
interrupt config now run = record run {
  status = RunStatus.cancelled;
  error = some "Server restarted while this run was active";
  completed_at = some now;
  mandate_status =
      if config.mandate_flow_enabled && truthy run.policy_context_id
      then MandateStatus.security_finalization_pending
      else MandateStatus.closed;
}

recover_run : AppConfig → ℕ → List Agent → AgentRun → AgentRun
recover_run config now agents run =
    let attributed = attribute (find (agent_is run.agent_id) agents) run in
    if is_active run.status then interrupt config now attributed else attributed

release_agent : ℕ → Agent → Agent
release_agent now agent =
    if is_busy agent.status then record agent { status = ready; updated_at = now } else agent

unfoldable pub recover : AppConfig → ℕ → Database → Database
unfolding adopt_agent recover_run release_agent
recover config now database =
    let agents = map adopt_agent database.agents in
    record database {
      agents = map (release_agent now) agents;
      runs = map (recover_run config now agents) database.runs;
    }

-- A Run after a restart: none is active. One that was is cancelled, and its mandate waits for its
-- finalization where MandateFlow is on and the Run has a policy context, and is closed otherwise.
abbrev pub Recovered : AppConfig → AgentRun → AgentRun → Type 0
Recovered config before after =
    (is_active after.status ≡ false)
    × (is_active before.status ≡ false
        → (after.status ≡ before.status) × (after.mandate_status ≡ before.mandate_status))
    × (is_active before.status ≡ true
        → (after.status ≡ RunStatus.cancelled)
          × (after.mandate_status ≡ (
              if config.mandate_flow_enabled && truthy before.policy_context_id
              then MandateStatus.security_finalization_pending
              else MandateStatus.closed)))

attribute_keeps :
    (owner : Option Agent) (run : AgentRun)
    → ((attribute owner run).status ≡ run.status)
      × ((attribute owner run).policy_context_id ≡ run.policy_context_id)
      × ((attribute owner run).mandate_status ≡ run.mandate_status)
attribute_keeps none run = (refl, refl, refl)
attribute_keeps (some agent) run = (refl, refl, refl)

recover_run-Recovered :
    (config : AppConfig) (now : ℕ) (agents : List Agent) (run : AgentRun)
    → Recovered config run (recover_run config now agents run)
unfolding recover_run
recover_run-Recovered config now agents run =
    ground (arith, attribute_keeps (find (agent_is run.agent_id) agents) run)

abbrev pub Adopted : Agent → Agent → Type 0
Adopted before after =
    (is_busy after.status ≡ false)
    × (after.id ≡ before.id)
    × (after.codex_home_version ≡ codex_home_version)
    × (eqb before.codex_home_version codex_home_version ≡ false → after.codex_thread_id ≡ none)

adopted : (now : ℕ) (agent : Agent) → Adopted agent (release_agent now (adopt_agent agent))
unfolding release_agent adopt_agent
adopted now agent = ground arith

recover_agents :
    (now : ℕ) (agents : List Agent)
    → Each2 Adopted agents (map (release_agent now) (map adopt_agent agents))
recover_agents now [] = tt
recover_agents now (agent ∷ agents) = (adopted now agent, recover_agents now agents)

-- After a restart no Run is active and no Agent is busy. What was active is cancelled: where
-- MandateFlow is on and the Run has a policy context, its mandate waits for its finalization, otherwise
-- its mandate is closed. The other Runs keep their status and mandate. Every Agent keeps its identifier
-- and has the current Codex home, and one from another version has lost its thread.
pub recover_lem :
    (config : AppConfig) (now : ℕ) (database : Database)
    → Each2 (Recovered config) database.runs (recover config now database).runs
      × Each2 Adopted database.agents (recover config now database).agents
unfolding recover
recover_lem config now database = (
  Each2-map (Recovered config) _
      (recover_run-Recovered config now (map adopt_agent database.agents)) database.runs,
  recover_agents now database.agents,
)
