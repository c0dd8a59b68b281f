-- ===== src/Service/Store.antt =====
-- CodeJam/apps/server/src/store.ts, `JsonStore.mutate`, and what a wait of the service brings in
-- from outside: the clock, fresh identifiers, whether the file was written, and how the call ended.
use mandate_flow.Base.{ℕ, String, Bool, Option, some, none, if◌then◌else◌, ◌==◌, find, modify}
use mandate_flow.Model.{
  Error, other, Result, ok, err, Database, Agent, AgentRun, MandatePrepareResult, RunnerResult,
  MandateEvidence,
}

-- One answer of the outside. A step reads the fields that it needs.
pub record Answer : Type 0 where
  pub now : ℕ
  pub uuid : String
  pub message_uuid : String
  pub persisted : Bool
  pub resolved : Bool
  pub failure : Error
  pub grant : MandatePrepareResult
  pub outcome : RunnerResult
  pub evidence : MandateEvidence
  pub capability_sha256 : String

abbrev pub persist_error : Error
persist_error = other "The database could not be written"

-- The mutation works on a copy, which becomes the data once it is written; an error of either
-- leaves the data as it was.
unfoldable pub mutate {ℓ} :
    {A : Type ℓ} → Bool → (Database → Result (Database × A)) → Database → Database × Result A
mutate persisted mutation database = elim (mutation database) [
  | err e ↦ (database, err e)
  | ok (next, a) ↦ if persisted then (next, ok a) else (database, err persist_error)
]

abbrev pub agent_is : String → Agent → Bool
agent_is id agent = agent.id == id

abbrev pub run_is : String → AgentRun → Bool
run_is id run = run.id == id

abbrev pub found {ℓ} : {A : Type ℓ} → Option A → Error → Result A
found none e = err e
found (some a) e = ok a

abbrev pub no_agent : Error
no_agent = Error.http 404 "Agent not found"

unfoldable pub get_agent : String → Database → Result Agent
get_agent id database = found (find (agent_is id) database.agents) no_agent

unfoldable pub get_run : String → Database → Result AgentRun
get_run id database = found (find (run_is id) database.runs) (Error.http 404 "Run not found")

abbrev pub modify_agent : String → (Agent → Agent) → Database → Database
modify_agent id f database = record database { agents = modify (agent_is id) f database.agents }

abbrev pub modify_run : String → (AgentRun → AgentRun) → Database → Database
modify_run id f database = record database { runs = modify (run_is id) f database.runs }
