-- ===== src/Service/Revocation.antt =====
-- agent-service.ts: `revokeMandate`.
pub mod Answered
use mandate_flow.Base.{
  ℕ, ◌≡◌, refl, String, Bool, true, false, not, ◌&&◌, ◌||◌, ◌==◌, Option, some, List, filter, map,
  mem, latest, same, if◌then◌else◌, Each2, Each2-map, Each2-modify, arith,
}
use mandate_flow.Model.{
  Agent, ready, AgentRun, RunStatus, MandateStatus, Database, http, Result, ok, err, ◌>>=◌, ◌>>◌,
  throw_if, is_busy, is_active,
}
use mandate_flow.Service.Store.{Answer, mutate, agent_is, found, get_agent, modify_agent}

abbrev revoked_run : List String → ℕ → AgentRun → AgentRun
revoked_run affected now run =
    if mem run.id affected
    then if is_active run.status
      then record run {
        status = RunStatus.cancelled;
        error = some "Mandate was revoked; the active Runtime was cancelled";
        completed_at = some now;
        mandate_status = MandateStatus.revoked;
      }
      else record run { mandate_status = MandateStatus.revoked }
    else run

abbrev release : ℕ → Agent → Agent
release now agent =
    if is_busy agent.status then record agent { status = ready; updated_at = now } else agent

-- The mutation of `revokeMandate`.
unfoldable pub apply_revocation : List String → String → ℕ → Database → Database
apply_revocation affected agent_id now database =
    modify_agent agent_id (release now)
      (record database { runs = map (revoked_run affected now) database.runs })

abbrev concerned : String → AgentRun → Bool
concerned mandate_id run =
    same run.mandate_id (some mandate_id) || same run.policy_context_id (some mandate_id)

abbrev pub created : AgentRun → ℕ
created run = run.created_at

-- The tests before the control plane is asked: the Agent whose owner may revoke.
unfoldable pub revocation_target : Bool → Bool → String → Database → Result Agent
unfolding get_agent
revocation_target enabled can_revoke mandate_id snapshot = do
  throw_if (not enabled || not can_revoke) (http 404 "MandateFlow revocation is not enabled")
  run ←
      found (latest created (filter (concerned mandate_id) snapshot.runs))
        (http 404 "Mandate not found")
  get_agent run.agent_id snapshot

-- The Agent's Runs with a policy context.
abbrev pub of_context : String → String → AgentRun → Bool
of_context agent_id context run =
    (run.agent_id == agent_id) && same run.policy_context_id (some context)

-- What is answered after the mutation: the Agent is looked up again, and may be gone.
abbrev pub report :
    String → String → Database × Result Agent → Database × Result (Agent × Option AgentRun)
report agent_id context (after, err e) = (after, err e)
report agent_id context (after, ok _) = (
  after,
  do
    agent ← get_agent agent_id after
    ok (agent, latest created (filter (of_context agent_id context) after.runs)),
)

-- `affected` are the Runs that the control plane has revoked, where it resolved, and `context` is the
-- policy context of the mandate that it answers with. The active Runtime has been asked to stop by
-- then; `database` is the data when the mutation has its turn.
unfoldable pub revoke_mandate :
    Bool
    → Bool
    → String
    → Answer
    → List String
    → String
    → Database
    → Database
    → Database × Result (Agent × Option AgentRun)
unfolding revocation_target apply_revocation mutate get_agent
revoke_mandate enabled can_revoke mandate_id answer affected context snapshot database =
    elim (revocation_target enabled can_revoke mandate_id snapshot) [
      | err e ↦ (database, err e)
      | ok agent ↦
          if answer.resolved
          then report agent.id context (
              mutate answer.persisted
                (λ db. ok (apply_revocation affected agent.id answer.now db, agent)) database)
          else (database, err answer.failure)
    ]

abbrev pub Revoked : List String → AgentRun → AgentRun → Type 0
Revoked affected before after =
    (mem before.id affected ≡ true
      → (is_active after.status ≡ false) × (after.mandate_status ≡ MandateStatus.revoked))
    × (mem before.id affected ≡ false → after ≡ before)
    × (is_active before.status ≡ false → after.status ≡ before.status)

abbrev pub Released : Agent → Agent → Type 0
Released before after =
    (is_busy before.status ≡ false → after.status ≡ before.status) × (after.id ≡ before.id)

revoked_run-Revoked :
    (affected : List String) (now : ℕ) (run : AgentRun)
    → Revoked affected run (revoked_run affected now run)
revoked_run-Revoked affected now run = ground arith

abbrev pub Revocation : List String → Database → Database → Type 0
Revocation affected before after =
    Each2 (Revoked affected) before.runs after.runs × Each2 Released before.agents after.agents

pub apply_revocation-Revocation :
    (affected : List String) (agent : Agent) (now : ℕ) (database : Database)
    → Revocation affected database (apply_revocation affected agent.id now database)
unfolding apply_revocation
apply_revocation-Revocation affected agent now database = (
  Each2-map (Revoked affected) (revoked_run affected now) (revoked_run-Revoked affected now)
      database.runs,
  Each2-modify Released (agent_is agent.id) (release now) (λ a. (λ _. refl, refl))
      (λ a _. ground arith) database.agents,
)
