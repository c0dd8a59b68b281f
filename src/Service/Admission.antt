-- ===== src/Service/Admission.antt =====
-- When a Run is admitted, and what its admission leaves.
pub mod Creation
use mathlib.Core.Path.{subst}
use mandate_flow.Service.Retryable.{Retryable, retry_allowed_iff}
use mandate_flow.Base.{
  ℕ, ◌≡◌, refl, ◌↔◌, ◌⊎◌, inl, inr, String, Bool, true, false, not, ◌&&◌, ◌||◌, ◌==◌, Option, none,
  some, find, find-modify, push, arith, Option-cases, Bool-cases, eq_iff, truthy, same, is_empty,
}
use mandate_flow.Model.{
  Agent, AgentStatus, ready, error, AgentRun, RunStatus, Message, Database, http, ok, err, is_ok,
  is_busy, is_stopped, is_completed,
}
use mandate_flow.Service.Store.{agent_is, run_is}
use mandate_flow.Service.Runs.{admit, admitted, start_work, retry_allowed, eligible}

-- The Agent is there, neither stopped nor busy, and the Run that is retried may be.
abbrev pub Admissible : AgentRun → Database → Option Agent → Type 0
Admissible run database none = ⊥
Admissible run database (some agent) =
    ((agent.status ≡ ready) ⊎ (agent.status ≡ error)) × Retryable agent run.retry_of_run_id database

pub free_iff :
    (status : AgentStatus)
    → ((is_stopped status ≡ false) × (is_busy status ≡ false))
      ↔ ((status ≡ ready) ⊎ (status ≡ error))
free_iff status = ground arith

-- A Run is admitted exactly when its Agent is there, ready or after an error, and the Run that it
-- retries, if any is named, is there: the first with that identifier belongs to the Agent, is
-- completed, and has a policy context, the Agent's.
pub admit_iff :
    (run : AgentRun) (message : Option Message) (now : ℕ) (database : Database)
    → (is_ok (admit run message now database) ≡ true)
      ↔ Admissible run database (find (agent_is run.agent_id) database.agents)
unfolding admit
admit_iff run message now database =
    elim (Option-cases (find (agent_is run.agent_id) database.agents)) [
      | inl missing ↦ rw (missing, admit) (ground arith)
      | inr (agent, there) ↦
          let free = free_iff agent.status in
          let retry = retry_allowed_iff agent run.retry_of_run_id database in
          rw (there, admit)
            (
              λ h. (free.0 (ground arith, ground arith), retry.0 (ground arith)),
              λ h.
                  let (not_stopped, not_busy) = free.1 h.0 in
                  let allowed = retry.1 h.1 in rw (not_stopped, not_busy, allowed) refl,
            )
    ]

-- What an admission leaves: the Agent was free and is busy, the Run is there, and the Agent that the
-- execution starts from is the stored one, as it was.
pub record Admission (run : AgentRun) (before after : Database) (agent : Agent) : Type 0 where
  pub stored : find (agent_is run.agent_id) before.agents ≡ some agent
  pub not_stopped : is_stopped agent.status ≡ false
  pub was_free : is_busy agent.status ≡ false
  pub retry : retry_allowed agent run.retry_of_run_id before ≡ true
  pub now_busy :
      (now : ℕ) × (find (agent_is run.agent_id) after.agents ≡ some (start_work now agent))
  pub listed : after.runs ≡ push before.runs run

admit-inversion :
    (run : AgentRun) (message : Option Message) (now : ℕ) (before after : Database)
    (owner agent : Agent)
    → find (agent_is run.agent_id) before.agents ≡ some owner
    → admit run message now before ≡ ok (after, agent)
    → (owner ≡ agent)
      × (is_stopped owner.status ≡ false)
      × (is_busy owner.status ≡ false)
      × (retry_allowed owner run.retry_of_run_id before ≡ true)
      × (after ≡ admitted run message now before)
unfolding admit
admit-inversion run message now before after owner agent there e =
    let f = (rw (there, admit) at e) in ground arith

owner-Admission :
    (run : AgentRun) (message : Option Message) (now : ℕ) (before after : Database)
    (owner agent : Agent)
    → find (agent_is run.agent_id) before.agents ≡ some owner
    → admit run message now before ≡ ok (after, agent)
    → Admission run before after agent
owner-Admission run message now before after owner agent there e =
    let (same, s, b, r, changed) =
      admit-inversion run message now before after owner agent there e in
    subst (Admission run before after) same (
      rw changed (record {
        stored = there;
        not_stopped = s;
        was_free = b;
        retry = r;
        now_busy = (
          now,
          rw (
            find-modify (agent_is run.agent_id) (start_work now) before.agents (λ x. refl),
            there,
          ),
        );
        listed = refl;
      }))

-- What a mutation that succeeds leaves.
pub admit-Admission :
    (run : AgentRun) (message : Option Message) (now : ℕ) (before after : Database) (agent : Agent)
    → admit run message now before ≡ ok (after, agent)
    → Admission run before after agent
unfolding admit
admit-Admission run message now before after agent e =
    elim (Option-cases (find (agent_is run.agent_id) before.agents)) [
      | inl missing ↦ cc (rw (missing, admit) at e)
      | inr (owner, there) ↦ owner-Admission run message now before after owner agent there e
    ]

-- As long as nothing else touches the data that an admission leaves, its Agent takes no second Run: it
-- is refused as already running.
pub admit_twice :
    (first second : AgentRun) (before after : Database) (agent : Agent)
    (first_message second_message : Option Message) (earlier now : ℕ)
    → admit first first_message earlier before ≡ ok (after, agent)
    → second.agent_id ≡ first.agent_id
    → admit second second_message now after ≡ err (http 409 "This Agent is already running")
unfolding admit
admit_twice first second before after agent first_message second_message earlier now e same =
    let left = admit-Admission first first_message earlier before after agent e in
    rw (same, left.now_busy.1, admit) refl
