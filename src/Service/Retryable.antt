-- ===== src/Service/Retryable.antt =====
-- agent-service.ts: which Run the mutation of `createRun` takes for one that may be retried.
use mandate_flow.Base.{
  ◌≡◌, refl, ◌↔◌, ◌⊎◌, inl, inr, String, Bool, true, false, not, ◌&&◌, ◌||◌, ◌==◌, Option, none,
  some, find, arith, eq_iff, truthy, same, is_empty,
}
use mandate_flow.Model.{Agent, AgentRun, RunStatus, Database, is_completed}
use mandate_flow.Service.Store.{run_is}
use mandate_flow.Service.Runs.{retry_allowed, eligible}

-- A completed Run of the Agent, with a policy context that is the Agent's.
abbrev pub IsSource : Agent → AgentRun → Type 0
IsSource agent original =
    (original.agent_id ≡ agent.id)
    × (original.status ≡ RunStatus.completed)
    × (policy : String) × (is_empty policy ≡ false)
    × (original.policy_context_id ≡ some policy)
    × (agent.active_policy_context_id ≡ some policy)

abbrev pub IsFoundSource : Agent → Option AgentRun → Type 0
IsFoundSource agent none = ⊥
IsFoundSource agent (some original) = IsSource agent original

-- The Run that is to be retried, if one is named: the first with its identifier is such a Run.
abbrev pub Retryable : Agent → Option String → Database → Type 0
Retryable agent none database = Unit
Retryable agent (some source) database =
    (is_empty source ≡ true) ⊎ IsFoundSource agent (find (run_is source) database.runs)

shared_policy :
    (theirs ours : Option String)
    → truthy theirs && same theirs ours ≡ true
    → (policy : String) × (is_empty policy ≡ false) × (theirs ≡ some policy) × (ours ≡ some policy)
shared_policy none ours h = cc
shared_policy (some policy) none h = ground arith
shared_policy (some policy) (some other) h =
    let equal : policy ≡ other = (eq_iff policy other).0 (ground arith) in
    (policy, ground arith, refl, rw equal refl)

same_policy :
    (theirs ours : Option String) (policy : String)
    → is_empty policy ≡ false
    → theirs ≡ some policy
    → ours ≡ some policy
    → truthy theirs && same theirs ours ≡ true
same_policy theirs ours policy full e f =
    let equal : (policy == policy) ≡ true = (eq_iff policy policy).1 refl in
    rw (e, f, full, equal) refl

completed_iff : (status : RunStatus) → (is_completed status ≡ true) ↔ (status ≡ RunStatus.completed)
completed_iff status = ground arith

tests_of :
    (owned done full shared : Bool)
    → owned && done && full && shared ≡ true
    → (owned ≡ true) × (done ≡ true) × (full && shared ≡ true)
tests_of owned done full shared h = ground arith

eligible_iff :
    (agent : Agent) (original : AgentRun)
    → (eligible agent original ≡ true) ↔ IsSource agent original
unfolding eligible
eligible_iff agent original = (
  λ h.
      let (owned, done, policies) =
        tests_of (original.agent_id == agent.id) (is_completed original.status)
          (truthy original.policy_context_id)
          (same original.policy_context_id agent.active_policy_context_id) h in
      let (policy, filled, theirs, ours) =
        shared_policy original.policy_context_id agent.active_policy_context_id policies in
      (
        (eq_iff original.agent_id agent.id).0 owned,
        (completed_iff original.status).0 done,
        policy,
        filled,
        theirs,
        ours,
      ),
  λ (owned, done, policy, filled, theirs, ours).
      let shared =
        same_policy original.policy_context_id agent.active_policy_context_id policy filled theirs
          ours in
      rw
        (
          (eq_iff original.agent_id agent.id).1 owned,
          (completed_iff original.status).1 done,
          shared,
        )
        refl,
)

pub retry_allowed_iff :
    (agent : Agent) (retry : Option String) (database : Database)
    → (retry_allowed agent retry database ≡ true) ↔ Retryable agent retry database
unfolding retry_allowed
retry_allowed_iff agent none database = (λ _. tt, λ _. refl)
retry_allowed_iff agent (some source) database =
    by_cases (is_empty source) (find (run_is source) database.runs)
  where
    by_cases :
        (empty : Bool) (found : Option AgentRun)
        → (not (not empty)
              || (elim found [ none ↦ false | some original ↦ eligible agent original ])
            ≡ true)
          ↔ ((empty ≡ true) ⊎ IsFoundSource agent found)
    by_cases true found = (λ _. inl refl, λ _. refl)
    by_cases false none = (λ h. cc, λ h. elim h [ inl e ↦ cc | inr e ↦ elim e [ ] ])
    by_cases false (some original) = (
      λ h. inr ((eligible_iff agent original).0 h),
      λ h. elim h [ inl e ↦ cc | inr e ↦ (eligible_iff agent original).1 e ],
    )
