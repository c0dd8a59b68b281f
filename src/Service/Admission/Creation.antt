-- ===== src/Service/Admission/Creation.antt =====
-- agent-service.ts: what `createRun` leaves, on each of its ways out.
use mandate_flow.Base.{
  ◌≡◌, refl, ◌⊎◌, inl, inr, String, Bool, true, false, not, ◌&&◌, ◌||◌, Option, some, any,
  Each2-refl, arith, if◌then◌else◌,
}
use mandate_flow.Model.{
  Agent, AgentRun, Message, Database, Result, ok, err, throw_if, throw_if-then,
}
use mandate_flow.Config.{AppConfig}
use mandate_flow.Service.Store.{Answer, mutate, persist_error}
use mandate_flow.Service.Finalization.{
  Attempt, Reconciled, OnlyReconciled, pending_runs, reconcile, reconcile-Reconciled,
}
use mandate_flow.Service.Admission.{Admission, admit-Admission}
use mandate_flow.Service.Runs.{
  admit, create_run, test_pending, admit_tested, start_tests, before_admission,
  require_finalized_authority, new_run, new_message, pending_of, lacks_key, lacks_proof, no_key,
  not_a_proof, not_ready, still_pending,
}

-- MandateFlow is off, or the control plane is ready and nothing is pending.
abbrev pub is_safe_start : Bool → Bool → Bool → Bool
is_safe_start enabled readiness pending = not enabled || (readiness && not pending)

-- The data after the tests: as it was but for pending Runs that the reconciliation has closed, and
-- exactly as it was where MandateFlow is off.
abbrev pub Tested :
    AppConfig → (AgentRun → Attempt) → String → Database → Database → Database → Type 0
Tested config attempts agent_id snapshot before tested =
    OnlyReconciled attempts (pending_runs (some agent_id) snapshot) before tested
    × (config.mandate_flow_enabled ≡ false → tested ≡ before)

-- What `createRun` leaves, `before` being the data that it starts from.
abbrev pub Creation :
    AppConfig
    → (AgentRun → Attempt)
    → (Database → Database)
    → Bool
    → AgentRun
    → Database
    → Database
    → Database × Result Agent
    → Type 0
Creation config attempts meanwhile readiness run snapshot before (after, err e) =
    (tested : Database) × Tested config attempts run.agent_id snapshot before tested
    × ((after ≡ tested) ⊎ (after ≡ meanwhile tested))
Creation config attempts meanwhile readiness run snapshot before (after, ok agent) =
    (tested : Database) × Tested config attempts run.agent_id snapshot before tested
    × Admission run (meanwhile tested) after agent
    × (is_safe_start config.mandate_flow_enabled readiness
          (any (pending_of run.agent_id) tested.runs)
        ≡ true)

module _ (config : AppConfig) (attempts : AgentRun → Attempt) (readiness : Bool)
    (agent_id prompt : String) (snapshot before : Database) where
  unchanged : Tested config attempts agent_id snapshot before before
  unchanged = (
    record {
      closed =
          Each2-refl (Reconciled attempts (pending_runs (some agent_id) snapshot)) (λ x. inl refl)
            before.runs;
      same_agents = refl;
      same_messages = refl;
    },
    λ _. refl,
  )

  -- What the tests leave, and what they have found where they pass.
  abbrev Passed : Database × Result (Unit {0}) → Type 0
  Passed (tested, err e) = Tested config attempts agent_id snapshot before tested
  Passed (tested, ok _) =
      Tested config attempts agent_id snapshot before tested
      × (is_safe_start config.mandate_flow_enabled readiness (any (pending_of agent_id) tested.runs)
          ≡ true)

  -- The last test, after a reconciliation.
  finalized :
      (tested : Database)
      → Tested config attempts agent_id snapshot before tested
      → readiness ≡ true
      → Passed (tested, throw_if (any (pending_of agent_id) tested.runs) still_pending)
  finalized tested h ready = by_cases (any (pending_of agent_id) tested.runs) refl
    where
      safe : (enabled : Bool) → is_safe_start enabled true false ≡ true
      safe true = refl
      safe false = refl

      by_cases :
          (pending : Bool)
          → any (pending_of agent_id) tested.runs ≡ pending
          → Passed (tested, throw_if pending still_pending)
      by_cases true e = h
      by_cases false e = (h, rw (e, ready) (safe config.mandate_flow_enabled))

  require_finalized_authority-Passed :
      config.mandate_flow_enabled ≡ true
      → readiness ≡ true
      → Passed (require_finalized_authority attempts agent_id snapshot before)
  unfolding require_finalized_authority
  require_finalized_authority-Passed on ready =
      by_cases (reconcile true attempts (some agent_id) snapshot before)
        (reconcile-Reconciled attempts true (some agent_id) snapshot before)
    where
      by_cases :
          (reached : Database × Result (Unit {0}))
          → OnlyReconciled attempts (pending_runs (some agent_id) snapshot) before reached.0
          → Passed (test_pending agent_id reached)
      by_cases (tested, err e) h = (h, λ off. cc)
      by_cases (tested, ok _) h = finalized tested (h, λ off. cc) ready

  before_admission-Passed :
      Passed (before_admission config attempts readiness agent_id prompt snapshot before)
  unfolding before_admission start_tests
  before_admission-Passed =
      by_cases (start_tests config readiness prompt) refl config.mandate_flow_enabled refl
    where
      ready_of :
          config.mandate_flow_enabled ≡ true
          → start_tests config readiness prompt ≡ ok tt
          → readiness ≡ true
      ready_of on eq =
          let (_, after_key) = throw_if-then (lacks_key config) no_key _ tt eq in
          let (_, after_prompt) =
            throw_if-then (lacks_proof config prompt) not_a_proof _ tt after_key in
          let (ready, _) =
            throw_if-then (config.mandate_flow_enabled && not readiness) not_ready _ tt
              after_prompt in
          ground (arith, on, ready)

      by_cases :
          (tests : Result (Unit {0}))
          → start_tests config readiness prompt ≡ tests
          → (enabled : Bool) → config.mandate_flow_enabled ≡ enabled
          → Passed (elim tests [
            | err e ↦ (before, err e)
            | ok _ ↦
                if enabled
                then require_finalized_authority attempts agent_id snapshot before
                else (before, ok tt)
          ])
      by_cases (err e) eq enabled on = unchanged
      by_cases (ok _) eq true on = require_finalized_authority-Passed on (ready_of on eq)
      by_cases (ok _) eq false off = (unchanged, rw off refl)

-- What `createRun` leaves, on each way out. Up to its mutation it has changed nothing but this: a Run
-- that is pending may be closed, where the end of a Run with its identifier is confirmed, which the
-- snapshot shows as pending and of the Agent; and nothing at all where MandateFlow is off. One that
-- fails leaves the data so, or as other calls have made it of that before the mutation. One that succeeds has found the
-- Agent neither stopped nor busy and the Run to retry eligible, has made the Agent busy and listed the
-- new Run last; and where MandateFlow is on it has found the control plane ready, and no pending
-- finalization of the Agent once it had reconciled.
pub create_run-Creation :
    (config : AppConfig) (answer : Answer) (attempts : AgentRun → Attempt)
    (meanwhile : Database → Database) (agent_id prompt : String) (retry : Option String)
    (create_user_message : Bool) (snapshot before : Database)
    → Creation config attempts meanwhile answer.resolved
        (new_run answer agent_id prompt retry)
        snapshot
        before
        (create_run config answer attempts meanwhile agent_id prompt retry create_user_message
          snapshot before)
unfolding create_run new_run admit_tested mutate
create_run-Creation config answer attempts meanwhile agent_id prompt retry create_user_message
      snapshot before =
    by_cases (before_admission config attempts answer.resolved agent_id prompt snapshot before)
      (before_admission-Passed config attempts answer.resolved agent_id prompt snapshot before)
  where
    run : AgentRun
    run = new_run answer agent_id prompt retry

    message : Option Message
    message = new_message answer agent_id prompt create_user_message

    written :
        (tested : Database)
        → Tested config attempts agent_id snapshot before tested
        → (is_safe_start config.mandate_flow_enabled answer.resolved
              (any (pending_of agent_id) tested.runs)
            ≡ true)
        → (outcome : Result (Database × Agent))
        → admit run message answer.now (meanwhile tested) ≡ outcome
        → (persisted : Bool)
        → Creation config attempts meanwhile answer.resolved run snapshot before (elim outcome [
          | err e ↦ (meanwhile tested, err e)
          | ok (next, a) ↦ if persisted then (next, ok a) else (meanwhile tested, err persist_error)
        ])
    written tested h safe (err e) eq persisted = (tested, h, inr refl)
    written tested h safe (ok (next, agent)) eq true =
        (tested, h, admit-Admission run message answer.now (meanwhile tested) next agent eq, safe)
    written tested h safe (ok (next, agent)) eq false = (tested, h, inr refl)

    by_cases :
        (tests : Database × Result (Unit {0}))
        → Passed config attempts answer.resolved agent_id prompt snapshot before tests
        → Creation config attempts meanwhile answer.resolved run snapshot before
            (admit_tested answer.persisted (admit run message answer.now) meanwhile tests)
    by_cases (tested, err e) h = (tested, h, inl refl)
    by_cases (tested, ok _) h =
        written tested h.0 h.1 (admit run message answer.now (meanwhile tested)) refl
          answer.persisted
