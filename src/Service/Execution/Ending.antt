-- ===== src/Service/Execution/Ending.antt =====
-- The last step of an execution, and what it leaves of its Run and of its Agent.
use mathlib.Core.Path.{subst}
use mandate_flow.Base.{
  ℕ, zero, suc, ◌≡◌, ◌≢◌, refl, String, Bool, true, false, Option, some, none, List, arith, find,
  find-modify, if◌then◌else◌,
}
use mandate_flow.Model.{Agent, AgentRun, MandateStatus, Database, RunnerResult, is_busy, is_active}
use mandate_flow.Config.{AppConfig}
use mandate_flow.Session.{Redaction}
use mandate_flow.Service.Progress.{add_run_progress}
use mandate_flow.Service.Store.{Answer, agent_is, run_is}
use mandate_flow.Service.Changes.{
  complete_run, completed_run, rested, fail_run, ended_run, ended_agent,
}
use mandate_flow.Service.Execution.{
  Stage, beginning, homing, authorizing, preparing, recording, activating, starting, announcing,
  launching, running, verifying, closing, marking, finishing, completing, caught, terminating,
  failing, settled, Exec, Shared, dispatch, start, advance,
}
use mandate_flow.Service.Execution.Steps.{steps, steps_keep}

-- A Run that has ended, by the flag of the execution.
abbrev pub EndedRun : Bool → Option AgentRun → Type 0
EndedRun pending none = ⊥
EndedRun pending (some run) =
    (is_active run.status ≡ false)
    × (run.completed_at ≢ none)
    × (run.mandate_status
        ≡ (if pending then MandateStatus.security_finalization_pending else MandateStatus.closed))

abbrev pub FreeAgent : Option Agent → Type 0
FreeAgent none = ⊥
FreeAgent (some agent) = is_busy agent.status ≡ false

module _ (config : AppConfig) (r : Redaction) where
  fail_run-Ended :
      (answer : Answer) (cancelled pending : Bool) (message : String) (completed_at : ℕ)
      (run_id agent_id : String) (database : Database) {run : AgentRun} {agent : Agent}
      → find (run_is run_id) database.runs ≡ some run
      → find (agent_is agent_id) database.agents ≡ some agent
      → let after =
          fail_run config r answer cancelled pending message completed_at run_id agent_id
            database in
        EndedRun pending (find (run_is run_id) after.runs)
        × FreeAgent (find (agent_is agent_id) after.agents)
  unfolding fail_run add_run_progress
  fail_run-Ended answer cancelled pending message completed_at run_id agent_id database {run}
        {agent} hr ha =
      rw
        (
          find-modify (run_is run_id)
              (ended_run config r answer cancelled pending message completed_at) database.runs
              (λ x. refl),
          find-modify (agent_is agent_id) (ended_agent config r cancelled message completed_at)
              database.agents (λ x. refl),
          hr,
          ha,
        )
        (ground arith)

  complete_run-Ended :
      (answer : Answer) (result : RunnerResult) (run_id agent_id : String) (database : Database)
      {run : AgentRun} {agent : Agent}
      → find (run_is run_id) database.runs ≡ some run
      → find (agent_is agent_id) database.agents ≡ some agent
      → let after = complete_run config r answer result run_id agent_id database in
        EndedRun false (find (run_is run_id) after.runs)
        × FreeAgent (find (agent_is agent_id) after.agents)
  unfolding complete_run add_run_progress
  complete_run-Ended answer result run_id agent_id database {run} {agent} hr ha =
      rw (hr, complete_run)
        (rw (ha, complete_run)
          (rw
            (
              find-modify (run_is run_id) (completed_run config r answer result) database.runs
                  (λ x. refl),
              find-modify (agent_is agent_id) (rested config r answer result) database.agents
                  (λ x. refl),
              hr,
              ha,
            )
            (ground arith)))

-- Only the ways out of the main path flag the finalization.
abbrev Unflagged : Stage → Exec → Type 0
Unflagged beginning x = x.finalization_pending ≡ false
Unflagged homing x = x.finalization_pending ≡ false
Unflagged authorizing x = x.finalization_pending ≡ false
Unflagged preparing x = x.finalization_pending ≡ false
Unflagged (recording grant) x = x.finalization_pending ≡ false
Unflagged activating x = x.finalization_pending ≡ false
Unflagged starting x = x.finalization_pending ≡ false
Unflagged announcing x = x.finalization_pending ≡ false
Unflagged launching x = x.finalization_pending ≡ false
Unflagged running x = x.finalization_pending ≡ false
Unflagged (verifying result) x = x.finalization_pending ≡ false
Unflagged (closing result) x = x.finalization_pending ≡ false
Unflagged (marking result) x = x.finalization_pending ≡ false
Unflagged (finishing n result) x = x.finalization_pending ≡ false
Unflagged (completing result) x = x.finalization_pending ≡ false
Unflagged _ x = Unit

abbrev Unsettled : Stage → Type 0
Unsettled settled = ⊥
Unsettled _ = Unit

module _ (config : AppConfig) (client : Bool) (r : Redaction) where
  dispatch-Unflagged :
      (stage : Stage) (answer : Answer) (x : Exec) (s : Shared)
      → Unflagged stage x
      → (let y = (dispatch config client r stage answer x s).0 in Unflagged y.stage y)
  unfolding dispatch
  dispatch-Unflagged beginning answer x s u = ground arith
  dispatch-Unflagged homing answer x s u = ground arith
  dispatch-Unflagged authorizing answer x s u = ground arith
  dispatch-Unflagged preparing answer x s u = ground arith
  dispatch-Unflagged (recording grant) answer x s u = ground arith
  dispatch-Unflagged activating answer x s u = ground arith
  dispatch-Unflagged starting answer x s u = ground arith
  dispatch-Unflagged announcing answer x s u = ground arith
  dispatch-Unflagged launching answer x s u = ground arith
  dispatch-Unflagged running answer x s u = ground arith
  dispatch-Unflagged (verifying result) answer x s u = ground arith
  dispatch-Unflagged (closing result) answer x s u = ground arith
  dispatch-Unflagged (marking result) answer x s u = ground arith
  dispatch-Unflagged (finishing zero result) answer x s u = ground arith
  dispatch-Unflagged (finishing (suc n) result) answer x s u = ground arith
  dispatch-Unflagged (completing result) answer x s u = ground arith
  dispatch-Unflagged (caught error) answer x s u = ground arith
  dispatch-Unflagged (terminating zero cancelled message completed_at) answer x s u = ground arith
  dispatch-Unflagged (terminating (suc n) cancelled message completed_at) answer x s u =
      ground arith
  dispatch-Unflagged (failing cancelled message completed_at) answer x s u = ground arith
  dispatch-Unflagged settled answer x s u = ground arith

  abbrev Left : Exec → Shared → Type 0
  Left x s =
      EndedRun x.finalization_pending (find (run_is x.run.id) s.database.runs)
      × FreeAgent (find (agent_is x.agent.id) s.database.agents)

  dispatch-Left :
      (stage : Stage) (answer : Answer) (x : Exec) (s : Shared) {run : AgentRun} {agent : Agent}
      → Unflagged stage x
      → Unsettled stage
      → answer.persisted ≡ true
      → find (run_is x.run.id) s.database.runs ≡ some run
      → find (agent_is x.agent.id) s.database.agents ≡ some agent
      → (dispatch config client r stage answer x s).0.stage ≡ settled
      → Left x (dispatch config client r stage answer x s).1
  unfolding dispatch
  dispatch-Left beginning answer x s u v p hr ha e = ground arith
  dispatch-Left homing answer x s u v p hr ha e = ground arith
  dispatch-Left authorizing answer x s u v p hr ha e = ground arith
  dispatch-Left preparing answer x s u v p hr ha e = ground arith
  dispatch-Left (recording grant) answer x s u v p hr ha e = ground arith
  dispatch-Left activating answer x s u v p hr ha e = ground arith
  dispatch-Left starting answer x s u v p hr ha e = ground arith
  dispatch-Left announcing answer x s u v p hr ha e = ground arith
  dispatch-Left launching answer x s u v p hr ha e = ground arith
  dispatch-Left running answer x s u v p hr ha e = ground arith
  dispatch-Left (verifying result) answer x s u v p hr ha e = ground arith
  dispatch-Left (closing result) answer x s u v p hr ha e = ground arith
  dispatch-Left (marking result) answer x s u v p hr ha e = ground arith
  dispatch-Left (finishing zero result) answer x s u v p hr ha e = ground arith
  dispatch-Left (finishing (suc n) result) answer x s u v p hr ha e = ground arith
  dispatch-Left (completing result) answer x s u v p hr ha e =
      ground (arith, complete_run-Ended config r answer result x.run.id x.agent.id s.database hr ha)
  dispatch-Left (caught error) answer x s u v p hr ha e = ground arith
  dispatch-Left (terminating zero cancelled message completed_at) answer x s u v p hr ha e =
      ground arith
  dispatch-Left (terminating (suc n) cancelled message completed_at) answer x s u v p hr ha e =
      ground arith
  dispatch-Left (failing cancelled message completed_at) answer x s u v p hr ha e = ground (
    arith,
    fail_run-Ended config r answer cancelled x.finalization_pending message completed_at x.run.id
        x.agent.id s.database hr ha,
  )
  dispatch-Left settled answer x s u v p hr ha e = absurd v

  advance-Unflagged :
      (answer : Answer) (x : Exec) (s : Shared)
      → Unflagged x.stage x
      → Unflagged
          (advance config client r answer x s).0.stage
          (advance config client r answer x s).0
  unfolding advance
  advance-Unflagged answer x s u = dispatch-Unflagged x.stage answer x s u

  Unsettled-of : (stage : Stage) → stage ≢ settled → Unsettled stage
  Unsettled-of settled h = h refl
  Unsettled-of beginning h = tt
  Unsettled-of homing h = tt
  Unsettled-of authorizing h = tt
  Unsettled-of preparing h = tt
  Unsettled-of (recording grant) h = tt
  Unsettled-of activating h = tt
  Unsettled-of starting h = tt
  Unsettled-of announcing h = tt
  Unsettled-of launching h = tt
  Unsettled-of running h = tt
  Unsettled-of (verifying result) h = tt
  Unsettled-of (closing result) h = tt
  Unsettled-of (marking result) h = tt
  Unsettled-of (finishing n result) h = tt
  Unsettled-of (completing result) h = tt
  Unsettled-of (caught error) h = tt
  Unsettled-of (terminating n cancelled message completed_at) h = tt
  Unsettled-of (failing cancelled message completed_at) h = tt

  -- For any execution, after any answers and on any data: when a step settles it, its write goes
  -- through, and the Run and the Agent are still there, then the Run has ended with a completion
  -- time, its mandate is closed unless the execution has flagged the finalization, in which case it
  -- is stored as pending, and the Agent is not busy.
  pub last_step_ends :
      (agent : Agent) (run : AgentRun) (events : List (Answer × Shared)) (answer : Answer)
      (s : Shared) (x : Exec) (stored : AgentRun) (owner : Agent)
      → steps config client r events (start agent run) ≡ x
      → x.stage ≢ settled
      → answer.persisted ≡ true
      → find (run_is x.run.id) s.database.runs ≡ some stored
      → find (agent_is x.agent.id) s.database.agents ≡ some owner
      → (advance config client r answer x s).0.stage ≡ settled
      → EndedRun x.finalization_pending
          (find (run_is x.run.id) (advance config client r answer x s).1.database.runs)
        × FreeAgent
            (find (agent_is x.agent.id) (advance config client r answer x s).1.database.agents)
  unfolding advance start
  last_step_ends agent run events answer s x stored owner reached open_stage written hr ha ended =
      let h =
        steps_keep config client r (λ y. Unflagged y.stage y) advance-Unflagged events
          (start agent run) refl in
      dispatch-Left x.stage answer x s (subst (λ y. Unflagged y.stage y) reached h)
        (Unsettled-of x.stage open_stage) written hr ha ended
