-- ===== src/Service/Execution.antt =====
-- agent-service.ts: `executeRun`. A stage stands for a place where the function waits; `advance`
-- runs it from the answer that ends the wait to the next one. Between two steps the data is
-- whatever the other handlers have made of it, so a step takes the data of its time.
pub mod Steps
pub mod Termination
pub mod Authority
pub mod Duty
pub mod Ending
use Prim.Native.String
use mandate_flow.Base.{
  ℕ, zero, suc, String, Bool, true, false, not, ◌&&◌, ◌||◌, ◌==◌, List, [], ◌∷◌, filter,
  if◌then◌else◌,
}
use mandate_flow.Model.{
  Agent, AgentRun, Database, RunProgressStage, RuntimeSessionEventKind, RuntimeSessionEventState,
  RunnerProgressEvent, RunnerResult, MandatePrepareResult, FinishStatus, Error, http, run_cancelled,
  security_finalization, incomplete_proof, other, message_of, is_run_cancelled, is_incomplete_proof,
}
use mandate_flow.Base.{any}
use mandate_flow.Config.{AppConfig}
use mandate_flow.Session.{Redaction}
use mandate_flow.Proof.{is_mandate_flow_proof_prompt, validate_mandate_flow_proof}
use mandate_flow.Service.Store.{Answer, persist_error}
use mandate_flow.Service.Changes.{
  progress_of, record_grant, mark_running, mark_finalizing, queue_run_progress, complete_run,
  fail_run,
}

pub data Stage : Type 0 where
  beginning homing authorizing preparing : Stage
  recording : MandatePrepareResult → Stage
  activating starting announcing launching running : Stage
  verifying closing marking : RunnerResult → Stage
  finishing : ℕ → RunnerResult → Stage
  completing : RunnerResult → Stage
  caught : Error → Stage
  terminating : ℕ → Bool → String → ℕ → Stage
  failing : Bool → String → ℕ → Stage
  settled : Stage

-- What is asked of the control plane and of the Runtime; with each, whether it resolved.
pub data Call : Type 0 where
  prepares activates launches asks_evidence : Call
  finishes : FinishStatus → Call

-- The locals of `executeRun`, the place where it waits, and its calls, the last one first.
pub record Exec : Type 0 where
  pub agent : Agent
  pub run : AgentRun
  pub mandate_prepared : Bool
  pub mandate_terminal : Bool
  pub finalization_pending : Bool
  pub stage : Stage
  pub calls : List (Call × Bool)

-- What the handlers of the service share.
pub record Shared : Type 0 where
  pub database : Database
  pub cancellation_requests : List String

unfoldable pub start : Agent → AgentRun → Exec
start agent run = record {
  agent = agent;
  run = run;
  mandate_prepared = false;
  mandate_terminal = false;
  finalization_pending = false;
  stage = beginning;
  calls = [];
}

abbrev pub cancel_requested : Exec → Shared → Bool
cancel_requested x s = any (λ id. id == x.run.id) s.cancellation_requests

abbrev to : Stage → Exec → Exec
to stage x = record x { stage = stage }

abbrev call : Call → Answer → Exec → Exec
call c answer x = record x { calls = (c, answer.resolved) ∷ x.calls }

abbrev change : (Database → Database) → Shared → Shared
change f s = record s { database = f s.database }

-- `await this.store.mutate(…)`: on to the next stage, or to the handler of errors.
abbrev write : Answer → (Database → Database) → Stage → Exec → Shared → Exec × Shared
write answer f next x s =
    if answer.persisted then (to next x, change f s) else (to (caught persist_error) x, s)

-- The number of attempts of `finishMandate`, after 0, 100 and 300 ms.
abbrev pub finish_attempts : ℕ
finish_attempts = 3

abbrev joined : List String → String
joined [] = ""
joined (what ∷ []) = what
joined (what ∷ next ∷ rest) = String.◌++◌ what (String.◌++◌ ", " (joined (next ∷ rest)))

module _ (config : AppConfig) (client : Bool) (r : Redaction) where
  abbrev report :
      Answer
      → RunProgressStage
      → RuntimeSessionEventKind
      → RuntimeSessionEventState
      → String
      → String
      → Exec
      → Shared
      → Shared
  report answer stage kind state title detail x =
      change
        (queue_run_progress config r answer x.run.id (progress_of stage kind state title detail))

  -- A phase that starts.
  abbrev phase : Answer → RuntimeSessionEventKind → String → String → Exec → Shared → Shared
  phase answer kind = report answer RunProgressStage.phase kind RuntimeSessionEventState.started

  -- After the wait for the Runtime.
  abbrev after_run : RunnerResult → Exec → Stage
  after_run result x =
      if config.mandate_flow_enabled && client
      then if is_mandate_flow_proof_prompt x.run.prompt then verifying result else closing result
      else completing result

  abbrev incomplete : List String → Error
  incomplete missing =
      incomplete_proof
        (String.◌++◌ "MandateFlow proof is incomplete; missing gateway evidence: " (joined missing))

  abbrev verified : Answer → RunnerResult → Stage
  verified answer result =
      let validation = validate_mandate_flow_proof answer.evidence in
      if validation.complete then closing result else caught (incomplete validation.missing)

  abbrev unconfirmed : Error
  unconfirmed =
      security_finalization
        "Codex finished, but MandateFlow could not confirm capability invalidation"

  abbrev attempt_of : Bool → FinishStatus
  attempt_of cancelled = if cancelled then FinishStatus.cancelled else FinishStatus.failed

  -- The beginning of `catch`, up to the first wait after the report.
  abbrev next_of_catch : Bool → String → ℕ → Exec → Stage
  next_of_catch cancelled message now x =
      if x.mandate_prepared && not x.mandate_terminal && not x.finalization_pending
      then terminating finish_attempts cancelled message now
      else failing cancelled message now

  catch : Error → Answer → Exec → Shared → Exec × Shared
  catch error answer x s =
      let cancelled = is_run_cancelled error || cancel_requested x s in
      let message = r.redact_runtime_text (message_of error) (config.groq_api_key ∷ []) in
      (
        to (next_of_catch cancelled message answer.now x) x,
        if is_incomplete_proof error
            then report answer RunProgressStage.error RuntimeSessionEventKind.error
                RuntimeSessionEventState.failed "Proof evidence incomplete" message x s
            else s,
      )

  -- The `finally` block.
  abbrev leave : Exec → Shared → Shared
  leave x s = record s {
    cancellation_requests = filter (λ id. not (id == x.run.id)) s.cancellation_requests;
  }

  dispatch : Stage → Answer → Exec → Shared → Exec × Shared
  unfolding catch
  dispatch beginning answer x s =
      if cancel_requested x s then (to (caught run_cancelled) x, s) else (
        to homing x,
        phase answer RuntimeSessionEventKind.status "Preparing secure Run"
            "MandateFlow is checking the grant and preparing the Agent workspace." x s,
      )
  dispatch homing answer x s =
      if answer.resolved
      then (to (if config.mandate_flow_enabled then authorizing else starting) x, s)
      else (to (caught answer.failure) x, s)
  dispatch authorizing answer x s =
      if client
      then (
        to preparing x,
        phase answer RuntimeSessionEventKind.mcp "Authorizing protected tools"
            "The control plane is issuing a Run-scoped capability before the Runtime starts." x s,
      )
      else (to (caught (http 503 "MandateFlow is unavailable")) x, s)
  dispatch preparing answer x s =
      if answer.resolved
      then (
        record (call prepares answer x) { mandate_prepared = true; stage = recording answer.grant },
        s,
      )
      else (to (caught answer.failure) (call prepares answer x), s)
  dispatch (recording grant) answer x s = write answer (record_grant x.run grant) activating x s
  dispatch activating answer x s =
      if answer.resolved
      then (to starting (call activates answer x), s)
      else (to (caught answer.failure) (call activates answer x), s)
  dispatch starting answer x s =
      write answer (mark_running config.mandate_flow_enabled x.run.id answer.now) announcing x s
  dispatch announcing answer x s = (
    to launching x,
    phase answer RuntimeSessionEventKind.status "Runtime started"
        "The Agent Runtime is ready to work in the selected workspace." x s,
  )
  dispatch launching answer x s =
      if cancel_requested x s then (to (caught run_cancelled) x, s) else (to running x, s)
  dispatch running answer x s =
      if answer.resolved
      then if cancel_requested x s
        then (to (caught run_cancelled) (call launches answer x), s)
        else (to (after_run answer.outcome x) (call launches answer x), s)
      else (to (caught answer.failure) (call launches answer x), s)
  dispatch (verifying result) answer x s =
      if answer.resolved
      then (to (verified answer result) (call asks_evidence answer x), s)
      else (to (caught answer.failure) (call asks_evidence answer x), s)
  dispatch (closing result) answer x s = (
    to (marking result) x,
    phase answer RuntimeSessionEventKind.status "Finalizing secure Run"
        "The control plane is closing the capability and saving the decision evidence." x s,
  )
  dispatch (marking result) answer x s =
      write answer (mark_finalizing x.run.id) (finishing finish_attempts result) x s
  dispatch (finishing zero result) answer x s =
      (to (caught unconfirmed) (record x { finalization_pending = true }), s)
  dispatch (finishing (suc n) result) answer x s =
      if answer.resolved
      then (
        record (call (finishes FinishStatus.completed) answer x) {
          mandate_terminal = true;
          stage = completing result;
        },
        s,
      )
      else (to (finishing n result) (call (finishes FinishStatus.completed) answer x), s)
  dispatch (completing result) answer x s =
      if answer.persisted
      then (
        to settled x,
        leave x (change (complete_run config r answer result x.run.id x.agent.id) s),
      )
      else (to (caught persist_error) x, s)
  dispatch (caught error) answer x s = catch error answer x s
  dispatch (terminating zero cancelled message completed_at) answer x s = (
    record x {
      finalization_pending = true;
      stage =
          failing cancelled (String.◌++◌ message "; capability invalidation is pending")
            completed_at;
    },
    s,
  )
  dispatch (terminating (suc n) cancelled message completed_at) answer x s =
      if answer.resolved
      then (
        record (call (finishes (attempt_of cancelled)) answer x) {
          mandate_terminal = true;
          stage = failing cancelled message completed_at;
        },
        s,
      )
      else (
        to (terminating n cancelled message completed_at)
            (call (finishes (attempt_of cancelled)) answer x),
        s,
      )
  dispatch (failing cancelled message completed_at) answer x s = (
    to settled x,
    leave x (
        if answer.persisted
        then change
            (fail_run config r answer cancelled x.finalization_pending message completed_at x.run.id
              x.agent.id)
            s
        else s),
  )
  dispatch settled answer x s = (to settled x, s)

  unfoldable pub advance : Answer → Exec → Shared → Exec × Shared
  unfolding dispatch
  advance answer x s = dispatch x.stage answer x s
