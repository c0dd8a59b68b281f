-- ===== src/Tests/Handlers.antt =====
-- The handlers, the log, and the validation of a proof.
use mandate_flow.Base.{
  find_index, ◌≡◌, ◌↔◌, refl, ℕ, ◌≤◌, List, [], ◌∷◌, some, none, true, arith, Each2, length_units,
  suc, zero, ◌≤ℤ◌, get_elem?, ℤ, Bool, ◌&&◌, leb_ℤ, sym, find,
}
use mandate_flow.Model.{
  AgentRun, PolicyReceipt, err, ok, http, Database, security_finalization_pending, is_ok,
  RunnerProgressEvent, RunProgressStage, RuntimeSessionEventKind, RuntimeSessionEventState,
}
use mandate_flow.Web.{derive_proof_snapshot, complete}
use mandate_flow.Web.Agreement.{derive_proof_snapshot-complete, state_at}
use mandate_flow.Proof.{
  validate_mandate_flow_proof, baseline_path, denial_path, aggregate_index, recovery_path,
  counter_at, receipt_after,
}
use mandate_flow.Proof.Choreography.{Choreography, Rising}
use mandate_flow.Proof.Sound.{complete-Choreography}
use mandate_flow.Proof.Complete.{Choreography-complete}
use mandate_flow.Container.{container_name, all_name_codes, all_name_codes-container_name}
use mandate_flow.Service.Progress.{IsLog, add_run_progress, add_run_progress-IsLog}
use mandate_flow.Service.Store.{agent_is}
use mandate_flow.Service.Runs.{retry_allowed, admit, create_run, new_run, admitted}
use mandate_flow.Service.Admission.{Admissible, admit_iff, admit_twice}
use mandate_flow.Service.Admission.Creation.{Creation, create_run-Creation}
use mandate_flow.Service.Finalization.Settled.{Settled, reconcile-Settled}
use mandate_flow.Service.Finalization.{
  Attempt, OnlyReconciled, pending_runs, reconcile, reconcile-Reconciled,
}
use mandate_flow.Service.Revocation.Answered.{Answered}
use mandate_flow.Service.Startup.{Recovered, Adopted, recover, recover_lem}
use mandate_flow.Session.{create_runtime_session_event}
use mandate_flow.Session.Bounds.{create_runtime_session_event-bounds, Safe}
use mandate_flow.Service.Changes.{progress_of}
use mandate_flow.Tests.Data.{
  redaction, config, agent, run, answer, evidence, receipts, prompt, before, during,
}

validates : (validate_mandate_flow_proof evidence).complete ≡ true
unfolding validate_mandate_flow_proof baseline_path denial_path aggregate_index recovery_path
    counter_at find_index receipt_after
validates = refl

complete-Choreography_example : Choreography receipts
complete-Choreography_example = complete-Choreography evidence validates

choreography : Choreography receipts
choreography = complete-Choreography evidence validates

all_name_codes-container_name_example : all_name_codes (container_name "a/b" "x y") ≡ true
all_name_codes-container_name_example = all_name_codes-container_name "a/b" "x y"

-- Every element from here on has a counter that is no lower.
abbrev none_below : ℤ → List PolicyReceipt → Bool
none_below c [] = true
none_below c (r ∷ rs) = leb_ℤ c r.counter_after && none_below c rs

abbrev rises : List PolicyReceipt → Bool
rises [] = true
rises (r ∷ rs) = none_below r.counter_after rs && rises rs

none_below-≤ :
    (c : ℤ) (rs : List PolicyReceipt) (j : ℕ) (s : PolicyReceipt)
    → none_below c rs ≡ true
    → get_elem? rs j ≡ some s
    → c ≤ℤ s.counter_after
none_below-≤ c [] j s h e = cc
none_below-≤ c (r ∷ rs) zero s h e = let same : r ≡ s = ground arith in rw (sym same) (ground arith)
none_below-≤ c (r ∷ rs) (suc j) s h e = none_below-≤ c rs j s (ground arith) e

rises-Rising : (rs : List PolicyReceipt) → rises rs ≡ true → Rising rs
rises-Rising [] h i j r s lt e f _ _ = cc
rises-Rising (x ∷ xs) h i zero r s lt e f _ _ = absurd (omega arith)
rises-Rising (x ∷ xs) h zero (suc j) r s lt e f _ _ =
    let same : x ≡ r = ground arith in
    let low : none_below x.counter_after xs ≡ true = ground arith in
    rw (sym same) (none_below-≤ x.counter_after xs j s low f)
rises-Rising (x ∷ xs) h (suc i) (suc j) r s lt e f d k =
    rises-Rising xs (ground arith) i j r s (omega arith) e f d k

Choreography-complete_example : (validate_mandate_flow_proof evidence).complete ≡ true
Choreography-complete_example =
    Choreography-complete evidence (rises-Rising receipts refl) choreography

abbrev attempt : AgentRun → Attempt
attempt _ = record { finished = true; evidence_status = none; persisted = true }

create_run-Creation_example :
    Creation config attempt
      (λ database. database)
      true
      (new_run answer "agent-1" prompt none)
      before
      before
      (create_run config answer attempt
        (λ database. database)
        "agent-1"
        prompt
        none
        true
        before
        before)
create_run-Creation_example =
    create_run-Creation config answer attempt (λ database. database) "agent-1" prompt none true
      before before

admit_iff_example :
    (is_ok (admit run none 2 before) ≡ true)
    ↔ Admissible run before (find (agent_is run.agent_id) before.agents)
admit_iff_example = admit_iff run none 2 before

admit_twice_example :
    admit run none 3 (admitted run none 2 before) ≡ err (http 409 "This Agent is already running")
unfolding admit retry_allowed new_run
admit_twice_example =
    admit_twice run run before (admitted run none 2 before) agent none none 2 3 refl refl

abbrev pending : Database
pending = record during {
  runs = record run { mandate_status = security_finalization_pending } ∷ [];
}

reconcile-Reconciled_example :
    OnlyReconciled attempt
      (pending_runs none pending)
      pending
      (reconcile true attempt none pending pending).0
reconcile-Reconciled_example = reconcile-Reconciled attempt true none pending pending

reconcile-Settled_example :
    ((reconcile true attempt none pending pending).1 ≡ ok tt)
    × Settled "run-1" (reconcile true attempt none pending pending).0.runs
unfolding new_run
reconcile-Settled_example = reconcile-Settled attempt none pending pending "run-1" refl refl

recover_lem_example :
    Each2 (Recovered config) during.runs (recover config 3 during).runs
    × Each2 Adopted during.agents (recover config 3 during).agents
recover_lem_example = recover_lem config 3 during

abbrev event : RunnerProgressEvent
event =
    progress_of RunProgressStage.tool RuntimeSessionEventKind.command
      RuntimeSessionEventState.started "Running a workspace command"
      "The Agent is running a command."

run-IsLog : IsLog run.progress
unfolding new_run
run-IsLog = record { rising = (omega arith, tt); bounded = omega arith }

add_run_progress-IsLog_example : IsLog (add_run_progress redaction "event-2" 3 run event).progress
add_run_progress-IsLog_example = add_run_progress-IsLog redaction "event-2" 3 run event run-IsLog

create_runtime_session_event-bounds_example :
    let e = create_runtime_session_event redaction "run-1" 2 "event-2" 3 event in
    (length_units e.title ≤ 161) × (length_units e.detail ≤ 501) × Safe e.safe_metadata
create_runtime_session_event-bounds_example =
    create_runtime_session_event-bounds redaction "run-1" 2 "event-2" 3 event

derive_proof_snapshot-complete_example :
    let rows = (derive_proof_snapshot (some evidence) (some run)).rows in
    (state_at 0 rows ≡ some complete) × (state_at 1 rows ≡ some complete)
derive_proof_snapshot-complete_example =
    derive_proof_snapshot-complete evidence (some run) validates
