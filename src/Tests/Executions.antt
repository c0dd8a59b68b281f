-- ===== src/Tests/Executions.antt =====
-- An execution that goes through.
use mathlib.Core.Path.{subst}
use mandate_flow.Base.{◌≡◌, ◌≢◌, refl, ◌≤◌, ◌⊎◌, List, true, any, arith, find}
use mandate_flow.Service.Store.{Answer, agent_is, run_is}
use mandate_flow.Service.Runs.{new_run}
use mandate_flow.Proof.{is_mandate_flow_proof_prompt}
use mandate_flow.Service.Execution.{Stage, Shared, Exec, start, advance, settled}
use mandate_flow.Service.Execution.Steps.{steps}
use mandate_flow.Service.Execution.Termination.{steps-settled}
use mandate_flow.Service.Execution.Authority.{
  launch-Authorized, Authorized, launch_count, is_finish,
}
use mandate_flow.Service.Execution.Duty.{no_forgotten_grant}
use mandate_flow.Service.Execution.Ending.{last_step_ends, EndedRun, FreeAgent}
use mandate_flow.Tests.Data.{redaction, config, agent, run, answer, shared, repeat}

abbrev events : List (Answer × Shared)
events = repeat 38 (answer, shared)

abbrev whole : Exec
whole = steps config true redaction events (start agent run)

-- The place of the last mutation.
abbrev last : Exec
last = steps config true redaction (repeat 13 (answer, shared)) (start agent run)

steps-settled_example : whole.stage ≡ settled
steps-settled_example = steps-settled config true redaction agent run events (omega arith)

launch-Authorized_example : Authorized true whole.calls × (launch_count whole.calls ≤ 1)
launch-Authorized_example = launch-Authorized config true redaction agent run events

no_forgotten_grant_example :
    (any is_finish whole.calls ≡ true) ⊎ (whole.finalization_pending ≡ true)
unfolding steps advance start new_run is_mandate_flow_proof_prompt
no_forgotten_grant_example = no_forgotten_grant config true redaction agent run events refl refl

abbrev Open : Stage → Type 0
Open settled = ⊥
Open _ = Unit

open_stage : last.stage ≢ settled
unfolding steps advance start new_run is_mandate_flow_proof_prompt
open_stage h = subst Open h tt

last_step_ends_example :
    EndedRun last.finalization_pending
      (find (run_is last.run.id) (advance config true redaction answer last shared).1.database.runs)
    × FreeAgent (
        find
          (agent_is last.agent.id)
          (advance config true redaction answer last shared).1.database.agents)
unfolding steps advance start new_run is_mandate_flow_proof_prompt
last_step_ends_example =
    last_step_ends config true redaction agent run (repeat 13 (answer, shared)) answer shared last
      run agent refl open_stage refl refl refl refl
