-- ===== src/Service/Execution/Termination.antt =====
-- Every execution ends.
use mandate_flow.Base.{ℕ, zero, suc, ◌+◌, ◌-◌, ◌≤◌, ◌≡◌, refl, Bool, List, [], ◌∷◌, length, arith}
use mandate_flow.Model.{Agent, AgentRun}
use mandate_flow.Config.{AppConfig}
use mandate_flow.Session.{Redaction}
use mandate_flow.Service.Store.{Answer}
use mandate_flow.Service.Execution.{
  Stage, beginning, homing, authorizing, preparing, recording, activating, starting, announcing,
  launching, running, verifying, closing, marking, finishing, completing, caught, terminating,
  failing, settled, Exec, Shared, dispatch, start, advance,
}
use mandate_flow.Service.Execution.Steps.{steps}

-- The waits that may be ahead of a stage.
pub remaining : Stage → ℕ
remaining beginning = 38
remaining homing = 37
remaining authorizing = 36
remaining preparing = 35
remaining (recording grant) = 34
remaining activating = 33
remaining starting = 32
remaining announcing = 31
remaining launching = 30
remaining running = 29
remaining (verifying result) = 28
remaining (closing result) = 27
remaining (marking result) = 26
remaining (finishing n result) = 20 + n
remaining (completing result) = 15
remaining (caught error) = 10
remaining (terminating n cancelled message completed_at) = 4 + n
remaining (failing cancelled message completed_at) = 1
remaining settled = 0

module _ (config : AppConfig) (client : Bool) (r : Redaction) where
  dispatch-falls :
      (stage : Stage) (answer : Answer) (x : Exec) (s : Shared)
      → remaining (dispatch config client r stage answer x s).0.stage ≤ remaining stage - 1
  unfolding remaining dispatch
  dispatch-falls beginning answer x s = ground arith
  dispatch-falls homing answer x s = ground arith
  dispatch-falls authorizing answer x s = ground arith
  dispatch-falls preparing answer x s = ground arith
  dispatch-falls (recording grant) answer x s = ground arith
  dispatch-falls activating answer x s = ground arith
  dispatch-falls starting answer x s = ground arith
  dispatch-falls announcing answer x s = ground arith
  dispatch-falls launching answer x s = ground arith
  dispatch-falls running answer x s = ground arith
  dispatch-falls (verifying result) answer x s = ground arith
  dispatch-falls (closing result) answer x s = ground arith
  dispatch-falls (marking result) answer x s = ground arith
  dispatch-falls (finishing zero result) answer x s = ground arith
  dispatch-falls (finishing (suc n) result) answer x s = ground arith
  dispatch-falls (completing result) answer x s = ground arith
  dispatch-falls (caught error) answer x s = ground arith
  dispatch-falls (terminating zero cancelled message completed_at) answer x s = ground arith
  dispatch-falls (terminating (suc n) cancelled message completed_at) answer x s = ground arith
  dispatch-falls (failing cancelled message completed_at) answer x s = ground arith
  dispatch-falls settled answer x s = omega arith

  steps-remaining :
      (events : List (Answer × Shared)) (x : Exec)
      → remaining (steps config client r events x).stage ≤ remaining x.stage - length events
  unfolding steps advance
  steps-remaining [] x = omega arith
  steps-remaining ((answer, s) ∷ events) x = omega (
    arith,
    steps-remaining events (advance config client r answer x s).0,
    dispatch-falls x.stage answer x s,
  )

  remaining-settled : (stage : Stage) → remaining stage ≤ 0 → stage ≡ settled
  unfolding remaining
  remaining-settled settled h = refl
  remaining-settled beginning h = absurd (omega arith)
  remaining-settled homing h = absurd (omega arith)
  remaining-settled authorizing h = absurd (omega arith)
  remaining-settled preparing h = absurd (omega arith)
  remaining-settled (recording grant) h = absurd (omega arith)
  remaining-settled activating h = absurd (omega arith)
  remaining-settled starting h = absurd (omega arith)
  remaining-settled announcing h = absurd (omega arith)
  remaining-settled launching h = absurd (omega arith)
  remaining-settled running h = absurd (omega arith)
  remaining-settled (verifying result) h = absurd (omega arith)
  remaining-settled (closing result) h = absurd (omega arith)
  remaining-settled (marking result) h = absurd (omega arith)
  remaining-settled (finishing n result) h = absurd (omega arith)
  remaining-settled (completing result) h = absurd (omega arith)
  remaining-settled (caught error) h = absurd (omega arith)
  remaining-settled (terminating n cancelled message completed_at) h = absurd (omega arith)
  remaining-settled (failing cancelled message completed_at) h = absurd (omega arith)

  -- An execution has settled after at most 38 waits, whatever the control plane, the Runtime and the
  -- disk answer, and whatever the other handlers do to the data in between.
  pub steps-settled :
      (agent : Agent) (run : AgentRun) (events : List (Answer × Shared))
      → 38 ≤ length events
      → (steps config client r events (start agent run)).stage ≡ settled
  unfolding start
  steps-settled agent run events h =
      remaining-settled _ (omega (arith, steps-remaining events (start agent run), refl_remaining))
    where
      refl_remaining : remaining beginning ≡ 38
      refl_remaining = unfold remaining in refl
