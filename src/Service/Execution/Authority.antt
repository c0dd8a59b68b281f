-- ===== src/Service/Execution/Authority.antt =====
-- What an execution is allowed to do before the Runtime starts.
use mandate_flow.Base.{
  not, ◌||◌, ℕ, zero, suc, ◌≡◌, refl, Bool, true, false, ◌&&◌, List, [], ◌∷◌, any, arith, ◌≤◌,
}
use mandate_flow.Model.{Agent, AgentRun}
use mandate_flow.Config.{AppConfig}
use mandate_flow.Session.{Redaction}
use mandate_flow.Service.Store.{Answer}
use mandate_flow.Service.Execution.{
  Stage, beginning, homing, authorizing, preparing, recording, activating, starting, announcing,
  launching, running, verifying, closing, marking, finishing, completing, caught, terminating,
  failing, settled, Exec, Shared, Call, prepares, activates, launches, asks_evidence, finishes,
  dispatch, start, advance,
}
use mandate_flow.Service.Execution.Steps.{steps, steps_keep}

abbrev pub is_prepare : Call × Bool → Bool
is_prepare (prepares, resolved) = resolved
is_prepare _ = false

abbrev pub is_activation : Call × Bool → Bool
is_activation (activates, resolved) = resolved
is_activation _ = false

abbrev pub is_finish : Call × Bool → Bool
is_finish (finishes status, resolved) = resolved
is_finish _ = false

-- The control plane has prepared and activated a grant.
abbrev pub granted : List (Call × Bool) → Bool
granted calls = any is_prepare calls && any is_activation calls

abbrev pub launch_count : List (Call × Bool) → ℕ
launch_count [] = 0
launch_count ((launches, resolved) ∷ calls) = suc (launch_count calls)
launch_count (_ ∷ calls) = launch_count calls

-- Every start of the Runtime comes after a grant, where MandateFlow is on.
abbrev pub Authorized : Bool → List (Call × Bool) → Type 0
Authorized enabled [] = Unit
Authorized enabled ((launches, resolved) ∷ calls) =
    ((not enabled || granted calls) ≡ true) × Authorized enabled calls
Authorized enabled ((prepares, _) ∷ calls) = Authorized enabled calls
Authorized enabled ((activates, _) ∷ calls) = Authorized enabled calls
Authorized enabled ((asks_evidence, _) ∷ calls) = Authorized enabled calls
Authorized enabled ((finishes _, _) ∷ calls) = Authorized enabled calls

-- What holds at the stages before the Runtime has been started.
abbrev Ahead : Bool → Stage → List (Call × Bool) → Type 0
Ahead enabled beginning calls = launch_count calls ≡ 0
Ahead enabled homing calls = launch_count calls ≡ 0
Ahead enabled authorizing calls = launch_count calls ≡ 0
Ahead enabled preparing calls = launch_count calls ≡ 0
Ahead enabled (recording grant) calls = (launch_count calls ≡ 0) × (any is_prepare calls ≡ true)
Ahead enabled activating calls = (launch_count calls ≡ 0) × (any is_prepare calls ≡ true)
Ahead enabled starting calls = (launch_count calls ≡ 0) × ((not enabled || granted calls) ≡ true)
Ahead enabled announcing calls = (launch_count calls ≡ 0) × ((not enabled || granted calls) ≡ true)
Ahead enabled launching calls = (launch_count calls ≡ 0) × ((not enabled || granted calls) ≡ true)
Ahead enabled running calls = (launch_count calls ≡ 0) × ((not enabled || granted calls) ≡ true)
Ahead enabled _ calls = Unit

record IsLawful (enabled : Bool) (x : Exec) : Type 0 where
  authorized : Authorized enabled x.calls
  once : launch_count x.calls ≤ 1
  ahead : Ahead enabled x.stage x.calls

module _ (config : AppConfig) (client : Bool) (r : Redaction) where
  dispatch-IsLawful :
      (stage : Stage) (answer : Answer) (x : Exec) (s : Shared)
      → Authorized config.mandate_flow_enabled x.calls
      → launch_count x.calls ≤ 1
      → Ahead config.mandate_flow_enabled stage x.calls
      → IsLawful config.mandate_flow_enabled (dispatch config client r stage answer x s).0
  unfolding dispatch
  dispatch-IsLawful beginning answer x s a o h = ground arith
  dispatch-IsLawful homing answer x s a o h = ground arith
  dispatch-IsLawful authorizing answer x s a o h = ground arith
  dispatch-IsLawful preparing answer x s a o h = ground arith
  dispatch-IsLawful (recording grant) answer x s a o h = ground arith
  dispatch-IsLawful activating answer x s a o h = ground arith
  dispatch-IsLawful starting answer x s a o h = ground arith
  dispatch-IsLawful announcing answer x s a o h = ground arith
  dispatch-IsLawful launching answer x s a o h = ground arith
  dispatch-IsLawful running answer x s a o h = ground arith
  dispatch-IsLawful (verifying result) answer x s a o h = ground arith
  dispatch-IsLawful (closing result) answer x s a o h = ground arith
  dispatch-IsLawful (marking result) answer x s a o h = ground arith
  dispatch-IsLawful (finishing zero result) answer x s a o h = ground arith
  dispatch-IsLawful (finishing (suc n) result) answer x s a o h = ground arith
  dispatch-IsLawful (completing result) answer x s a o h = ground arith
  dispatch-IsLawful (caught error) answer x s a o h = ground arith
  dispatch-IsLawful (terminating zero cancelled message completed_at) answer x s a o h =
      ground arith
  dispatch-IsLawful (terminating (suc n) cancelled message completed_at) answer x s a o h =
      ground arith
  dispatch-IsLawful (failing cancelled message completed_at) answer x s a o h = ground arith
  dispatch-IsLawful settled answer x s a o h = record { authorized = a; once = o; ahead = h }

  advance-IsLawful :
      (answer : Answer) (x : Exec) (s : Shared)
      → IsLawful config.mandate_flow_enabled x
      → IsLawful config.mandate_flow_enabled (advance config client r answer x s).0
  unfolding advance
  advance-IsLawful answer x s h = dispatch-IsLawful x.stage answer x s h.authorized h.once h.ahead

  -- Through any answers and any data, an execution starts the Runtime at most once, and where
  -- MandateFlow is on only after the control plane has prepared and activated a grant for it.
  pub launch-Authorized :
      (agent : Agent) (run : AgentRun) (events : List (Answer × Shared))
      → let calls = (steps config client r events (start agent run)).calls in
        Authorized config.mandate_flow_enabled calls × (launch_count calls ≤ 1)
  unfolding start
  launch-Authorized agent run events =
      let h =
        steps_keep config client r (IsLawful config.mandate_flow_enabled) advance-IsLawful events
          (start agent run) (record { authorized = tt; once = omega arith; ahead = refl }) in
      (h.authorized, h.once)
