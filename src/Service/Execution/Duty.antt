-- ===== src/Service/Execution/Duty.antt =====
-- What an execution owes to the control plane for the grant that it has been given.
use mathlib.Core.Path.{subst}
use mandate_flow.Base.{zero, suc, ◌≡◌, refl, ◌⊎◌, Bool, true, false, ◌&&◌, ◌||◌, List, any, arith}
use mandate_flow.Model.{Agent, AgentRun}
use mandate_flow.Config.{AppConfig}
use mandate_flow.Session.{Redaction}
use mandate_flow.Service.Store.{Answer}
use mandate_flow.Service.Execution.{
  Stage, beginning, homing, authorizing, preparing, recording, activating, starting, announcing,
  launching, running, verifying, closing, marking, finishing, completing, caught, terminating,
  failing, settled, Exec, Shared, dispatch, start, advance,
}
use mandate_flow.Service.Execution.Authority.{is_prepare, is_finish}
use mandate_flow.Service.Execution.Steps.{steps, steps_keep}

abbrev AnsweredFor : Exec → Type 0
AnsweredFor x = x.mandate_prepared ≡ true → (x.mandate_terminal || x.finalization_pending) ≡ true

abbrev Due : Bool → Bool → Stage → Exec → Type 0
Due enabled client beginning x = x.mandate_prepared ≡ false
Due enabled client homing x = x.mandate_prepared ≡ false
Due enabled client authorizing x = (x.mandate_prepared ≡ false) × (enabled ≡ true)
Due enabled client preparing x = (x.mandate_prepared ≡ false) × ((enabled && client) ≡ true)
Due enabled client (completing result) x = x.mandate_prepared ≡ true → x.mandate_terminal ≡ true
Due enabled client (failing cancelled message completed_at) x = AnsweredFor x
Due enabled client settled x = AnsweredFor x
Due enabled client _ x = Unit

record IsDutiful (enabled client : Bool) (x : Exec) : Type 0 where
  recorded : any is_prepare x.calls ≡ x.mandate_prepared
  needed : x.mandate_prepared ≡ true → (enabled && client) ≡ true
  confirmed : x.mandate_terminal ≡ true → any is_finish x.calls ≡ true
  due : Due enabled client x.stage x

module _ (config : AppConfig) (client : Bool) (r : Redaction) where
  dispatch-IsDutiful :
      (stage : Stage) (answer : Answer) (x : Exec) (s : Shared)
      → any is_prepare x.calls ≡ x.mandate_prepared
      → (x.mandate_prepared ≡ true → (config.mandate_flow_enabled && client) ≡ true)
      → (x.mandate_terminal ≡ true → any is_finish x.calls ≡ true)
      → Due config.mandate_flow_enabled client stage x
      → IsDutiful config.mandate_flow_enabled client (dispatch config client r stage answer x s).0
  unfolding dispatch
  dispatch-IsDutiful beginning answer x s p q t d = ground arith
  dispatch-IsDutiful homing answer x s p q t d = ground arith
  dispatch-IsDutiful authorizing answer x s p q t d = ground arith
  dispatch-IsDutiful preparing answer x s p q t d = ground arith
  dispatch-IsDutiful (recording grant) answer x s p q t d = ground arith
  dispatch-IsDutiful activating answer x s p q t d = ground arith
  dispatch-IsDutiful starting answer x s p q t d = ground arith
  dispatch-IsDutiful announcing answer x s p q t d = ground arith
  dispatch-IsDutiful launching answer x s p q t d = ground arith
  dispatch-IsDutiful running answer x s p q t d = ground arith
  dispatch-IsDutiful (verifying result) answer x s p q t d = ground arith
  dispatch-IsDutiful (closing result) answer x s p q t d = ground arith
  dispatch-IsDutiful (marking result) answer x s p q t d = ground arith
  dispatch-IsDutiful (finishing zero result) answer x s p q t d = ground arith
  dispatch-IsDutiful (finishing (suc n) result) answer x s p q t d = ground arith
  dispatch-IsDutiful (completing result) answer x s p q t d = ground arith
  dispatch-IsDutiful (caught error) answer x s p q t d = ground arith
  dispatch-IsDutiful (terminating zero cancelled message completed_at) answer x s p q t d =
      ground arith
  dispatch-IsDutiful (terminating (suc n) cancelled message completed_at) answer x s p q t d =
      ground arith
  dispatch-IsDutiful (failing cancelled message completed_at) answer x s p q t d = ground arith
  dispatch-IsDutiful settled answer x s p q t d = ground arith

  advance-IsDutiful :
      (answer : Answer) (x : Exec) (s : Shared)
      → IsDutiful config.mandate_flow_enabled client x
      → IsDutiful config.mandate_flow_enabled client (advance config client r answer x s).0
  unfolding advance
  advance-IsDutiful answer x s h =
      dispatch-IsDutiful x.stage answer x s h.recorded h.needed h.confirmed h.due

  at_settled :
      (enabled : Bool) (stage : Stage) (x : Exec)
      → stage ≡ settled
      → Due enabled client stage x
      → AnsweredFor x
  at_settled enabled stage x e d = subst (λ s. Due enabled client s x) e d

  settled-answered :
      (x : Exec)
      → IsDutiful config.mandate_flow_enabled client x
      → x.stage ≡ settled
      → any is_prepare x.calls ≡ true
      → (any is_finish x.calls ≡ true) ⊎ (x.finalization_pending ≡ true)
  settled-answered x h e p =
      ground
        (arith, at_settled config.mandate_flow_enabled x.stage x e h.due, h.recorded, h.confirmed)

  -- Through any answers and any data: once an execution has settled, a grant that was prepared for
  -- it has been finished at the control plane, or the execution has flagged its finalization as
  -- pending.
  pub no_forgotten_grant :
      (agent : Agent) (run : AgentRun) (events : List (Answer × Shared))
      → (steps config client r events (start agent run)).stage ≡ settled
      → any is_prepare (steps config client r events (start agent run)).calls ≡ true
      → (any is_finish (steps config client r events (start agent run)).calls ≡ true)
        ⊎ ((steps config client r events (start agent run)).finalization_pending ≡ true)
  unfolding start
  no_forgotten_grant agent run events =
      settled-answered (steps config client r events (start agent run)) (
        steps_keep config client r (IsDutiful config.mandate_flow_enabled client) advance-IsDutiful
          events (start agent run)
          (record { recorded = refl; needed = λ h. cc; confirmed = λ h. cc; due = refl }))
