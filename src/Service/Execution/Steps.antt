-- ===== src/Service/Execution/Steps.antt =====
-- Executions from their start, through any answers and any data.
use mandate_flow.Base.{Bool, List, [], ◌∷◌}
use mandate_flow.Config.{AppConfig}
use mandate_flow.Session.{Redaction}
use mandate_flow.Service.Store.{Answer}
use mandate_flow.Service.Execution.{Exec, Shared, advance}

-- Each element is the answer that ends a wait, with what the service shares at that time: the other
-- handlers may have changed it in any way since the last step.
module _ (config : AppConfig) (client : Bool) (r : Redaction) where
  unfoldable pub steps : List (Answer × Shared) → Exec → Exec
  steps [] x = x
  steps ((answer, s) ∷ rest) x = steps rest (advance config client r answer x s).0

  -- What every step keeps holds after any number of them.
  pub steps_keep {ℓ} :
      (P : Exec → Type ℓ)
      → ((answer : Answer) (x : Exec) (s : Shared) → P x → P (advance config client r answer x s).0)
      → (events : List (Answer × Shared)) (x : Exec) → P x
      → P (steps events x)
  unfolding steps
  steps_keep P keep [] x h = h
  steps_keep P keep ((answer, s) ∷ rest) x h =
      steps_keep P keep rest (advance config client r answer x s).0 (keep answer x s h)
