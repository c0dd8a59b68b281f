-- ===== src/Fixture/Ends.antt =====
-- What holds outside when a step returns, one rule for each way to build a step.
use mathlib.Core.Path.{subst}
use mandate_flow.Base.{◌≡◌, refl, Bool, true, false, ap}
use mandate_flow.Model.{Error, Result, ok, err}
use mandate_flow.Fixture.{Outside, World, Step, pure, lift, ensure, go_on, ◌>>=◌}

pub record Ends {ℓ} (O : Outside) {A : Type ℓ} (P : O.State → Type ℓ) (step : Step O A)
    (Q : A → O.State → Type ℓ) : Type ℓ where
  pub at : (w : World O) (a : A) (w' : World O) → P w.outside → step w ≡ (w', ok a) → Q a w'.outside

module _ {ℓ} (O : Outside) {A B : Type ℓ} where
  pub go_on-ok :
      (f : A → Step O B) (here : World O × Result A) (b : B) (w' : World O)
      → go_on f here ≡ (w', ok b)
      → (a : A) × ((w : World O) × ((here ≡ (w, ok a)) × (f a w ≡ (w', ok b))))
  go_on-ok f (w, ok a) b w' h = (a, (w, (refl, h)))
  go_on-ok f (w, err e) b w' h = cc

  pub Ends-bind :
      {P : O.State → Type ℓ} {step : Step O A} {Q : A → O.State → Type ℓ} {f : A → Step O B}
      {R : B → O.State → Type ℓ}
      → Ends O P step Q
      → ((a : A) → Ends O (Q a) (f a) R)
      → Ends O P (step >>= f) R
  unfolding ◌>>=◌
  Ends-bind {step = step} {f = f} first rest = record {
    at = λ w b w' h e.
        let (a, (v, (here, there))) = go_on-ok f (step w) b w' e in
        (rest a).at v b w' (first.at w a v h here) there;
  }

module _ {ℓ} (O : Outside) {A : Type ℓ} where
  pub Ends-mono :
      {P : O.State → Type ℓ} {step : Step O A} {Q R : A → O.State → Type ℓ}
      → Ends O P step Q
      → ((a : A) (s : O.State) → Q a s → R a s)
      → Ends O P step R
  Ends-mono ends weaker = record { at = λ w a w' h e. weaker a w'.outside (ends.at w a w' h e) }

  returned :
      (Q : A → O.State → Type ℓ) (w : World O) (r : Result A) (a : A) (w' : World O)
      → lift {O = O} r w ≡ (w', ok a)
      → Q a w.outside
      → Q a w'.outside
  returned Q w r a w' e h = subst (λ v. Q a v.outside) (ap (λ x. x.0) e) h

  pub Ends-pure : (P : O.State → Type ℓ) (a : A) → Ends O P (pure a) (λ _. P)
  Ends-pure P a = record { at = λ w b w' h e. returned (λ _. P) w (ok a) b w' e h }

  pub Ends-lift :
      (P : O.State → Type ℓ) (r : Result A) → Ends O P (lift r) (λ a s. (r ≡ ok a) × P s)
  Ends-lift P r = record {
    at = λ w a w' h e. returned (λ b s. (r ≡ ok b) × P s) w r a w' e (ap (λ x. x.1) e, h);
  }

module _ (O : Outside) where
  pub Ends-ensure :
      (P : O.State → Type 0) (b : Bool) (e : Error)
      → Ends O P (ensure b e) (λ _ s. (b ≡ true) × P s)
  Ends-ensure P true e = record {
    at = λ w a w' h r. returned O (λ _ s. (true ≡ true) × P s) w (ok tt) a w' r (refl, h);
  }
  Ends-ensure P false e = record { at = λ w a w' h r. cc }
