-- ===== src/Base/Finding.antt =====
-- `find` after an assignment to a field of what it finds.
use mathlib.Core.Path.{◌≡◌, refl}
use mathlib.Core.Logic.{inl, inr}
use mathlib.Core.Bool.{Bool, true, false}
use mathlib.Core.Option
use mathlib.Core.Option.{Option, some, none}
use mathlib.Core.List.{List, [], ◌∷◌}
use native.Mathlib.Omega.{arith}
use mandate_flow.Base.Tests.{Bool-cases}
use mandate_flow.Base.Lists.{find, modify}

module _ {ℓ} {A : Type ℓ} where
  -- The same element is found, changed.
  pub find-modify :
      (p : A → Bool) (f : A → A) (xs : List A)
      → ((x : A) → p (f x) ≡ p x)
      → find p (modify p f xs) ≡ Option.map f (find p xs)
  find-modify p f [] same = refl
  find-modify p f (x ∷ xs) same = elim (Bool-cases (p x)) [
    | inl hit ↦ rw (hit, same x, hit)
    | inr miss ↦ rw (miss, miss, find-modify p f xs same)
  ]

  -- Another one is found as it was.
  pub find-modify_other :
      (p q : A → Bool) (f : A → A) (xs : List A)
      → ((x : A) → q x ≡ true → p x ≡ false)
      → ((x : A) → q (f x) ≡ q x)
      → find q (modify p f xs) ≡ find q xs
  find-modify_other p q f [] apart same = refl
  find-modify_other p q f (x ∷ xs) apart same =
      ground (arith, apart x, same x, find-modify_other p q f xs apart same)

  pub find_sound : (p : A → Bool) (xs : List A) (x : A) → find p xs ≡ some x → p x ≡ true
  find_sound p [] x e = cc
  find_sound p (y ∷ xs) x e = ground (arith, find_sound p xs x)
