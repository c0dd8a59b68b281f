-- ===== src/Base/Each.antt =====
-- Two lists that agree element by element, up to a relation.
use mathlib.Core.Path.{◌≡◌}
use mathlib.Core.Bool.{Bool, true}
use mathlib.Core.Logic.{inl, inr}
use mathlib.Core.List.{List, [], ◌∷◌, map}
use mandate_flow.Base.Tests.{Bool-cases}
use mandate_flow.Base.Lists.{modify}

module _ {ℓ} {A : Type ℓ} (R : A → A → Type 0) where
  abbrev pub Each2 : List A → List A → Type 0
  Each2 [] [] = Unit
  Each2 (x ∷ xs) (y ∷ ys) = R x y × Each2 xs ys
  Each2 [] (y ∷ ys) = ⊥
  Each2 (x ∷ xs) [] = ⊥

  pub Each2-map : (f : A → A) → ((x : A) → R x (f x)) → (xs : List A) → Each2 xs (map f xs)
  Each2-map f h [] = tt
  Each2-map f h (x ∷ xs) = (h x, Each2-map f h xs)

  pub Each2-refl : ((x : A) → R x x) → (xs : List A) → Each2 xs xs
  Each2-refl h [] = tt
  Each2-refl h (x ∷ xs) = (h x, Each2-refl h xs)

  -- An assignment to what `find(p)` finds touches that element alone.
  pub Each2-modify :
      (p : A → Bool) (f : A → A)
      → ((x : A) → R x x)
      → ((x : A) → p x ≡ true → R x (f x))
      → (xs : List A) → Each2 xs (modify p f xs)
  Each2-modify p f same changed [] = tt
  Each2-modify p f same changed (x ∷ xs) = elim (Bool-cases (p x)) [
    | inl hit ↦ rw hit (changed x hit, Each2-refl same xs)
    | inr miss ↦ rw miss (same x, Each2-modify p f same changed xs)
  ]

  pub Each2-trans :
      ((x y z : A) → R x y → R y z → R x z)
      → (xs ys zs : List A) → Each2 xs ys
      → Each2 ys zs
      → Each2 xs zs
  Each2-trans t [] [] [] h k = tt
  Each2-trans t (x ∷ xs) (y ∷ ys) (z ∷ zs) (h, hs) (k, ks) =
      (t x y z h k, Each2-trans t xs ys zs hs ks)
  Each2-trans t [] (y ∷ ys) zs h k = absurd h
  Each2-trans t (x ∷ xs) [] zs h k = absurd h
  Each2-trans t (x ∷ xs) (y ∷ ys) [] h k = absurd k
  Each2-trans t [] [] (z ∷ zs) h k = absurd k

module _ {ℓ} {A : Type ℓ} (R S : A → A → Type 0) where
  pub Each2-mono : ((x y : A) → R x y → S x y) → (xs ys : List A) → Each2 R xs ys → Each2 S xs ys
  Each2-mono h [] [] e = tt
  Each2-mono h (x ∷ xs) (y ∷ ys) (a, e) = (h x y a, Each2-mono h xs ys e)
  Each2-mono h [] (y ∷ ys) e = absurd e
  Each2-mono h (x ∷ xs) [] e = absurd e
