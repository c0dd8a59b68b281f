-- ===== src/Base/Positions.antt =====
-- `findIndex` and the least position at which a test holds. An index of -1 is `none`.
use Prim.Native.Nat.{ℕ, zero, suc, ◌≤◌}
use mathlib.Core.Path.{◌≡◌, refl, sym, subst}
use mathlib.Core.Bool.{Bool, true}
use mathlib.Core.Logic.{inl, inr}
use mathlib.Core.Option
use mathlib.Core.Option.{Option, none, some}
use mathlib.Core.List.{List, [], ◌∷◌}
use native.Mathlib.Omega.{arith}
use mandate_flow.Base.Tests.{if◌then◌else◌, Bool-cases}

map-suc-eq-some :
    (o : Option ℕ) {i : ℕ} → Option.map suc o ≡ some i → (j : ℕ) × (i ≡ suc j) × (o ≡ some j)
map-suc-eq-some none e = cc
map-suc-eq-some (some j) e = (j, cc, refl)

module _ {ℓ} {A : Type ℓ} where
  abbrev pub get_elem? : List A → ℕ → Option A
  get_elem? [] i = none
  get_elem? (x ∷ xs) zero = some x
  get_elem? (x ∷ xs) (suc i) = get_elem? xs i

  -- `findIndex((element, index) => test)`
  unfoldable pub find_index : (ℕ → A → Bool) → List A → Option ℕ
  find_index test [] = none
  find_index test (x ∷ xs) =
      let later = Option.map suc (find_index (λ i. test (suc i)) xs) in
      if test 0 x then some 0 else later

  -- The element at a position, and that it passes the test.
  pub record Hit (test : A → Bool) (xs : List A) (i : ℕ) : Type ℓ where
    pub element : A
    pub there : get_elem? xs i ≡ some element
    pub passes : test element ≡ true

  pub find_index_sound :
      (test : ℕ → A → Bool) (xs : List A) (i : ℕ) → find_index test xs ≡ some i → Hit (test i) xs i
  unfolding find_index
  find_index_sound test [] i e = cc
  find_index_sound test (x ∷ xs) i e = elim (Bool-cases (test 0 x)) [
    | inl hit ↦
        let first : zero ≡ i = ground arith in
        subst (λ k. Hit (test k) (x ∷ xs) k) first
          (record { element = x; there = refl; passes = hit })
    | inr miss ↦
        let (j, same, found) = map-suc-eq-some (find_index (λ k. test (suc k)) xs) (rw miss at e) in
        let h = find_index_sound (λ k. test (suc k)) xs j found in
        subst (λ k. Hit (test k) (x ∷ xs) k) (sym same)
          (record { element = h.element; there = h.there; passes = h.passes })
  ]

  -- Where some position passes, the search finds one that is no later.
  pub find_index_least :
      (test : ℕ → A → Bool) (xs : List A) (j : ℕ) {x : A}
      → get_elem? xs j ≡ some x
      → test j x ≡ true
      → (i : ℕ) × (find_index test xs ≡ some i) × (i ≤ j)
  unfolding find_index
  find_index_least test [] j e h = cc
  find_index_least test (y ∷ xs) zero e h =
      let here : test 0 y ≡ true = ground arith in (0, rw here, omega arith)
  find_index_least test (y ∷ xs) (suc j) e h =
      let (i, found, le) = find_index_least (λ k. test (suc k)) xs j e h in
      elim (Bool-cases (test 0 y)) [
        | inl hit ↦ (0, rw hit, omega arith)
        | inr miss ↦ (suc i, rw (miss, found), omega arith)
      ]
