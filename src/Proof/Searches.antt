-- ===== src/Proof/Searches.antt =====
-- `receipt_after` finds the least position beyond its start, and three of them a chain.
use mandate_flow.Base.{
  ℕ, ◌<◌, ◌≤◌, ◌≡◌, refl, Bool, true, false, ◌&&◌, ◌||◌, Option, none, some, List, Hit,
  find_index_sound, find_index_least, arith,
}
use mandate_flow.Model.{PolicyReceipt}
use mandate_flow.Proof.{receipt_after, beyond, path_after, broken, absent}
use mandate_flow.Proof.Choreography.{Beyond, Chain}

pub beyond-Beyond : (start : Option ℕ) (i : ℕ) → beyond start i ≡ true → Beyond start i
beyond-Beyond none i h = tt
beyond-Beyond (some s) i h = ground arith

pub Beyond-beyond : (start : Option ℕ) (i : ℕ) → Beyond start i → beyond start i ≡ true
Beyond-beyond none i h = refl
Beyond-beyond (some s) i h = ground arith

and-true_left : (a b : Bool) → (a && b) ≡ true → a ≡ true
and-true_left true b h = refl
and-true_left false b h = h

and-true_right : (a b : Bool) → (a && b) ≡ true → b ≡ true
and-true_right true b h = h
and-true_right false b h = cc

pub or-false : (a b : Bool) → (a || b) ≡ false → (a ≡ false) × (b ≡ false)
or-false true b h = cc
or-false false b h = (refl, h)

module _ (receipts : List PolicyReceipt) (start : Option ℕ) (p : PolicyReceipt → Bool) where
  pub receipt_after_sound :
      (i : ℕ) → receipt_after receipts start p ≡ some i → Beyond start i × Hit p receipts i
  unfolding receipt_after
  receipt_after_sound i e =
      let h = find_index_sound (λ k receipt. beyond start k && p receipt) receipts i e in
      (
        beyond-Beyond start i (and-true_left _ _ h.passes),
        record {
          element = h.element;
          there = h.there;
          passes = and-true_right (beyond start i) _ h.passes;
        },
      )

  pub receipt_after_least :
      (j : ℕ)
      → Beyond start j
      → Hit p receipts j
      → (i : ℕ) × (receipt_after receipts start p ≡ some i) × (i ≤ j)
  unfolding receipt_after
  receipt_after_least j b h =
      find_index_least (λ k receipt. beyond start k && p receipt) receipts j h.there
        (ground (arith, Beyond-beyond start j b, h.passes))

pub present : (o : Option ℕ) → absent o ≡ false → (i : ℕ) × (o ≡ some i)
present none h = cc
present (some i) h = (i, refl)

module _ (receipts : List PolicyReceipt) (start : Option ℕ) (p q r : PolicyReceipt → Bool) where
  Chain-cases :
      (first second third : Option ℕ)
      → receipt_after receipts start p ≡ first
      → receipt_after receipts first q ≡ second
      → receipt_after receipts second r ≡ third
      → broken (record { first = first; second = second; third = third }) ≡ false
      → (c : Chain receipts start p q r) × (third ≡ some c.third)
  Chain-cases (some i) (some j) (some k) ei ej ek h =
      let hi = receipt_after_sound receipts start p i ei in
      let hj = receipt_after_sound receipts (some i) q j ej in
      let hk = receipt_after_sound receipts (some j) r k ek in
      (
        record {
          first = i;
          second = j;
          third = k;
          begins = hi.0;
          then_second = hj.0;
          then_third = hk.0;
          first_hit = hi.1;
          second_hit = hj.1;
          third_hit = hk.1;
        },
        refl,
      )
  Chain-cases none second third ei ej ek h = cc
  Chain-cases (some i) none third ei ej ek h = cc
  Chain-cases (some i) (some j) none ei ej ek h = cc

  -- A path with no gap is a chain, and it ends where the chain ends.
  pub path_after_sound :
      broken (path_after receipts start p q r) ≡ false
      → (c : Chain receipts start p q r) × ((path_after receipts start p q r).third ≡ some c.third)
  unfolding path_after
  path_after_sound h = Chain-cases _ _ _ refl refl refl h

  -- Where there is a chain, the path has no gap and ends no later.
  pub path_after_least :
      (c : Chain receipts start p q r)
      → (broken (path_after receipts start p q r) ≡ false)
        × ((k : ℕ) × ((path_after receipts start p q r).third ≡ some k) × (k ≤ c.third))
  unfolding path_after
  path_after_least c =
      let (i, ei, li) = receipt_after_least receipts start p c.first c.begins c.first_hit in
      let before : i < c.second = omega arith in
      let (j, ej, lj) = receipt_after_least receipts (some i) q c.second before c.second_hit in
      let before' : j < c.third = omega arith in
      let (k, ek, lk) = receipt_after_least receipts (some j) r c.third before' c.third_hit in
      (rw (ei, ej, ek), (k, rw (ei, ej, ek), lk))
