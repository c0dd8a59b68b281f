-- ===== src/Service/Queries/Order.antt =====
-- agent-service.ts: the lists of an Agent are complete and in order.
use mathlib.Core.Path.{subst}
use mandate_flow.Base.{
  ℕ, suc, ◌≤◌, ◌≡◌, refl, inl, inr, String, Bool, true, false, ◌==◌, List, [], ◌∷◌, filter, leb,
  sort_latest, Bool-cases, arith, if◌then◌else◌,
}
use mandate_flow.Model.{AgentRun, Message, Database, ok, ok_inj, >>=-eq-ok}
use mandate_flow.Service.Store.{get_agent}
use mandate_flow.Service.Queries.{sort_earliest, list_agents, get_messages, get_runs}

abbrev pub count_at : Bool → ℕ → ℕ
count_at true n = suc n
count_at false n = n

count_at_swap : (a b : Bool) (n : ℕ) → count_at a (count_at b n) ≡ count_at b (count_at a n)
count_at_swap true true n = refl
count_at_swap true false n = refl
count_at_swap false true n = refl
count_at_swap false false n = refl

module _ {ℓ} {A : Type ℓ} where
  -- How many elements pass a test.
  abbrev pub count : (A → Bool) → List A → ℕ
  count p [] = 0
  count p (x ∷ xs) = count_at (p x) (count p xs)

  -- Each element is related to the one that follows it.
  abbrev pub Chained : (A → A → Type 0) → List A → Type 0
  Chained R [] = Unit
  Chained R (x ∷ []) = Unit
  Chained R (x ∷ y ∷ xs) = R x y × Chained R (y ∷ xs)

module _ {ℓ} {A : Type ℓ} (le : A → A → Bool) where
  abbrev insert_by : A → List A → List A
  insert_by a [] = a ∷ []
  insert_by a (x ∷ xs) = if le a x then a ∷ x ∷ xs else x ∷ insert_by a xs

  abbrev sort_by : List A → List A
  sort_by [] = []
  sort_by (x ∷ xs) = insert_by x (sort_by xs)

  abbrev InOrder : A → A → Type 0
  InOrder a b = le a b ≡ true

  count-insert_by :
      (p : A → Bool) (a : A) (xs : List A) → count p (insert_by a xs) ≡ count p (a ∷ xs)
  count-insert_by p a [] = refl
  count-insert_by p a (x ∷ xs) = elim (Bool-cases (le a x)) [
    | inl first ↦ rw first refl
    | inr later ↦ rw (later, count-insert_by p a xs) (count_at_swap (p x) (p a) (count p xs))
  ]

  count-sort_by : (p : A → Bool) (xs : List A) → count p (sort_by xs) ≡ count p xs
  count-sort_by p [] = refl
  count-sort_by p (x ∷ xs) = rw (count-insert_by p x (sort_by xs), count-sort_by p xs) refl

  module _ (total : (a b : A) → le a b ≡ false → le b a ≡ true) where
    Chained-under :
        (x a : A) (xs : List A)
        → InOrder x a
        → Chained InOrder (x ∷ xs)
        → Chained InOrder (x ∷ insert_by a xs)
    Chained-under x a [] le_xa h = (le_xa, tt)
    Chained-under x a (y ∷ ys) le_xa (le_xy, h) = elim (Bool-cases (le a y)) [
      | inl first ↦ rw first (le_xa, (first, h))
      | inr later ↦ rw later (le_xy, Chained-under y a ys (total a y later) h)
    ]

    Chained-insert_by :
        (a : A) (xs : List A) → Chained InOrder xs → Chained InOrder (insert_by a xs)
    Chained-insert_by a [] h = tt
    Chained-insert_by a (x ∷ xs) h = elim (Bool-cases (le a x)) [
      | inl first ↦ rw first (first, h)
      | inr later ↦ rw later (Chained-under x a xs (total a x later) h)
    ]

    Chained-sort_by : (xs : List A) → Chained InOrder (sort_by xs)
    Chained-sort_by [] = tt
    Chained-sort_by (x ∷ xs) = Chained-insert_by x (sort_by xs) (Chained-sort_by xs)

module _ {ℓ} {A : Type ℓ} (key : A → ℕ) where
  abbrev later_first : A → A → Bool
  later_first a b = leb (key b) (key a)

  abbrev earlier_first : A → A → Bool
  earlier_first a b = leb (key a) (key b)

  -- The whole of a list, by what passes each test, with no key below the next one's.
  pub record Latest (xs sorted : List A) : Type ℓ where
    pub falls : Chained (λ a b. key b ≤ key a) sorted
    pub whole : (p : A → Bool) → count p sorted ≡ count p xs

  pub record Earliest (xs sorted : List A) : Type ℓ where
    pub rises : Chained (λ a b. key a ≤ key b) sorted
    pub whole : (p : A → Bool) → count p sorted ≡ count p xs

Chained-mono {ℓ} :
    {A : Type ℓ} (R S : A → A → Type 0) (xs : List A)
    → ((a b : A) → R a b → S a b)
    → Chained R xs
    → Chained S xs
Chained-mono R S [] k h = tt
Chained-mono R S (x ∷ []) k h = tt
Chained-mono R S (x ∷ y ∷ xs) k (first, h) = (k x y first, Chained-mono R S (y ∷ xs) k h)

leb-total : (m n : ℕ) → leb m n ≡ false → leb n m ≡ true
leb-total m n h = ground arith

leb-le : (m n : ℕ) → leb m n ≡ true → m ≤ n
leb-le m n h = ground arith

sort_latest-Latest {ℓ} :
    {A : Type ℓ} (key : A → ℕ) (xs : List A) → Latest key xs (sort_latest key xs)
sort_latest-Latest key xs = record {
  falls =
      Chained-mono (InOrder (later_first key)) _ (sort_latest key xs)
        (λ a b. leb-le (key b) (key a))
        (Chained-sort_by (later_first key) (λ a b. leb-total (key b) (key a)) xs);
  whole = λ p. count-sort_by (later_first key) p xs;
}

sort_earliest-Earliest {ℓ} :
    {A : Type ℓ} (key : A → ℕ) (xs : List A) → Earliest key xs (sort_earliest key xs)
sort_earliest-Earliest key xs = record {
  rises =
      Chained-mono (InOrder (earlier_first key)) _ (sort_earliest key xs)
        (λ a b. leb-le (key a) (key b))
        (Chained-sort_by (earlier_first key) (λ a b. leb-total (key a) (key b)) xs);
  whole = λ p. count-sort_by (earlier_first key) p xs;
}

-- The list of the Agents is the whole of them, the latest change first; where they are given, the
-- messages of an Agent are the whole of its messages, the earliest first, and its Runs the whole of
-- its Runs, the latest first.
pub lists_lem :
    (agent_id : String) (snapshot : Database) (messages : List Message) (runs : List AgentRun)
    → get_messages agent_id snapshot ≡ ok messages
    → get_runs agent_id snapshot ≡ ok runs
    → Latest (λ agent. agent.updated_at) snapshot.agents (list_agents snapshot)
      × Earliest
          (λ message. message.created_at)
          (filter (λ message. message.agent_id == agent_id) snapshot.messages)
          messages
      × Latest (λ run. run.created_at) (filter (λ run. run.agent_id == agent_id) snapshot.runs) runs
unfolding get_messages get_runs list_agents
lists_lem agent_id snapshot messages runs m r =
    let (_, (_, said)) =
      >>=-eq-ok (get_agent agent_id snapshot)
        (λ _. ok (
          sort_earliest (λ message. message.created_at)
            (filter (λ message. message.agent_id == agent_id) snapshot.messages)))
        m in
    let (_, (_, ran)) =
      >>=-eq-ok (get_agent agent_id snapshot)
        (λ _. ok (
          sort_latest (λ run. run.created_at)
            (filter (λ run. run.agent_id == agent_id) snapshot.runs)))
        r in
    (
      sort_latest-Latest _ snapshot.agents,
      subst (Earliest _ _) (ok_inj said) (sort_earliest-Earliest _ _),
      subst (Latest _ _) (ok_inj ran) (sort_latest-Latest _ _),
    )
