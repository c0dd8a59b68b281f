-- ===== src/Service/Revocation/Answered.antt =====
-- agent-service.ts: what `revokeMandate` answers with, and what it leaves on each of its ways out.
use mandate_flow.Base.{
  ℕ, ◌≤◌, ◌≡◌, refl, ◌⊎◌, inl, inr, String, Bool, true, false, Option, none, some, List, [], ◌∷◌,
  filter, find, latest, sort_latest, insert_latest, leb, All, All-filter, arith, Bool-cases,
}
use mandate_flow.Model.{Agent, AgentRun, Database, Result, ok, err, ◌>>=◌}
use mandate_flow.Service.Store.{agent_is, no_agent}
use mandate_flow.Service.Revocation.{Revocation, of_context, created}

module _ {A : Type 0} (key : A → ℕ) where
  -- What stands first in a sorted list is no earlier than each element.
  abbrev Tops : List A → List A → Type 0
  Tops xs [] = xs ≡ []
  Tops xs (x ∷ _) = All (λ y. key y ≤ key x) xs

  All-le : (k l : ℕ) (xs : List A) → k ≤ l → All (λ y. key y ≤ k) xs → All (λ y. key y ≤ l) xs
  All-le k l [] le h = tt
  All-le k l (x ∷ xs) le (first, h) = (omega arith, All-le k l xs le h)

  sort_latest-Tops : (xs : List A) → Tops xs (sort_latest key xs)
  sort_latest-Tops [] = refl
  sort_latest-Tops (x ∷ xs) = by_cases (sort_latest key xs) (sort_latest-Tops xs)
    where
      by_cases : (sorted : List A) → Tops xs sorted → Tops (x ∷ xs) (insert_latest key x sorted)
      by_cases [] h = rw h (omega arith, tt)
      by_cases (y ∷ ys) h = elim (Bool-cases (leb (key y) (key x))) [
        | inl below ↦ rw below (omega arith, All-le (key y) (key x) xs (ground arith) h)
        | inr above ↦ rw above (ground arith, h)
      ]

  sort_latest-All : (P : A → Type 0) (xs : List A) → All P xs → All P (sort_latest key xs)
  sort_latest-All P [] h = tt
  sort_latest-All P (x ∷ xs) (first, h) = All-insert (sort_latest key xs) (sort_latest-All P xs h)
    where
      All-insert : (ys : List A) → All P ys → All P (insert_latest key x ys)
      All-insert [] k = (first, tt)
      All-insert (y ∷ ys) (here, k) =
          let later = All-insert ys k in
          elim (Bool-cases (leb (key y) (key x))) [
            | inl below ↦ rw below (first, (here, k))
            | inr above ↦ rw above (here, later)
          ]

  All-holds : (p : A → Bool) (xs : List A) → All (λ y. p y ≡ true) (filter p xs)
  All-holds p [] = tt
  All-holds p (x ∷ xs) = elim (Bool-cases (p x)) [
    | inl hit ↦ rw hit (hit, All-holds p xs)
    | inr miss ↦ rw miss (All-holds p xs)
  ]

  All-unfiltered :
      (p : A → Bool) (k : ℕ) (xs : List A)
      → All (λ y. key y ≤ k) (filter p xs)
      → All (λ y. p y ≡ true → key y ≤ k) xs
  All-unfiltered p k [] h = tt
  All-unfiltered p k (x ∷ xs) h = elim (Bool-cases (p x)) [
    | inl hit ↦ let (first, rest) = (rw hit at h) in ((λ _. first), All-unfiltered p k xs rest)
    | inr miss ↦ ((λ e. cc), All-unfiltered p k xs (rw miss at h))
  ]

  All-missed : (p : A → Bool) (xs : List A) → filter p xs ≡ [] → All (λ y. p y ≡ false) xs
  All-missed p [] e = tt
  All-missed p (x ∷ xs) e = elim (Bool-cases (p x)) [
    | inl hit ↦ cc (rw hit at e)
    | inr miss ↦ (miss, All-missed p xs (rw miss at e))
  ]

  -- The element that passes a test and is no earlier than any other that does; none, if none does.
  abbrev pub IsNewest : (A → Bool) → List A → Option A → Type 0
  IsNewest p xs none = All (λ y. p y ≡ false) xs
  IsNewest p xs (some x) =
      (p x ≡ true)
      × All (λ y. p y ≡ true → key y ≤ key x) xs
      × ((q : A → Bool) → All (λ y. q y ≡ true) xs → q x ≡ true)

  pub latest-IsNewest : (p : A → Bool) (xs : List A) → IsNewest p xs (latest key (filter p xs))
  unfolding latest
  latest-IsNewest p xs =
      by_cases (sort_latest key (filter p xs)) (sort_latest-Tops (filter p xs))
        (λ P. sort_latest-All P (filter p xs))
    where
      by_cases :
          (sorted : List A)
          → Tops (filter p xs) sorted
          → ((P : A → Type 0) → All P (filter p xs) → All P sorted)
          → IsNewest p xs (elim sorted [ [] ↦ none | x ∷ _ ↦ some x ])
      by_cases [] top each = All-missed p xs top
      by_cases (x ∷ _) top each = (
        (each (λ y. p y ≡ true) (All-holds p xs)).0,
        All-unfiltered p (key x) xs top,
        λ q h. (each (λ y. q y ≡ true) (All-filter (λ y. q y ≡ true) p xs h)).0,
      )

-- What a revocation leaves. It fails because the Agent is gone once the revocation is written, or the
-- data is as it was. It succeeds with the stored Agent, and with the latest Run of that Agent with the
-- policy context of the mandate, if there is one.
abbrev pub Answered :
    List String → String → Database → Database × Result (Agent × Option AgentRun) → Type 0
Answered affected context before (after, err e) =
    (after ≡ before)
    ⊎ (Revocation affected before after
        × (e ≡ no_agent)
        × (id : String) × (find (agent_is id) after.agents ≡ none))
Answered affected context before (after, ok (agent, run)) =
    Revocation affected before after
    × (find (agent_is agent.id) after.agents ≡ some agent)
    × IsNewest created (of_context agent.id context) after.runs run
