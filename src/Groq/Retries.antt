-- ===== src/Groq/Retries.antt =====
-- groq-responses.ts, `fetchUpstreamWithRateLimitRetry`: a request that Groq refuses with 429 is
-- repeated after the time that it names.
use mandate_flow.Base.{
  ℕ, zero, suc, ◌+◌, ◌-◌, ◌*◌, ◌≤◌, ◌≡◌, refl, ◌⊎◌, inl, inr, min, max, Bool, true, false, not,
  ◌||◌, Option, none, some, ℤ, pos, negsuc, leb, eqb, if◌then◌else◌, arith, Bool-cases,
}
use mandate_flow.Model.{Result, ok, err}

abbrev pub max_rate_limit_retries : ℕ
max_rate_limit_retries = 3

abbrev pub max_retry_delay_ms : ℕ
max_retry_delay_ms = 120000

-- `retry_after` is the delay that the header names, in milliseconds and rounded up, where there is
-- one and it is finite.
pub record Response : Type 0 where
  pub status : ℕ
  pub retry_after : Option ℤ

-- `delay + 250` where that is not below 0.
abbrev later : ℤ → ℕ
later (pos n) = n + 250
later (negsuc n) = 250 - suc n

unfoldable pub retry_delay_ms : Response → Option ℕ
retry_delay_ms response = elim response.retry_after [
  | none ↦ none
  | some delay ↦ some (min (max (later delay) 250) max_retry_delay_ms)
]

-- How the loop ends: what `fetch` gave last, how often it was called, and how long it was waited for.
pub record Outcome : Type 0 where
  pub response : Result Response
  pub requests : ℕ
  pub waited : ℕ

abbrev ended : Result Response → Outcome
ended response = record { response = response; requests = 1; waited = 0 }

abbrev repeated : ℕ → Option Outcome → Option Outcome
repeated delay none = none
repeated delay (some o) =
    some (record { response = o.response; requests = suc o.requests; waited = delay + o.waited })

-- The test that returns the response.
abbrev stops : ℕ → ℕ → Bool
stops attempt status = not (eqb status 429) || leb max_rate_limit_retries attempt

-- What the loop does with a response: return it, or wait and go on.
abbrev body : ℕ → Response → Option ℕ → Option Outcome → Option Outcome
body attempt response none rest = some (ended (ok response))
body attempt response (some delay) rest =
    if stops attempt response.status then some (ended (ok response)) else repeated delay rest

-- `fetches attempt` is what the call of `fetch` gives; the first argument is fuel.
unfoldable pub fetch_upstream : ℕ → ℕ → (ℕ → Result Response) → Option Outcome
unfolding retry_delay_ms
fetch_upstream zero attempt fetches = none
fetch_upstream (suc fuel) attempt fetches =
    let rest = fetch_upstream fuel (suc attempt) fetches in
    elim (fetches attempt) [
      | err e ↦ some (ended (err e))
      | ok response ↦ body attempt response (retry_delay_ms response) rest
    ]

-- A response that is not worth another call.
abbrev pub is_final : Result Response → Bool
is_final (err e) = true
is_final (ok response) = elim response.retry_after [
  | none ↦ true
  | some delay ↦ not (eqb response.status 429)
]

-- The loop has ended within its fuel.
pub record Ended (fuel : ℕ) (o : Outcome) : Type 0 where
  pub requests_bound : o.requests ≤ fuel
  pub waited_bound : o.waited ≤ (fuel - 1) * 120000
  pub reason : (o.requests ≡ fuel) ⊎ (is_final o.response ≡ true)

abbrev EndsWithin : ℕ → Option Outcome → Type 0
EndsWithin fuel none = ⊥
EndsWithin fuel (some o) = Ended fuel o

repeated-Ended :
    (fuel delay : ℕ) (rest : Option Outcome)
    → delay ≤ 120000
    → EndsWithin (suc fuel) rest
    → EndsWithin (suc (suc fuel)) (repeated delay rest)
repeated-Ended fuel delay none h e = e
repeated-Ended fuel delay (some o) h e = record {
  requests_bound = omega (arith, e.requests_bound);
  waited_bound = omega (arith, e.waited_bound);
  reason = ground (arith, e.reason);
}

ended-Ended :
    (fuel : ℕ) (response : Result Response)
    → is_final response ≡ true
    → Ended (suc fuel) (ended response)
ended-Ended fuel response h = record {
  requests_bound = omega arith;
  waited_bound = omega arith;
  reason = inr h;
}

module _ (attempt : ℕ) (rest : Option Outcome) where
  -- `left` calls may follow the one at hand.
  by_delay :
      (response : Response) (named : Option ℤ) (left : ℕ)
      → response.retry_after ≡ named
      → attempt + left ≡ 3
      → ((k : ℕ) → left ≡ suc k → EndsWithin left rest)
      → EndsWithin (suc left) (body attempt response (retry_delay_ms response) rest)
  unfolding retry_delay_ms
  by_delay response none left e h next =
      let none_named : retry_delay_ms response ≡ none = rw (e, retry_delay_ms) refl in
      let final : is_final (ok response) ≡ true = rw e refl in
      rw none_named (ended-Ended left (ok response) final)
  by_delay response (some d) left e h next =
      let delay : retry_delay_ms response ≡ some (min (max (later d) 250) max_retry_delay_ms) =
        rw (e, retry_delay_ms) refl in
      rw delay (waits left h next (Bool-cases (stops attempt response.status)))
    where
      waits :
          (left : ℕ)
          → attempt + left ≡ 3
          → ((k : ℕ) → left ≡ suc k → EndsWithin left rest)
          → (stops attempt response.status ≡ true) ⊎ (stops attempt response.status ≡ false)
          → EndsWithin (suc left) (
              if stops attempt response.status
              then some (ended (ok response))
              else repeated (min (max (later d) 250) max_retry_delay_ms) rest)
      waits zero h next (inl stop) =
          rw stop
            (record { requests_bound = omega arith; waited_bound = omega arith; reason = inl refl })
      waits zero h next (inr go) = absurd (ground (arith, go, h))
      waits (suc left) h next (inl stop) =
          let final : is_final (ok response) ≡ true = rw e (ground (arith, stop, h)) in
          rw stop (ended-Ended (suc left) (ok response) final)
      waits (suc left) h next (inr go) =
          rw go (repeated-Ended left _ rest (omega arith) (next left refl))

  by_response :
      (given : Result Response) (left : ℕ)
      → attempt + left ≡ 3
      → ((k : ℕ) → left ≡ suc k → EndsWithin left rest)
      → EndsWithin (suc left) (elim given [
        | err e ↦ some (ended (err e))
        | ok response ↦ body attempt response (retry_delay_ms response) rest
      ])
  by_response (err e) left h next = ended-Ended left (err e) refl
  by_response (ok response) left h next = by_delay response response.retry_after left refl h next

fetch_upstream-Ended :
    (left attempt : ℕ) (fetches : ℕ → Result Response)
    → attempt + left ≡ 3
    → EndsWithin (suc left) (fetch_upstream (suc left) attempt fetches)
unfolding fetch_upstream
fetch_upstream-Ended zero attempt fetches h =
    by_response attempt none (fetches attempt) zero h (λ k e. absurd (omega (arith, e)))
fetch_upstream-Ended (suc left) attempt fetches h =
    by_response attempt (fetch_upstream (suc left) (suc attempt) fetches) (fetches attempt)
      (suc left) h (λ k e. fetch_upstream-Ended left (suc attempt) fetches (omega (arith, h)))

-- With fuel for four calls the loop ends: after at most four calls of `fetch` and six minutes of
-- waiting, with a response that is not worth another call or after the fourth call.
pub fetch_upstream_lem :
    (fetches : ℕ → Result Response)
    → (o : Outcome) × (fetch_upstream 4 0 fetches ≡ some o) × Ended 4 o
fetch_upstream_lem fetches =
    outcome_of (fetch_upstream 4 0 fetches) refl (fetch_upstream-Ended 3 0 fetches refl)
  where
    outcome_of :
        (result : Option Outcome)
        → fetch_upstream 4 0 fetches ≡ result
        → EndsWithin 4 result
        → (o : Outcome) × (fetch_upstream 4 0 fetches ≡ some o) × Ended 4 o
    outcome_of none e h = absurd h
    outcome_of (some o) e h = (o, e, h)
