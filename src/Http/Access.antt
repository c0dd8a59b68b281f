-- ===== src/Http/Access.antt =====
-- app.ts: who gets past the access test, and what a request does then.
use mathlib.Core.Path.{subst}
use mandate_flow.Base.{
  ℕ, ◌≡◌, refl, sym, inl, inr, ◌⊎◌, String, true, false, ◌==◌, eq_iff, Option, none, some, is_empty,
  Bool-cases,
}
use mandate_flow.Model.{Result}
use mandate_flow.Json.{Json}
use mandate_flow.Http.Bodies.{checked, invalid}
use mandate_flow.Http.{
  Call, HttpRequest, Site, Route, is_api, is_admitted, candidate, is_bearer, drop_text, route,
  respond, unauthenticated, run_call, take_route, result_reply,
}

-- The header of a request that carries the token.
pub record Authenticated (site : Site) (request : HttpRequest) : Type 0 where
  pub header : String
  pub sent : request.authorization ≡ some header
  pub is_bearer_header : is_bearer header ≡ true
  pub carries : drop_text 7 header ≡ site.auth_token

empty-text : {A : Type 0} (token : String) → is_empty token ≡ false → ("" == token) ≡ true → A
empty-text token full e =
    let same : "" ≡ token = (eq_iff "" token).0 e in
    let no : is_empty "" ≡ false = subst (λ t. is_empty t ≡ false) (sym same) full in cc

candidate-header :
    (sent : Option String) (token : String)
    → is_empty token ≡ false
    → (candidate sent == token) ≡ true
    → (header : String) × ((sent ≡ some header)
        × ((is_bearer header ≡ true) × (drop_text 7 header ≡ token)))
candidate-header none token full e = empty-text token full e
candidate-header (some header) token full e = elim (Bool-cases (is_bearer header)) [
  | inl bearer ↦ (header, (refl, (bearer, (eq_iff (drop_text 7 header) token).0 (rw bearer at e))))
  | inr other ↦ empty-text token full (rw other at e)
]

is_admitted-Authenticated :
    (site : Site) (request : HttpRequest)
    → is_empty site.auth_token ≡ false
    → is_api request.url ≡ true
    → (request.url == "/api/health") ≡ false
    → (request.url == "/api/auth") ≡ false
    → is_admitted site request ≡ true
    → Authenticated site request
unfolding is_admitted
is_admitted-Authenticated site request full api not_health not_auth admitted =
    let valid : (candidate request.authorization == site.auth_token) ≡ true =
      (rw (full, api, not_health, not_auth) at admitted) in
    let (header, (sent, (bearer, carries))) =
      candidate-header request.authorization site.auth_token full valid in
    record { header = header; sent = sent; is_bearer_header = bearer; carries = carries }

module _ (State : Type 0) (perform : Call → State → State × Result Json) where
  -- Where the server has a token, a request whose URL starts with /api/ and is not that of the health
  -- or of the access question changes nothing and is answered with the status 401, unless its header
  -- is "Bearer " and the token.
  pub respond-Authenticated :
      (site : Site) (request : HttpRequest) (s : State)
      → is_empty site.auth_token ≡ false
      → is_api request.url ≡ true
      → (request.url == "/api/health") ≡ false
      → (request.url == "/api/auth") ≡ false
      → Authenticated site request ⊎ (respond State perform site request s ≡ (s, unauthenticated))
  unfolding respond
  respond-Authenticated site request s full api not_health not_auth =
      elim (Bool-cases (is_admitted site request)) [
        | inl admitted ↦
            inl (is_admitted-Authenticated site request full api not_health not_auth admitted)
        | inr refused ↦ inr (rw refused refl)
      ]

  -- The call of a request, what it does, and what is answered.
  pub record Performed (site : Site) (request : HttpRequest) (s : State) : Type 0 where
    pub status : ℕ
    pub call : Call
    pub admitted : is_admitted site request ≡ true
    pub taken :
        route site.is_uuid request.method request.segments request.body
        ≡ some (checked (status, call))
    pub body_read : request.refused_body ≡ none
    pub done :
        respond State perform site request s
        ≡ ((perform call s).0, result_reply status (perform call s).1)

  take_route-cases :
      (site : Site) (request : HttpRequest) (s : State) (refused : Option (ℕ × String))
      (taken : Route)
      → request.refused_body ≡ refused
      → ((take_route State perform site request taken s).0 ≡ s)
        ⊎ ((status : ℕ) × ((call : Call) × ((taken ≡ some (checked (status, call)))
                × ((refused ≡ none)
                    × (take_route State perform site request taken s
                        ≡ ((perform call s).0, result_reply status (perform call s).1))))))
  unfolding run_call
  take_route-cases site request s refused none e = inl refl
  take_route-cases site request s (some refusal) (some call) e = inl (rw e refl)
  take_route-cases site request s none (some invalid) e = inl (rw e refl)
  take_route-cases site request s none (some (checked (status, call))) e =
      inr (status, (call, (refl, (refl, rw e refl))))

  -- A request either changes nothing, or it was let in, has a route and a body that Fastify could
  -- read, and its identifiers and its body have passed the schemas: then it makes the one call of
  -- its route, and is answered with that route's status or with the call's error.
  pub respond-Performed :
      (site : Site) (request : HttpRequest) (s : State)
      → ((respond State perform site request s).0 ≡ s) ⊎ Performed site request s
  unfolding respond
  respond-Performed site request s = elim (Bool-cases (is_admitted site request)) [
    | inr refused ↦ inl (rw refused refl)
    | inl admitted ↦
        elim (take_route-cases site request s request.refused_body
          (route site.is_uuid request.method request.segments request.body) refl) [
            | inl same ↦ inl (rw admitted same)
            | inr (status, (call, (taken, (read, done)))) ↦ inr (record {
              status = status;
              call = call;
              admitted = admitted;
              taken = taken;
              body_read = read;
              done = rw admitted done;
            })
          ]
  ]
