-- ===== src/Http/Secured.antt =====
-- config.ts and app.ts together: a server that has started.
use mandate_flow.Base.{
  ◌≤◌, ◌≡◌, refl, ◌⊎◌, String, true, false, ◌==◌, is_empty, length_units, arith,
}
use mandate_flow.Model.{Result, ok}
use mandate_flow.Json.{Json}
use mandate_flow.Config.Guards.{Environment, Tokens, load_tokens, needs_token, load_tokens_strong}
use mandate_flow.Http.{Call, HttpRequest, Site, is_api, respond, unauthenticated}
use mandate_flow.Http.Access.{Authenticated, respond-Authenticated}

long_not_empty : (s : String) → 24 ≤ length_units s → is_empty s ≡ false
unfolding length_units
long_not_empty String.[] h = ground arith
long_not_empty (String.◌∷◌ c s) h = refl

-- A server that is in production on no loopback host, or has MandateFlow enabled, and whose settings
-- have loaded, refuses every request whose URL starts with /api/, but that of the health and that of
-- the access question, unless its header is "Bearer " and the token: it answers 401 and changes
-- nothing.
pub secured-Authenticated :
    (State : Type 0) (perform : Call → State → State × Result Json) (environment : Environment)
    (tokens : Tokens) (site : Site) (request : HttpRequest) (s : State)
    → load_tokens environment ≡ ok tokens
    → needs_token environment ≡ true
    → site.auth_token ≡ tokens.auth_token
    → is_api request.url ≡ true
    → (request.url == "/api/health") ≡ false
    → (request.url == "/api/auth") ≡ false
    → Authenticated site request ⊎ (respond State perform site request s ≡ (s, unauthenticated))
secured-Authenticated State perform environment tokens site request s loaded needs same api health
      auth =
    let strong = load_tokens_strong environment tokens loaded needs in
    let full : is_empty site.auth_token ≡ false =
      rw same (long_not_empty tokens.auth_token strong.0) in
    respond-Authenticated State perform site request s full api health auth
