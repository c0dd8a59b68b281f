-- ===== src/Tests/Requests.antt =====
-- Requests to a server that counts its calls.
use mandate_flow.Base.{
  ℕ, suc, ◌≡◌, refl, ◌⊎◌, String, ◌==◌, true, false, Option, none, some, [], ◌∷◌, ◌≤◌, codes,
  has_prefix, length_units, trim,
}
use mandate_flow.Model.{Result, ok, err, other}
use mandate_flow.Json.{Json, null, text, object, bare, field}
use mandate_flow.Http.{
  Call, HttpRequest, Site, Reply, value, send_message, respond, route, unauthenticated,
}
use mandate_flow.Http.Access.{Authenticated, respond-Authenticated, Performed, respond-Performed}
use mandate_flow.Config.Guards.{Environment, Tokens, load_tokens, load_tokens_strong}
use mandate_flow.Http.Secured.{secured-Authenticated}
use mandate_flow.Http.Bounds.{Bounded, route-Bounded}

abbrev nothing : Reply
nothing = record { status = 404; payload = value null }

abbrev pub site : Site
site = record {
  auth_token = "a-token-of-24-characters";
  is_production = true;
  is_uuid = λ id. id == "id-1";
  unrouted = λ request. nothing;
  static_file = λ request. nothing;
}

abbrev body : Option Json
body = some (object (field "content" (text " Run the report ") bare))

abbrev request : Option String → HttpRequest
request authorization = record {
  method = "POST";
  url = "/api/agents/id-1/messages";
  segments = "agents" ∷ "id-1" ∷ "messages" ∷ [];
  authorization = authorization;
  body = body;
  refused_body = none;
}

abbrev count : Call → ℕ → ℕ × Result Json
count call n = (suc n, ok null)

respond-Authenticated_example :
    Authenticated site (request (some "Bearer guess"))
    ⊎ (respond ℕ count site (request (some "Bearer guess")) 0 ≡ (0, unauthenticated))
respond-Authenticated_example =
    respond-Authenticated ℕ count site (request (some "Bearer guess")) 0 refl refl refl refl

respond-Performed_example :
    ((respond ℕ count site (request (some "Bearer a-token-of-24-characters")) 0).0 ≡ 0)
    ⊎ Performed ℕ count site (request (some "Bearer a-token-of-24-characters")) 0
respond-Performed_example =
    respond-Performed ℕ count site (request (some "Bearer a-token-of-24-characters")) 0

-- The second request makes its call.
counted_here : (respond ℕ count site (request (some "Bearer a-token-of-24-characters")) 0).0 ≡ 1
unfolding respond
counted_here = refl

route-Bounded_example : Bounded site.is_uuid (send_message "id-1" "Run the report")
unfolding route
route-Bounded_example =
    route-Bounded site.is_uuid "POST" ("agents" ∷ "id-1" ∷ "messages" ∷ []) body 202
      (send_message "id-1" "Run the report") refl

abbrev environment : Environment
environment = record {
  is_production = true;
  host = "0.0.0.0";
  auth_token = some " a-token-of-24-characters ";
  is_enabled = false;
  control_token = none;
  control_hostname = err (other "not read");
}

abbrev tokens : Tokens
tokens = record { auth_token = "a-token-of-24-characters"; control_token = "" }

load_tokens_strong_example :
    (24 ≤ length_units tokens.auth_token)
    × (has_prefix (codes "replace-") (codes tokens.auth_token) ≡ false)
unfolding load_tokens trim
load_tokens_strong_example = load_tokens_strong environment tokens refl refl

secured-Authenticated_example :
    Authenticated site (request none)
    ⊎ (respond ℕ count site (request none) 0 ≡ (0, unauthenticated))
unfolding load_tokens trim
secured-Authenticated_example =
    secured-Authenticated ℕ count environment tokens site (request none) 0 refl refl refl refl refl
      refl
