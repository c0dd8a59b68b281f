-- ===== src/Web/Api/Paths.antt =====
-- api.ts: the URL of each request, as the router of the server divides it.
use Prim.Native.String
use package.text.Mathlib.TextLemmas.{append_assoc}
use mandate_flow.Base.{
  and_both, ℕ, ◌≡◌, refl, ap, ◌∙◌, String, Bool, true, ◌&&◌, ◌||◌, List, [], ◌∷◌, leb, length_units,
  codes, eqb, map, arith,
}
use mandate_flow.Json.{text}
use mandate_flow.Http.Bodies.{within}
use mandate_flow.Web.Api.{ApiCall, api}
use mandate_flow.Web.Api.Meant.{is_sendable}

-- `/` before each part
abbrev pub path : List String → String
path [] = ""
path (segment ∷ segments) = String.◌++◌ "/" (String.◌++◌ segment (path segments))

abbrev all_codes : (ℕ → Bool) → List ℕ → Bool
all_codes p [] = true
all_codes p (c ∷ s) = p c && all_codes p s

abbrev is_between : ℕ → ℕ → ℕ → Bool
is_between least most c = leb least c && leb c most

-- What `encodeURIComponent` keeps: letters, digits and `-_.!~*'()`.
abbrev pub is_kept : ℕ → Bool
is_kept c =
    is_between 0x41 0x5a c
    || is_between 0x61 0x7a c
    || is_between 0x30 0x39 c
    || eqb c 0x2d
    || eqb c 0x5f
    || eqb c 0x2e
    || eqb c 0x21
    || eqb c 0x7e
    || is_between 0x27 0x2a c

abbrev pub is_plain : String → Bool
is_plain s = all_codes is_kept (codes s)

-- A part that no URL parser drops or resolves, as with three units it is not empty, `.` or `..`, and
-- that the router takes: the server leaves Fastify's `maxParamLength` at its default, 100.
abbrev pub is_part : String → Bool
is_part s = leb 3 (length_units s) && leb (length_units s) 100

abbrev pub all_parts : List String → Bool
all_parts [] = true
all_parts (s ∷ segments) = is_part s && all_parts segments

-- `encodeURIComponent`, and the server's router: it gives back the parts that the path was made of, as
-- it divides the path at its slashes and decodes each part. A UUID has nothing to encode.
pub record Router (is_uuid : String → Bool) : Type 0 where
  pub segments_of : String → List String
  pub encode : String → String
  pub divides :
      (segments : List String)
      → all_parts segments ≡ true
      → segments_of (String.◌++◌ "/api" (path (map encode segments))) ≡ segments
  pub encodes_plain : (s : String) → is_plain s ≡ true → encode s ≡ s
  pub uuid_is_plain : (s : String) → is_uuid s ≡ true → is_plain s ≡ true
  pub uuid_is_part : (s : String) → is_uuid s ≡ true → is_part s ≡ true

-- The parts of the URL, as the browser writes them.
abbrev pub parts_of : (String → String) → ApiCall → List String
parts_of encode ApiCall.auth = "auth" ∷ []
parts_of encode ApiCall.system = "system" ∷ []
parts_of encode ApiCall.list_agents = "agents" ∷ []
parts_of encode (ApiCall.create_agent name description instructions owner) = "agents" ∷ []
parts_of encode (ApiCall.update_agent id name description instructions) = "agents" ∷ id ∷ []
parts_of encode (ApiCall.delete_agent id) = "agents" ∷ id ∷ []
parts_of encode (ApiCall.start_agent id) = "agents" ∷ id ∷ "start" ∷ []
parts_of encode (ApiCall.stop_agent id) = "agents" ∷ id ∷ "stop" ∷ []
parts_of encode (ApiCall.messages id) = "agents" ∷ id ∷ "messages" ∷ []
parts_of encode (ApiCall.runs id) = "agents" ∷ id ∷ "runs" ∷ []
parts_of encode (ApiCall.mandate id) = "agents" ∷ id ∷ "mandate" ∷ []
parts_of encode (ApiCall.send_message id content) = "agents" ∷ id ∷ "messages" ∷ []
parts_of encode (ApiCall.run id) = "runs" ∷ id ∷ []
parts_of encode (ApiCall.evidence id) = "runs" ∷ id ∷ "evidence" ∷ []
parts_of encode (ApiCall.retry_run id) = "runs" ∷ id ∷ "retry" ∷ []
parts_of encode (ApiCall.new_demo_workflow id) = "agents" ∷ id ∷ "new-demo-workflow" ∷ []
parts_of encode (ApiCall.revoke_mandate id) = "mandates" ∷ encode id ∷ "revoke" ∷ []

infixr 5 ◌<>◌
abbrev pub ◌<>◌ : String → String → String
a <> b = String.◌++◌ a b

slash_parts :
    (kind id rest : String)
    → ("/api" <> ("/" <> (kind <> "/"))) <> (id <> rest)
      ≡ "/api" <> ("/" <> (kind <> ("/" <> (id <> rest))))
slash_parts kind id rest =
    append_assoc "/api" ("/" <> (kind <> "/")) (id <> rest)
    ∙ ap (λ s. "/api" <> s)
        (append_assoc "/" (kind <> "/") (id <> rest)
          ∙ ap (λ s. "/" <> s) (append_assoc kind "/" (id <> rest)))

pub url-parts_of :
    (encode : String → String) (token : String) (call : ApiCall)
    → (api encode token call).url ≡ "/api" <> path (parts_of encode call)
unfolding api
url-parts_of encode token ApiCall.auth = refl
url-parts_of encode token ApiCall.system = refl
url-parts_of encode token ApiCall.list_agents = refl
url-parts_of encode token (ApiCall.create_agent name description instructions owner) = refl
url-parts_of encode token (ApiCall.update_agent id name description instructions) =
    slash_parts "agents" id ""
url-parts_of encode token (ApiCall.delete_agent id) = slash_parts "agents" id ""
url-parts_of encode token (ApiCall.start_agent id) = slash_parts "agents" id "/start"
url-parts_of encode token (ApiCall.stop_agent id) = slash_parts "agents" id "/stop"
url-parts_of encode token (ApiCall.messages id) = slash_parts "agents" id "/messages"
url-parts_of encode token (ApiCall.runs id) = slash_parts "agents" id "/runs"
url-parts_of encode token (ApiCall.mandate id) = slash_parts "agents" id "/mandate"
url-parts_of encode token (ApiCall.send_message id content) = slash_parts "agents" id "/messages"
url-parts_of encode token (ApiCall.new_demo_workflow id) =
    slash_parts "agents" id "/new-demo-workflow"
url-parts_of encode token (ApiCall.run id) = slash_parts "runs" id ""
url-parts_of encode token (ApiCall.evidence id) = slash_parts "runs" id "/evidence"
url-parts_of encode token (ApiCall.retry_run id) = slash_parts "runs" id "/retry"
url-parts_of encode token (ApiCall.revoke_mandate id) = slash_parts "mandates" (encode id) "/revoke"

module _ {is_uuid : String → Bool} (router : Router is_uuid) where
  kept : (s : String) → is_plain s ≡ true → router.encode s ≡ s
  kept = router.encodes_plain

  kept_id : (id : String) → is_uuid id ≡ true → router.encode id ≡ id
  kept_id id h = kept id (router.uuid_is_plain id h)

  abbrev AsEncoded : List String → List String → Type 0
  AsEncoded written segments = (written ≡ map router.encode segments) × (all_parts segments ≡ true)

  one_part : (a : String) → is_plain a ≡ true → is_part a ≡ true → AsEncoded (a ∷ []) (a ∷ [])
  one_part a plain long = (rw (kept a plain) refl, rw long refl)

  item :
      (kind id : String)
      → is_plain kind ≡ true
      → is_part kind ≡ true
      → is_uuid id ≡ true
      → AsEncoded (kind ∷ id ∷ []) (kind ∷ id ∷ [])
  item kind id plain long h =
      (rw (kept kind plain, kept_id id h) refl, rw (long, router.uuid_is_part id h) refl)

  action :
      (kind id name : String)
      → is_plain kind && is_plain name ≡ true
      → is_part kind && is_part name ≡ true
      → is_uuid id ≡ true
      → AsEncoded (kind ∷ id ∷ name ∷ []) (kind ∷ id ∷ name ∷ [])
  action kind id name plain long h =
      let (plain_kind, plain_name) = and_both (is_plain kind) _ plain in
      let (long_kind, long_name) = and_both (is_part kind) _ long in
      (
        rw (kept kind plain_kind, kept_id id h, kept name plain_name) refl,
        rw (long_kind, router.uuid_is_part id h, long_name) refl,
      )

  within_part : (id : String) → within 8 100 id ≡ true → is_part id ≡ true
  within_part id h = ground arith

  AsEncoded-parts_of :
      (call : ApiCall)
      → is_sendable is_uuid call ≡ true
      → AsEncoded (parts_of router.encode call) (parts_of (λ id. id) call)
  unfolding length_units
  AsEncoded-parts_of ApiCall.auth h = one_part "auth" refl refl
  AsEncoded-parts_of ApiCall.system h = one_part "system" refl refl
  AsEncoded-parts_of ApiCall.list_agents h = one_part "agents" refl refl
  AsEncoded-parts_of (ApiCall.create_agent name description instructions owner) h =
      one_part "agents" refl refl
  AsEncoded-parts_of (ApiCall.update_agent id name description instructions) h =
      item "agents" id refl refl (and_both (is_uuid id) _ h).0
  AsEncoded-parts_of (ApiCall.send_message id content) h =
      action "agents" id "messages" refl refl (and_both (is_uuid id) _ h).0
  AsEncoded-parts_of (ApiCall.revoke_mandate id) h =
      (rw (kept "mandates" refl, kept "revoke" refl) refl, rw (within_part id h) refl)
  AsEncoded-parts_of (ApiCall.delete_agent id) h = item "agents" id refl refl h
  AsEncoded-parts_of (ApiCall.run id) h = item "runs" id refl refl h
  AsEncoded-parts_of (ApiCall.start_agent id) h = action "agents" id "start" refl refl h
  AsEncoded-parts_of (ApiCall.stop_agent id) h = action "agents" id "stop" refl refl h
  AsEncoded-parts_of (ApiCall.messages id) h = action "agents" id "messages" refl refl h
  AsEncoded-parts_of (ApiCall.runs id) h = action "agents" id "runs" refl refl h
  AsEncoded-parts_of (ApiCall.mandate id) h = action "agents" id "mandate" refl refl h
  AsEncoded-parts_of (ApiCall.new_demo_workflow id) h =
      action "agents" id "new-demo-workflow" refl refl h
  AsEncoded-parts_of (ApiCall.evidence id) h = action "runs" id "evidence" refl refl h
  AsEncoded-parts_of (ApiCall.retry_run id) h = action "runs" id "retry" refl refl h

  -- The router gives the parts that the browser means.
  pub segments-parts_of :
      (call : ApiCall)
      → is_sendable is_uuid call ≡ true
      → router.segments_of ("/api" <> path (parts_of router.encode call)) ≡ parts_of (λ id. id) call
  segments-parts_of call h =
      let (written, long) = AsEncoded-parts_of call h in
      rw written (router.divides (parts_of (λ id. id) call) long)
