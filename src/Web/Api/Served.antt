-- ===== src/Web/Api/Served.antt =====
-- api.ts and app.ts together: a request of the browser, as the server takes it and as it answers.
use mandate_flow.Base.{ℕ, zero, suc, String, true, false, ◌&&◌, none, leb, if◌then◌else◌}
use mandate_flow.Model.{Result, ok, err, http, message_of}
use mandate_flow.Json.{Json, text, object, array, blank, bare, field}
use mandate_flow.Http.{Call, HttpRequest, Site, Reply, Payload, value, failure, page, respond}
use mandate_flow.Web.Api.{ApiCall, ApiResult, received, api_error, api, received_by}
use mandate_flow.Web.Api.Paths.{Router}

-- The text that an answer of the server has as JSON; the page is none, and the issues of a schema
-- are left out.
abbrev pub body_of : Payload → Json
body_of (value json) = json
body_of (failure message true) =
    object (field "error" (text message) (field "details" (array blank) bare))
body_of (failure message false) = object (field "error" (text message) bare)
body_of page = object bare

abbrev size : String → ℕ
size String.[] = zero
size (String.◌∷◌ c s) = suc (size s)

module _ (State : Type 0) (perform : Call → State → State × Result Json) (site : Site)
    (router : Router site.is_uuid) (token : String) where
  -- The request as it arrives.
  abbrev pub arrived : ApiCall → HttpRequest
  arrived call =
      let fetch = api router.encode token call in
      record {
        method = fetch.method;
        url = fetch.url;
        segments = router.segments_of fetch.url;
        authorization = fetch.authorization;
        body = fetch.body;
        refused_body = none;
      }

  abbrev taken_back : State × Reply → State × ApiResult
  taken_back (s, reply) =
      (s, received_by (record { status = reply.status; payload = body_of reply.payload }))

  -- A function of `api` against the server.
  unfoldable pub call_server : ApiCall → State → State × ApiResult
  unfolding api received_by respond
  call_server call s = taken_back (respond State perform site (arrived call) s)

  -- What the browser should see of a call of the service.
  abbrev pub seen : Result Json → ApiResult
  seen (ok json) = received json
  seen (err (http status message)) =
      if leb 200 status && leb status 299
      then received (body_of (failure message false))
      else api_error message status
  seen (err e) = api_error (message_of e) 500
