-- ===== src/Backend/Parts.antt =====
-- web/app/backend/[...path]/route.ts: the limits, the checks and the two ends of the proxy.
use logi_track.Base.{
  ℕ, ◌*◌, Bool, true, not, ◌&&◌, ◌||◌, Option, none, some, List, [], ◌∷◌, ◌==◌, nat_eq, list_eq,
  leb, if◌then◌else◌, any,
}
use logi_track.Js.Text.{JsString, js, truthy, includes_unit}
use logi_track.Js.Unicode.{encode_uri_component}
use logi_track.Js.Result.{Result, ok, ◌>>=◌}
use logi_track.Js.Dict.{Dict, set}
use logi_track.Bytes.{ByteStream, Buffered, read_bounded}
use logi_track.Http.{
  Url, Request, header, cookie_eq, Response, Body, no_body, error_json, streamed, bounded,
}

abbrev pub max_request_body_bytes : ℕ
max_request_body_bytes = 1024 * 1024

abbrev pub max_response_body_bytes : ℕ
max_response_body_bytes = 16 * 1024 * 1024

abbrev pub allowed_request_headers : List JsString
allowed_request_headers =
    js "accept"
    ∷ js "content-type"
    ∷ js "idempotency-key"
    ∷ js "x-trace-id"
    ∷ js "x-replay-approval"
    ∷ js "x-discard-approval"
    ∷ []

abbrev pub passed_response_headers : List JsString
passed_response_headers = js "content-type" ∷ js "content-disposition" ∷ js "x-trace-id" ∷ []

-- The request that is sent to the API, and what comes back.
pub record Forwarded : Type 0 where
  pub url : Url
  pub search : JsString
  pub method : JsString
  pub headers : Dict JsString JsString
  pub body : Option (List ℕ)

pub record Upstream : Type 0 where
  pub status : ℕ
  pub headers : Dict JsString JsString
  pub body : Option ByteStream

-- A run of the handler: the request that it sent, if any, and its answer.
pub record Handled : Type 0 where
  pub sent : Option Forwarded
  pub response : Response

unfoldable pub json_error : JsString → ℕ → Response
json_error error status = record {
  status = status;
  location = none;
  headers = (js "cache-control", js "no-store") ∷ (js "content-type", js "application/json") ∷ [];
  cookies = [];
  body = error_json error;
}

-- Copies the named headers that are not empty.
unfoldable pub copy_headers :
    List JsString → Dict JsString JsString → Dict JsString JsString → Dict JsString JsString
copy_headers [] from headers = headers
copy_headers (name ∷ names) from headers =
    copy_headers names from
      (if truthy (header from name) then set headers name (header from name) else headers)

-- The part of the path that the handler refuses: empty, a dot segment, or one with a slash in it.
abbrev pub is_bad_part : JsString → Bool
is_bad_part part = not (truthy part) || part == js "." || part == js ".." || includes_unit b'/' part

unfoldable pub is_bad_path : List JsString → Bool
is_bad_path [] = true
is_bad_path (first ∷ parts) = not (first == js "api") || any is_bad_part (first ∷ parts)

-- `undefined` without a body.
unfoldable pub read_bounded_body : Request → Option Buffered
read_bounded_body request =
    if request.method == js "GET"
    then none
    else elim request.body [ none ↦ none | some s ↦ some (read_bounded max_request_body_bytes s) ]

unfoldable pub encode_path : List JsString → Result (List JsString)
encode_path [] = ok []
encode_path (part ∷ parts) = do
  encoded ← encode_uri_component part
  rest ← encode_path parts
  ok (encoded ∷ rest)

-- `new NextResponse(body, { status })` throws outside 200 to 599, and for a body with one of the
-- statuses that have none.
unfoldable pub can_respond : ℕ → Body → Bool
can_respond status no_body = leb 200 status && leb status 599
can_respond status _ =
    leb 200 status
    && leb status 599
    && not (status == 204)
    && not (status == 205)
    && not (status == 304)

-- `boundedResponseBody(upstream.body)`, or the upstream's own body for an event stream
unfoldable pub response_body : Bool → Option ByteStream → Body
response_body streaming none = no_body
response_body streaming (some s) = if streaming then streamed s else bounded s
