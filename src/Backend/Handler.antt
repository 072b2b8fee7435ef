-- ===== src/Backend/Handler.antt =====
-- web/app/backend/[...path]/route.ts: `proxy`, from the request to the answer.
use logi_track.Base.{
  ℕ, ◌/◌, Bool, false, not, ◌&&◌, Option, none, some, List, [], ◌∷◌, ◌++◌, ◌==◌, nat_eq, list_eq,
  if◌then◌else◌,
}
use logi_track.Base.Int.{pos, ◌-ℤ◌, min_ℤ}
use logi_track.Js.Text.{JsString, js, truthy, join}
use logi_track.Js.Result.{Result, ok, thrown, ◌>>=◌}
use logi_track.Js.Json.{Fields}
use logi_track.Bytes.{buffered, too_large, unreadable}
use logi_track.Http.{Url, Platform, Request, header, access, legacy_access, cookie_eq, Response}
use logi_track.Auth.Config.{parsed, secure_cookie, without_last_slash}
use logi_track.Auth.Cookies.{text_of, expiry_of, with_cookie, cleared, clear_all}
use logi_track.Auth.AccessToken.{JwksCache, verify_access_token}
use logi_track.Auth.RequestOrigin.{is_same_origin_mutation}
use logi_track.Headers.{exceeds, media_type}
use logi_track.Backend.Parts.{
  max_response_body_bytes, allowed_request_headers, passed_response_headers, Forwarded, Upstream,
  Handled, json_error, copy_headers, is_bad_path, read_bounded_body, encode_path, can_respond,
  response_body, max_request_body_bytes,
}

abbrev pub refuse : JsString → ℕ → Handled
refuse error status = record { sent = none; response = json_error error status }

module _ (p : Platform) where
  -- `process.env[name]`, with the empty text for `undefined`
  env_text : JsString → JsString
  env_text name = text_of (p.env name)

  unfoldable pub upstream_base : JsString
  unfolding env_text
  upstream_base = without_last_slash (
      if truthy (env_text (js "INTERNAL_API_URL"))
      then env_text (js "INTERNAL_API_URL")
      else if truthy (env_text (js "API_INTERNAL_URL"))
      then env_text (js "API_INTERNAL_URL")
      else js "http://api:8080")

  -- Both access cookies are removed.
  unfoldable pub invalid_authentication : Response
  unfolding clear_all
  invalid_authentication =
      clear_all p (access ∷ legacy_access ∷ []) (json_error (js "invalid_authentication") 401)

  -- A token that came in the legacy cookie only moves to the current one. Times in milliseconds.
  unfoldable pub migrate : (current legacy : JsString) → Fields → ℕ → Response → Response
  unfolding with_cookie
  migrate current legacy payload answered_ms response =
      if not (truthy current) && truthy legacy
      then with_cookie legacy_access (cleared p) (
          with_cookie access
            (record {
              value = legacy;
              options =
                  secure_cookie p (min_ℤ (expiry_of payload -ℤ pos (answered_ms / 1000)) (pos 3600))
                    (js "/");
            })
            response)
      else response

  -- What the `try` around the upstream call answers when nothing in it throws.
  unfoldable pub upstream_answer : (current legacy : JsString) → Fields → ℕ → Upstream → Response
  upstream_answer current legacy payload answered_ms upstream =
      let streaming =
        media_type (header upstream.headers (js "content-type")) == js "text/event-stream" in
      let declared = header upstream.headers (js "content-length") in
      let body = response_body streaming upstream.body in
      let cancel_fails : Bool = elim upstream.body [ none ↦ false | some s ↦ s.cancel_fails ] in
      if not streaming && exceeds max_response_body_bytes declared
      then (if cancel_fails
          then json_error (js "upstream_unavailable") 502
          else json_error (js "upstream_response_too_large") 502)
      else if can_respond upstream.status body
      then migrate current legacy payload answered_ms (record {
        status = upstream.status;
        location = none;
        headers =
            copy_headers passed_response_headers upstream.headers
              ((js "cache-control", js "no-store") ∷ []);
        cookies = [];
        body = body;
      })
      else json_error (js "upstream_unavailable") 502

  -- The request to the API: the allowed headers and the token, and nothing else of the browser's.
  unfoldable pub forwarded_request : Request → JsString → Url → Option (List ℕ) → Forwarded
  forwarded_request request token url body = record {
    url = url;
    search = request.search;
    method = request.method;
    headers =
        copy_headers allowed_request_headers request.headers
          ((js "authorization", js "Bearer " ++ token) ∷ []);
    body = body;
  }

  abbrev pub target_url : List JsString → JsString
  target_url encoded = upstream_base ++ js "/" ++ join (js "/") encoded

  module _ (fetch : Forwarded → Option Upstream) where
    unfoldable pub deliver : (current legacy : JsString) → Fields → ℕ → Forwarded → Handled
    deliver current legacy payload answered_ms forwarded = record {
      sent = some forwarded;
      response = elim (fetch forwarded) [
        | none ↦ json_error (js "upstream_unavailable") 502
        | some upstream ↦ upstream_answer current legacy payload answered_ms upstream
      ];
    }

    unfoldable pub send :
        Request
        → List JsString
        → (current legacy token : JsString) → Fields
        → ℕ
        → Option (List ℕ)
        → Result Handled
    send request path current legacy token payload answered_ms body = do
      encoded ← encode_path path
      url ← parsed (p.new_url (target_url encoded))
      ok (deliver current legacy payload answered_ms (forwarded_request request token url body))

    -- The rest of the handler once the token is verified.
    unfoldable pub forward :
        Request → List JsString → (current legacy token : JsString) → Fields → ℕ → Result Handled
    forward request path current legacy token payload answered_ms =
        if is_bad_path path
        then ok (refuse (js "invalid_proxy_path") 400)
        else if exceeds max_request_body_bytes (header request.headers (js "content-length"))
        then ok (refuse (js "request_body_too_large") 413)
        else elim (read_bounded_body request) [
          | none ↦ send request path current legacy token payload answered_ms none
          | some outcome ↦ elim outcome [
            | buffered bytes ↦
                send request path current legacy token payload answered_ms (some bytes)
            | too_large ↦ ok (refuse (js "request_body_too_large") 413)
            | unreadable ↦ ok (refuse (js "invalid_request_body") 400)
          ]
        ]

    abbrev pub after_verification :
        Request
        → List JsString
        → (current legacy token : JsString) → ℕ
        → Result Fields × JwksCache
        → Result Handled × JwksCache
    after_verification request path current legacy token answered_ms (thrown e, cache) =
        (ok (record { sent = none; response = invalid_authentication }), cache)
    after_verification request path current legacy token answered_ms (ok payload, cache) =
        (forward request path current legacy token payload answered_ms, cache)

    -- `verified_ms` and `answered_ms` are `Date.now()` at the check of the token and after the answer.
    unfoldable pub proxy :
        Request
        → List JsString
        → (verified_ms answered_ms : ℕ) → JwksCache
        → Result Handled × JwksCache
    proxy request path verified_ms answered_ms cache =
        let current = text_of (request.cookie access) in
        let legacy = text_of (request.cookie legacy_access) in
        let token = if truthy current then current else legacy in
        if not (request.method == js "GET") && not (is_same_origin_mutation p request)
        then (ok (refuse (js "cross_origin_request_rejected") 403), cache)
        else if not (truthy token)
        then (ok (refuse (js "authentication_required") 401), cache)
        else after_verification request path current legacy token answered_ms
            (verify_access_token p token verified_ms cache)
