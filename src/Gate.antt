-- ===== src/Gate.antt =====
-- web/proxy.ts: the gate in front of the pages.
pub mod Access
pub mod Policy
use logi_track.Base.{
  ℕ, ◌/◌, Bool, not, ◌&&◌, ◌||◌, Option, none, some, [], ◌∷◌, ◌==◌, nat_eq, list_eq, if◌then◌else◌,
  any, List,
}
use logi_track.Base.Int.{pos, ◌-ℤ◌, min_ℤ}
use logi_track.Js.Text.{JsString, js, truthy}
use logi_track.Js.Result.{Result, ok, thrown, ◌>>=◌}
use logi_track.Js.Dict.{Dict, set}
use logi_track.Js.Json.{Fields}
use logi_track.Http.{Url, Platform, Request, access, legacy_access, cookie_eq, Response, no_body}
use logi_track.Auth.Config.{parsed, secure_cookie, application_origin, env_is}
use logi_track.Auth.Cookies.{text_of, expiry_of, with_cookie, cleared, clear_all}
use logi_track.Auth.AccessToken.{JwksCache, verify_access_token}
use logi_track.Csp.{content_security_policy}

-- What the gate decides: the page is rendered, for a request with the headers set on it, or the
-- browser is sent to the login page.
pub data Gated : Type 0 where
  continued : Dict JsString JsString → Response → Gated
  redirected : Response → Gated

abbrev pub response_of : Gated → Response
response_of (continued headers response) = response
response_of (redirected response) = response

abbrev pub public_pages : List JsString
public_pages = js "/" ∷ js "/showcase" ∷ js "/login" ∷ []

unfoldable pub is_public_page : JsString → Bool
is_public_page pathname = any (λ page. page == pathname) public_pages

-- `response.headers.set(name, value)`
abbrev pub with_header : JsString → JsString → Response → Response
with_header name value response = record response { headers = set response.headers name value }

-- `NextResponse.next({ request: { headers } })`, as far as the gate changes it
abbrev pub next_response : Response
next_response = record { status = 200; location = none; headers = []; cookies = []; body = no_body }

-- `next()`: the headers that the page is rendered with, and the answer's
abbrev pub next_headers : (nonce csp : JsString) → Request → Dict JsString JsString
next_headers nonce csp request =
    set (set request.headers (js "x-nonce") nonce) (js "content-security-policy") csp

abbrev pub next_page : JsString → Response
next_page csp = with_header (js "content-security-policy") csp next_response

module _ (p : Platform) where
  -- A token that came in the legacy cookie only moves to the current one.
  unfoldable pub migrate_cookie : (current legacy : JsString) → Fields → ℕ → Response → Response
  migrate_cookie current legacy payload now_ms response =
      if not (truthy current) && truthy legacy
      then with_cookie legacy_access (cleared p) (
          with_cookie access
            (record {
              value = legacy;
              options =
                  secure_cookie p (min_ℤ (expiry_of payload -ℤ pos (now_ms / 1000)) (pos 3600))
                    (js "/");
            })
            response)
      else response

  unfoldable pub admit :
      (nonce csp : JsString) → Request → (current legacy : JsString) → Fields → ℕ → Gated
  admit nonce csp request current legacy payload now_ms =
      continued (next_headers nonce csp request) (
        migrate_cookie current legacy payload now_ms
          (with_header (js "cache-control") (js "no-store") (next_page csp)))

  -- The redirect to the login page. A token that was refused is removed.
  unfoldable pub to_login : (csp : JsString) → Request → (token : JsString) → Url → Response
  to_login csp request token url =
      let response = with_header (js "content-security-policy") csp (
        with_header (js "cache-control") (js "no-store") (record {
          status = 307;
          location = some (record { url = url; query = (js "returnTo", request.pathname) ∷ [] });
          headers = [];
          cookies = [];
          body = no_body;
        })) in
      if truthy token then clear_all p (access ∷ legacy_access ∷ []) response else response

  unfoldable pub send_to_login : (csp : JsString) → Request → (token : JsString) → Result Gated
  send_to_login csp request token = do
    origin ← application_origin p request.origin
    url ← parsed (p.resolve_url (js "/login") origin)
    ok (redirected (to_login csp request token url))

  -- `validAccessToken(token)`, which is not called for the empty token
  unfoldable pub valid_access_token : JsString → ℕ → JwksCache → Option Fields × JwksCache
  valid_access_token token verified_ms cache =
      let (result, next) = verify_access_token p token verified_ms cache in
      (elim result [ ok payload ↦ some payload | thrown e ↦ none ], next)

  abbrev pub decide :
      (nonce csp : JsString)
      → Request
      → (current legacy token : JsString) → ℕ
      → Option Fields × JwksCache
      → Result Gated × JwksCache
  decide nonce csp request current legacy token now_ms (some payload, cache) =
      (ok (admit nonce csp request current legacy payload now_ms), cache)
  decide nonce csp request current legacy token now_ms (none, cache) =
      (send_to_login csp request token, cache)

  unfoldable pub gate_with :
      (nonce csp : JsString)
      → Request
      → (verified_ms now_ms : ℕ) → JwksCache
      → Result Gated × JwksCache
  gate_with nonce csp request verified_ms now_ms cache =
      let current = text_of (request.cookie access) in
      let legacy = text_of (request.cookie legacy_access) in
      let token = if truthy current then current else legacy in
      if is_public_page request.pathname || not (env_is p (js "AUTH_REQUIRED") (js "true"))
      then (ok (continued (next_headers nonce csp request) (next_page csp)), cache)
      else if truthy token
      then decide nonce csp request current legacy token now_ms
          (valid_access_token token verified_ms cache)
      else (send_to_login csp request token, cache)

  abbrev pub under_policy :
      JsString
      → Request
      → (verified_ms now_ms : ℕ) → JwksCache
      → Result JsString
      → Result Gated × JwksCache
  under_policy nonce request verified_ms now_ms cache (thrown e) = (thrown e, cache)
  under_policy nonce request verified_ms now_ms cache (ok csp) =
      gate_with nonce csp request verified_ms now_ms cache

  -- `proxy(request)`. `nonce` is the random nonce of the page, in base64.
  unfoldable pub gate :
      JsString → Request → (verified_ms now_ms : ℕ) → JwksCache → Result Gated × JwksCache
  gate nonce request verified_ms now_ms cache =
      under_policy nonce request verified_ms now_ms cache (content_security_policy p nonce)
