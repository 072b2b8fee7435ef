-- ===== src/Backend/Safety.antt =====
-- web/app/backend/[...path]/route.ts: the requests that reach the API.
use logi_track.Base.{
  ℕ, ◌≡◌, refl, ◌⊎◌, inl, inr, false, not, ◌&&◌, Option, some, List, ◌∷◌, ◌++◌, arith, ◌==◌, nat_eq,
  list_eq, eq_iff, if◌then◌else◌, Bool-cases, All,
}
use logi_track.Js.Text.{JsString, js, truthy}
use logi_track.Js.Result.{Result, ok, thrown}
use logi_track.Js.Dict.{get}
use logi_track.Js.Json.{Fields}
use logi_track.Http.{Platform, Request, access, legacy_access}
use logi_track.Auth.Cookies.{text_of, chosen_cookie}
use logi_track.Auth.RequestOrigin.{
  is_same_origin_mutation, is_same_origin_mutation_sound, IsSameOrigin,
}
use logi_track.Auth.AccessToken.{JwksCache, verify_access_token}
use logi_track.Auth.AccessToken.Verify.{IsVerified, IsConsistent, verify_access_token_iff}
use logi_track.Backend.Parts.{Forwarded, Upstream, Handled, encode_path}
use logi_track.Backend.Handler.{target_url, forward, after_verification, proxy}
use logi_track.Backend.Checks.{IsSafePart, is_bad_path_sound, IsForwardedBody, forward_sound}

pub record IsAllowed (p : Platform) (request : Request) (path : List JsString) (verified_ms : ℕ)
    (sent : Forwarded) : Type 0 where
  pub same_site : (request.method ≡ js "GET") ⊎ IsSameOrigin p request
  pub token : JsString
  pub payload : Fields
  pub from_cookie :
      (request.cookie access ≡ some token) ⊎ (request.cookie legacy_access ≡ some token)
  pub verified : IsVerified p token verified_ms payload
  pub bearer : get sent.headers (js "authorization") ≡ some (js "Bearer " ++ token)
  pub safe_parts : All IsSafePart path
  pub parts : List JsString
  pub under_api : path ≡ js "api" ∷ parts
  pub encoded : List JsString
  pub encoding : encode_path path ≡ ok encoded
  pub target : p.new_url (target_url p encoded) ≡ some sent.url
  pub same_method : sent.method ≡ request.method
  pub body : IsForwardedBody request sent.body

same_site_sound :
    (p : Platform) (request : Request)
    → (not (request.method == js "GET") && not (is_same_origin_mutation p request)) ≡ false
    → (request.method ≡ js "GET") ⊎ IsSameOrigin p request
same_site_sound p request h = elim (Bool-cases (request.method == js "GET")) [
  | inl get_method ↦ inl ((eq_iff request.method (js "GET")).0 get_method)
  | inr other ↦ inr (is_same_origin_mutation_sound p request (ground arith))
]

module _ (p : Platform) (fetch : Forwarded → Option Upstream) (request : Request)
    (path : List JsString) (verified_ms answered_ms : ℕ) (h : Handled) (sent : Forwarded)
    (was_sent : h.sent ≡ some sent) where
  after_verification_sound :
      (current legacy token : JsString) (r : Result Fields × JwksCache)
      → (after_verification p fetch request path current legacy token answered_ms r).0 ≡ ok h
      → (payload : Fields) × (r.0 ≡ ok payload)
        × (forward p fetch request path current legacy token payload answered_ms ≡ ok h)
  after_verification_sound current legacy token (ok payload, cache) e = (payload, refl, e)
  after_verification_sound current legacy token (thrown m, cache) e = absurd (ground arith)

  -- With a consistent cache of key sets, whatever a run that ends sends to the API was asked for
  -- by a GET or from the application's own origin, under a verified token of one of the two
  -- access cookies, sent on as the bearer; its path lies under `api`, no part of it is empty, a
  -- dot segment or holds a slash, and the URL is built from its encoded parts; its method is the
  -- request's, and so is its body, whole and within a mebibyte; it has none only for a GET or where
  -- the request has none.
  pub proxy_sound :
      (cache : JwksCache)
      → IsConsistent p cache
      → (proxy p fetch request path verified_ms answered_ms cache).0 ≡ ok h
      → IsAllowed p request path verified_ms sent
  unfolding proxy
  proxy_sound cache v e =
      let current = text_of (request.cookie access) in
      let legacy = text_of (request.cookie legacy_access) in
      let token = if truthy current then current else legacy in
      elim (Bool-cases
        (not (request.method == js "GET") && not (is_same_origin_mutation p request))) [
          | inl crossed ↦ absurd (ground arith)
          | inr same ↦ elim (Bool-cases (truthy token)) [
            | inr missing ↦ absurd (ground arith)
            | inl given ↦
                let (payload, passed, e1) =
                  after_verification_sound current legacy token
                    (verify_access_token p token verified_ms cache) (rw (same, given) at e) in
                let (body, s, from_request, good) =
                  forward_sound p fetch request path current legacy token payload answered_ms h sent
                    was_sent e1 in
                let (safe, under_api) = is_bad_path_sound path good in
                record {
                  same_site = same_site_sound p request same;
                  token = token;
                  payload = payload;
                  from_cookie =
                      chosen_cookie (request.cookie access) (request.cookie legacy_access) given;
                  verified = (verify_access_token_iff p token verified_ms cache payload v).0 passed;
                  bearer = s.bearer;
                  safe_parts = safe;
                  parts = under_api.0;
                  under_api = under_api.1;
                  encoded = s.encoded;
                  encoding = s.encoding;
                  target = s.target;
                  same_method = s.same_method;
                  body = rw s.same_body from_request;
                }
          ]
        ]
