-- ===== src/Auth/Callback/Session.antt =====
-- web/app/auth/callback/route.ts: the session that a callback opens, and the runs that open one.
use logi_track.Base.{
  ℕ, ◌≤◌, ◌≡◌, refl, sym, ◌∙◌, ◌≢◌, true, Option, none, some, arith, nat_eq, list_eq, ◌++◌, ap,
}
use logi_track.Base.Int.{pos, ◌≤ℤ◌}
use logi_track.Js.Text.{JsString, js, truthy}
use logi_track.Js.Unicode.{utf8, encode_uri_component}
use logi_track.Js.Result.{ok, >>=-eq-ok}
use logi_track.Js.Exec.{continue-eq-ok}
use logi_track.Js.Dict.{get, get-set}
use logi_track.Js.Json.{Fields, Json, text, property, is_text-eq}
use logi_track.Http.{
  Platform, Request, header, state, nonce, access, legacy_access, verifier, cookie_eq, cookie_beq,
  Cookie, Jwks, Response, Url,
}
use logi_track.Auth.Config.{secure_cookie, AuthConfig, auth_config, application_origin, parsed}
use logi_track.Auth.Cookies.{text_of, cleared, clear_transient, with_cookie}
use logi_track.Auth.AccessToken.{JwksCache, create_jwks, cognito_jwks, verify_access_token}
use logi_track.Auth.AccessToken.Verify.{IsVerified}
use logi_track.Auth.Callback.Redirect.{redirect_to, redirect_within, finish}
use logi_track.Auth.Callback.TokenResponse.{
  Exchange, TokenEndpointResponse, string_of, read_bounded_token_response, same_subject,
}
use logi_track.Auth.Callback.Handler.{
  id_options, exchange_of, check_id_claims, seconds_left, session_max_age, CallbackInput,
  with_session, establish,
}

pub session_max_age_le :
    (token payload : Fields) (now_ms : ℕ)
    → (session_max_age token payload now_ms ≤ℤ pos 3600)
      × (session_max_age token payload now_ms ≤ℤ seconds_left payload now_ms)
unfolding session_max_age
session_max_age_le token payload now_ms = ground arith

-- The ID token's claims: its purpose, the nonce of this browser, and the access token's subject.
abbrev pub IsOwnIdToken :
    (id_payload access_payload : Fields) → (expected_nonce : JsString) → Type 0
IsOwnIdToken id_payload access_payload expected_nonce =
    (property id_payload (js "token_use") ≡ text (js "id"))
    × (property id_payload (js "nonce") ≡ text expected_nonce)
    × ((sub : JsString) × (property id_payload (js "sub") ≡ text sub)
        × (property access_payload (js "sub") ≡ text sub))

same_subject-inv :
    (found sub : Json)
    → same_subject found sub ≡ true
    → (s : JsString) × (found ≡ text s) × (sub ≡ text s)
unfolding same_subject
same_subject-inv found (text s) h = (s, is_text-eq found s h, refl)
same_subject-inv found _ h = absurd (ground arith)

pub check_id_claims_sound :
    (id_payload access_payload : Fields) (expected_nonce : JsString) (checked : Unit {0})
    → check_id_claims id_payload access_payload expected_nonce ≡ ok checked
    → IsOwnIdToken id_payload access_payload expected_nonce
unfolding check_id_claims
check_id_claims_sound id_payload access_payload expected_nonce checked h = (
  is_text-eq _ _ (ground arith),
  is_text-eq _ _ (ground arith),
  same_subject-inv _ _ (ground arith),
)

-- What is behind a session cookie once the token response is read.
pub record IsEstablished (p : Platform) (expected_nonce : JsString) (config : AuthConfig)
    (token : Fields) (verified_ms now_ms : ℕ) (cookie : Cookie) : Type 0 where
  pub value : cookie.value ≡ string_of (property token (js "access_token"))
  pub access_payload : Fields
  pub verified : IsVerified p cookie.value verified_ms access_payload
  pub jwks : Jwks
  pub key_set : create_jwks p config.issuer ≡ ok jwks
  pub id_payload : Fields
  pub id_signed :
      p.jwt_verify (string_of (property token (js "id_token"))) jwks (id_options config)
      ≡ ok id_payload
  pub own : IsOwnIdToken id_payload access_payload expected_nonce
  pub at_most_an_hour : cookie.options.max_age ≤ℤ pos 3600
  pub within_token : cookie.options.max_age ≤ℤ seconds_left access_payload now_ms

-- What is behind a session: the callback's state is this browser's, and its code was exchanged.
pub record IsSession (p : Platform) (fetch : Exchange → Option TokenEndpointResponse)
    (request : Request) (verified_ms now_ms : ℕ) (cookie : Cookie) : Type 0 where
  pub config : AuthConfig
  pub configured : auth_config p ≡ ok config
  pub same_state :
      utf8 (header request.search_params (js "state")) ≡ utf8 (text_of (request.cookie state))
  pub given_state : truthy (text_of (request.cookie state)) ≡ true
  pub given_nonce : truthy (text_of (request.cookie nonce)) ≡ true
  pub answer : TokenEndpointResponse
  pub exchanged :
      fetch (
        exchange_of config
          (text_of (request.cookie verifier))
          (header request.search_params (js "code")))
      ≡ some answer
  pub accepted : (200 ≤ answer.status) × (answer.status ≤ 299)
  pub token : Fields
  pub token_read : read_bounded_token_response p answer ≡ ok (some token)
  pub established :
      IsEstablished p (text_of (request.cookie nonce)) config token verified_ms now_ms cookie

module _ (p : Platform) where
  -- What clearing the transient cookies does to each cookie.
  pub clear_transient-access :
      (r : Response) → get (clear_transient p r).cookies access ≡ get r.cookies access
  unfolding clear_transient cookie_beq
  clear_transient-access r =
      get-set _ verifier access _ ∙ get-set _ nonce access _ ∙ get-set r.cookies state access _

  pub with_session-access :
      (token access_payload : Fields) (now_ms : ℕ) (r : Response) (c : Cookie)
      → get (with_session p token access_payload now_ms r).cookies access ≡ some c
      → (c.value ≡ string_of (property token (js "access_token")))
        × (c.options.max_age ≡ session_max_age token access_payload now_ms)
  unfolding with_session with_cookie cookie_beq secure_cookie
  with_session-access token access_payload now_ms r c h =
      let opened : Cookie = record {
        value = string_of (property token (js "access_token"));
        options = secure_cookie p (session_max_age token access_payload now_ms) (js "/");
      } in
      let there =
        clear_transient-access _
        ∙ get-set _ legacy_access access (cleared p)
        ∙ get-set r.cookies access access opened in
      let same : opened ≡ c = cc (sym there ∙ h) in
      (ap (λ k. k.value) (sym same), ap (λ k. k.options.max_age) (sym same))

  pub redirect_within-cookies :
      (request : Request) (path : JsString) (r : Response)
      → redirect_within p request path ≡ ok r
      → (url : Url) × (r ≡ redirect_to url)
  unfolding redirect_within
  redirect_within-cookies request path r h =
      let (origin, e0, h1) = >>=-eq-ok (application_origin p request.origin) _ h in
      let (url, e1, h2) = >>=-eq-ok (parsed (p.resolve_url path origin)) _ h1 in (url, ground arith)

  cleared-no-session :
      (response r : Response) (url : Url) (c : Cookie)
      → response ≡ redirect_to url
      → clear_transient p response ≡ r
      → get r.cookies access ≢ some c
  unfolding get
  cleared-no-session response r url c fresh e set =
      let none_set : get response.cookies access ≡ none = rw fresh refl in
      let kept : get r.cookies access ≡ get response.cookies access =
        rw (← e) (clear_transient-access response) in
      cc

  pub finish-no-session :
      (request : Request) (reason : JsString) (r : Response) (c : Cookie)
      → finish p request reason ≡ ok r
      → get r.cookies access ≢ some c
  unfolding finish
  finish-no-session request reason r c h =
      let (encoded, e0, h1) = >>=-eq-ok (encode_uri_component reason) _ h in
      let (response, e1, h2) =
        >>=-eq-ok (redirect_within p request (js "/login?error=" ++ encoded)) _ h1 in
      let (url, e2) = redirect_within-cookies request _ response e1 in
      cleared-no-session response r url c e2 (cc h2)

-- The values that a run of `establish` passes through on its way to an answer.
pub record IsRun (p : Platform) (request : Request) (i : CallbackInput) (c : AuthConfig)
    (token : Fields) (verified_ms now_ms : ℕ) (cache : JwksCache) (r : Response) : Type 0 where
  pub jwks : Jwks
  pub keys : (cognito_jwks p c.issuer cache).0 ≡ ok jwks
  pub access_payload : Fields
  pub passed :
      (verify_access_token p
        (string_of (property token (js "access_token")))
        verified_ms
        (cognito_jwks p c.issuer cache).1).0
      ≡ ok access_payload
  pub id_payload : Fields
  pub id_signed :
      p.jwt_verify (string_of (property token (js "id_token"))) jwks (id_options c) ≡ ok id_payload
  pub own : IsOwnIdToken id_payload access_payload i.expected_nonce
  pub response : Response
  pub back : redirect_within p request (js "/console") ≡ ok response
  pub result : with_session p token access_payload now_ms response ≡ r

pub establish-eq-ok :
    (p : Platform) (request : Request) (i : CallbackInput) (c : AuthConfig) (token : Fields)
    (verified_ms now_ms : ℕ) (cache : JwksCache) (r : Response)
    → (establish p request i c token verified_ms now_ms cache).0 ≡ ok r
    → IsRun p request i c token verified_ms now_ms cache r
unfolding establish
establish-eq-ok p request i c token verified_ms now_ms cache r h =
    let access_token = string_of (property token (js "access_token")) in
    let (jwks, keys, h1) = continue-eq-ok (cognito_jwks p c.issuer cache) _ h in
    let cache1 = (cognito_jwks p c.issuer cache).1 in
    let (access_payload, passed, h2) =
      continue-eq-ok (verify_access_token p access_token verified_ms cache1) _ h1 in
    let cache2 = (verify_access_token p access_token verified_ms cache1).1 in
    let (id_payload, id_signed, h3) =
      continue-eq-ok
        (p.jwt_verify (string_of (property token (js "id_token"))) jwks (id_options c), cache2) _
        h2 in
    let (checked, own, h4) =
      continue-eq-ok (check_id_claims id_payload access_payload i.expected_nonce, cache2) _ h3 in
    let (response, back, h5) =
      continue-eq-ok (redirect_within p request (js "/console"), cache2) _ h4 in
    record {
      jwks = jwks;
      keys = keys;
      access_payload = access_payload;
      passed = passed;
      id_payload = id_payload;
      id_signed = id_signed;
      own = check_id_claims_sound id_payload access_payload i.expected_nonce checked own;
      response = response;
      back = back;
      result = cc h5;
    }
