-- ===== src/Auth/Callback/Handler.antt =====
-- web/app/auth/callback/route.ts: `GET`.
use logi_track.Base.{
  ℕ, ◌+◌, ◌/◌, Bool, not, ◌&&◌, Option, none, some, [], ◌∷◌, ◌++◌, leb, if◌then◌else◌,
}
use logi_track.Base.Int.{ℤ, pos, ◌-ℤ◌, min_ℤ}
use logi_track.Js.Text.{JsString, js, truthy}
use logi_track.Js.Result.{Result, ok, thrown}
use logi_track.Js.Exec.{Exec, lift, ◌>>=◌}
use logi_track.Js.Json.{Fields, property, is_text}
use logi_track.Http.{
  Platform, Request, header, state, verifier, nonce, access, legacy_access, Response, VerifyOptions,
}
use logi_track.Auth.Config.{AuthConfig, auth_config, secure_cookie}
use logi_track.Auth.Cookies.{text_of, expiry_of, with_cookie, cleared, clear_transient}
use logi_track.Auth.AccessToken.{JwksCache, cognito_jwks, verify_access_token}
use logi_track.Auth.Callback.Redirect.{redirect_within, finish}
use logi_track.Auth.Callback.TokenResponse.{
  Exchange, TokenEndpointResponse, valid_callback_input, string_of, seconds_or, same_subject,
  read_bounded_token_response,
}

abbrev pub id_options : AuthConfig → VerifyOptions
id_options c = record {
  issuer = c.issuer;
  audience = some c.client_id;
  algorithms = js "RS256" ∷ [];
  required_claims = js "exp" ∷ js "iat" ∷ js "sub" ∷ js "nonce" ∷ js "token_use" ∷ [];
  max_token_age = some (js "5 minutes");
}

abbrev pub exchange_of : AuthConfig → (verifier code : JsString) → Exchange
exchange_of c code_verifier code = record {
  url = c.auth_base ++ js "/oauth2/token";
  form =
      (js "grant_type", js "authorization_code")
      ∷ (js "client_id", c.client_id)
      ∷ (js "redirect_uri", c.redirect_uri)
      ∷ (js "code_verifier", code_verifier)
      ∷ (js "code", code)
      ∷ [];
}

-- The three checks on the ID token's claims.
unfoldable pub check_id_claims :
    (id_payload access_payload : Fields) → (expected_nonce : JsString) → Result (Unit {0})
check_id_claims id_payload access_payload expected_nonce =
    if not (is_text (property id_payload (js "token_use")) (js "id"))
    then thrown (js "Invalid ID token purpose")
    else if not (is_text (property id_payload (js "nonce")) expected_nonce)
    then thrown (js "OIDC nonce mismatch")
    else if not (same_subject (property id_payload (js "sub")) (property access_payload (js "sub")))
    then thrown (js "OIDC subject mismatch")
    else ok tt

-- `Math.floor(exp - Date.now() / 1000)`: the time in seconds is rounded up.
abbrev pub seconds_left : Fields → ℕ → ℤ
seconds_left payload now_ms = expiry_of payload -ℤ pos ((now_ms + 999) / 1000)

unfoldable pub session_max_age : (token access_payload : Fields) → ℕ → ℤ
session_max_age token access_payload now_ms =
    let left = seconds_left access_payload now_ms in
    min_ℤ (min_ℤ (seconds_or (property token (js "expires_in")) left) left) (pos 3600)

-- What the handler reads of the request: empty where it is missing.
pub record CallbackInput : Type 0 where
  pub code : JsString
  pub state_param : JsString
  pub expected_state : JsString
  pub expected_nonce : JsString
  pub code_verifier : JsString

unfoldable pub input_of : Request → CallbackInput
input_of request = record {
  code = header request.search_params (js "code");
  state_param = header request.search_params (js "state");
  expected_state = text_of (request.cookie state);
  expected_nonce = text_of (request.cookie nonce);
  code_verifier = text_of (request.cookie verifier);
}

unfoldable pub has_valid_input : CallbackInput → Bool
has_valid_input i =
    truthy i.code
    && truthy i.state_param
    && truthy i.expected_state
    && truthy i.expected_nonce
    && truthy i.code_verifier
    && valid_callback_input i.code i.state_param i.expected_state

module _ (p : Platform) where
  -- The new session: the access cookie is set, every other one is cleared.
  unfoldable pub with_session : (token access_payload : Fields) → ℕ → Response → Response
  with_session token access_payload now_ms response = clear_transient p (
      with_cookie legacy_access (cleared p) (
        with_cookie access
          (record {
            value = string_of (property token (js "access_token"));
            options = secure_cookie p (session_max_age token access_payload now_ms) (js "/");
          })
          response))

  -- Both tokens are verified and belong together. `verifyAccessToken` runs beside the ID token's
  -- check; a failure of either is the failure of both.
  unfoldable pub establish :
      Request
      → CallbackInput
      → AuthConfig
      → (token : Fields) → (verified_ms now_ms : ℕ) → Exec JwksCache Response
  establish request i c token verified_ms now_ms = do
    jwks ← cognito_jwks p c.issuer
    access_payload ←
        verify_access_token p (string_of (property token (js "access_token"))) verified_ms
    id_payload ←
        lift (p.jwt_verify (string_of (property token (js "id_token"))) jwks (id_options c))
    checked ← lift (check_id_claims id_payload access_payload i.expected_nonce)
    response ← lift (redirect_within p request (js "/console"))
    lift (ok (with_session token access_payload now_ms response))

  module _ (fetch : Exchange → Option TokenEndpointResponse) where
    unfoldable pub after_read :
        Request
        → CallbackInput
        → AuthConfig
        → (verified_ms now_ms : ℕ) → Option Fields
        → Exec JwksCache Response
    after_read request i c verified_ms now_ms none =
        lift (finish p request (js "invalid_token_response"))
    after_read request i c verified_ms now_ms (some token) =
        establish request i c token verified_ms now_ms

    unfoldable pub after_exchange :
        Request
        → CallbackInput
        → AuthConfig
        → (verified_ms now_ms : ℕ) → Option TokenEndpointResponse
        → Exec JwksCache Response
    after_exchange request i c verified_ms now_ms none = lift (thrown (js "fetch failed"))
    after_exchange request i c verified_ms now_ms (some answer) =
        if not (leb 200 answer.status && leb answer.status 299)
        then lift (finish p request (js "token_exchange_failed"))
        else (do
          token ← lift (read_bounded_token_response p answer)
          after_read request i c verified_ms now_ms token)

    -- The body of the `try`.
    unfoldable pub attempt :
        Request → CallbackInput → (verified_ms now_ms : ℕ) → Exec JwksCache Response
    attempt request i verified_ms now_ms = do
      c ← lift (auth_config p)
      after_exchange request i c verified_ms now_ms (fetch (exchange_of c i.code_verifier i.code))

    abbrev pub caught_by_finish :
        Request → Result Response × JwksCache → Result Response × JwksCache
    caught_by_finish request (ok response, cache) = (ok response, cache)
    caught_by_finish request (thrown e, cache) =
        (finish p request (js "authentication_unavailable"), cache)

    -- `verified_ms` and `now_ms` are `Date.now()` in `verifyAccessToken` and for the session's age.
    unfoldable pub handle :
        Request → (verified_ms now_ms : ℕ) → JwksCache → Result Response × JwksCache
    handle request verified_ms now_ms cache =
        let i = input_of request in
        if not (has_valid_input i)
        then (finish p request (js "invalid_oauth_response"), cache)
        else caught_by_finish request (attempt request i verified_ms now_ms cache)
