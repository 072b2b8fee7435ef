-- ===== src/Auth/AccessToken.antt =====
-- web/app/auth/access-token.ts: the cached key sets and the checks on an access token.
pub mod Claims
pub mod Verify
use logi_track.Base.{
  ℕ, ◌+◌, ◌/◌, Bool, true, false, not, ◌&&◌, ◌||◌, Option, none, some, List, [], ◌∷◌, ◌++◌, ◌==◌,
  nat_eq, list_eq, leb, ltb, if◌then◌else◌, length, any,
}
use logi_track.Base.Int.{ℤ, pos, ◌-ℤ◌, leb_ℤ, ltb_ℤ}
use logi_track.Js.Text.{JsString, js, trim}
use logi_track.Js.Result.{Result, ok, thrown}
use logi_track.Js.Exec.{Exec, lift, continue, ◌>>=◌}
use logi_track.Js.Dict.{Dict, get, set}
use logi_track.Js.Json.{Json, number, integer, text, Fields, property, is_text}
use logi_track.Http.{Url, Platform, Jwks, VerifyOptions}
use logi_track.Auth.Config.{access_token_config}

abbrev pub allowed_clock_skew_seconds : ℕ
allowed_clock_skew_seconds = 60

abbrev pub max_access_token_lifetime_seconds : ℕ
max_access_token_lifetime_seconds = 3660

abbrev pub max_subject_characters : ℕ
max_subject_characters = 120

-- The module's map from an issuer to its key set.
abbrev pub JwksCache : Type 0
JwksCache = Dict JsString Jwks

-- `/[\u0000-\u001f\u007f-\u009f]/u`, of one character
abbrev pub is_control : ℕ → Bool
is_control u = leb u 0x1f || (leb 0x7f u && leb u 0x9f)

unfoldable pub valid_subject : Json → Bool
valid_subject (text sub) =
    leb 1 (length sub)
    && leb (length sub) max_subject_characters
    && trim sub == sub
    && not (any is_control sub)
valid_subject _ = false

-- `now` is in seconds.
unfoldable pub valid_issued_at : ℕ → Json → Bool
valid_issued_at now (number (integer iat)) = leb_ℤ iat (pos (now + allowed_clock_skew_seconds))
valid_issued_at now _ = false

unfoldable pub valid_expiry : ℕ → Json → Bool
valid_expiry now (number (integer exp)) = ltb_ℤ (pos (now + 30)) exp
valid_expiry now _ = false

-- Both numbers have passed the tests above.
unfoldable pub valid_lifetime : Json → Json → Bool
valid_lifetime (number (integer exp)) (number (integer iat)) =
    ltb_ℤ iat exp && leb_ℤ (exp -ℤ iat) (pos max_access_token_lifetime_seconds)
valid_lifetime _ _ = false

-- The checks of `verifyAccessToken` on the claims that the signature covers.
unfoldable pub check_claims : JsString → ℕ → Fields → Result Fields
check_claims client_id now payload =
    if not (is_text (property payload (js "token_use")) (js "access"))
      || not (is_text (property payload (js "client_id")) client_id)
    then thrown (js "Invalid access token claims")
    else if not (valid_subject (property payload (js "sub")))
    then thrown (js "Access token subject is invalid")
    else if not (valid_issued_at now (property payload (js "iat")))
    then thrown (js "Access token issued-at time is invalid")
    else if not (valid_expiry now (property payload (js "exp")))
    then thrown (js "Access token is expired or near expiry")
    else if not (valid_lifetime (property payload (js "exp")) (property payload (js "iat")))
    then thrown (js "Access token lifetime is invalid")
    else ok payload

abbrev pub access_options : JsString → VerifyOptions
access_options issuer = record {
  issuer = issuer;
  audience = none;
  algorithms = js "RS256" ∷ [];
  required_claims = js "exp" ∷ js "iat" ∷ js "sub" ∷ js "token_use" ∷ js "client_id" ∷ [];
  max_token_age = none;
}

module _ (p : Platform) where
  -- `createRemoteJWKSet(new URL(…), { timeoutDuration: jwksTimeoutMs })`
  unfoldable pub create_jwks : JsString → Result Jwks
  create_jwks issuer = elim (p.new_url (issuer ++ js "/.well-known/jwks.json")) [
    | none ↦ thrown (js "Invalid URL")
    | some url ↦ ok (record { url = url; timeout_duration = 5000 })
  ]

  abbrev remember : JsString → JwksCache → Result Jwks → Result Jwks × JwksCache
  remember issuer cache (ok jwks) = (ok jwks, set cache issuer jwks)
  remember issuer cache (thrown e) = (thrown e, cache)

  unfoldable pub cognito_jwks : JsString → Exec JwksCache Jwks
  cognito_jwks issuer cache = elim (get cache issuer) [
    | none ↦ remember issuer cache (create_jwks issuer)
    | some jwks ↦ (ok jwks, cache)
  ]

  -- `now_ms` is `Date.now()`.
  unfoldable pub verify_access_token : JsString → ℕ → Exec JwksCache Fields
  verify_access_token token now_ms = do
    c ← lift (access_token_config p)
    jwks ← cognito_jwks c.issuer
    payload ← lift (p.jwt_verify token jwks (access_options c.issuer))
    lift (check_claims c.client_id (now_ms / 1000) payload)
