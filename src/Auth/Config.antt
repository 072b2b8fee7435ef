-- ===== src/Auth/Config.antt =====
-- web/app/auth/config.ts: the configuration read from the environment.
use logi_track.Base.{
  Bool, true, false, not, ◌&&◌, ◌||◌, Option, none, some, [], ◌∷◌, ◌++◌, ◌==◌, nat_eq, list_eq,
  if◌then◌else◌,
}
use logi_track.Base.Int.{ℤ}
use logi_track.Js.Text.{JsString, js, truthy, trim}
use logi_track.Js.Result.{Result, ok, thrown, ◌>>=◌}
use logi_track.Http.{
  Url, Platform, AuthCookie, state, verifier, nonce, access, legacy_access, CookieOptions,
}

unfoldable pub cookie_name : AuthCookie → JsString
cookie_name state = js "__Host-lt_oauth_state"
cookie_name verifier = js "__Host-lt_pkce_verifier"
cookie_name nonce = js "__Host-lt_oidc_nonce"
cookie_name access = js "__Host-lt_access_token"
cookie_name legacy_access = js "lt_access_token"

-- `text.replace(/\/$/, "")`
unfoldable pub without_last_slash : JsString → JsString
without_last_slash [] = []
without_last_slash (u ∷ []) = if u == b'/' then [] else u ∷ []
without_last_slash (u ∷ v ∷ s) = u ∷ without_last_slash (v ∷ s)

pub record AccessTokenConfig : Type 0 where
  pub issuer : JsString
  pub client_id : JsString

pub record AuthConfig : Type 0 where
  pub auth_base : JsString
  pub issuer : JsString
  pub client_id : JsString
  pub redirect_uri : JsString
  pub post_logout_redirect_uri : JsString

abbrev pub parsed : Option Url → Result Url
parsed none = thrown (js "Invalid URL")
parsed (some url) = ok url

module _ (p : Platform) where
  -- `process.env[name]?.trim()`, with the empty text for `undefined`: both are falsy.
  unfoldable pub trimmed_env : JsString → JsString
  trimmed_env name = elim (p.env name) [ none ↦ [] | some value ↦ trim value ]

  -- `process.env[name] === value`
  unfoldable pub env_is : JsString → JsString → Bool
  env_is name expected = elim (p.env name) [ none ↦ false | some value ↦ value == expected ]

  unfoldable pub required : JsString → Result JsString
  unfolding trimmed_env
  required name =
      if truthy (trimmed_env name)
      then ok (trimmed_env name)
      else thrown (name ++ js " is required for operator authentication")

  is_production : Bool
  unfolding env_is
  is_production = env_is (js "NODE_ENV") (js "production")

  https_checked : JsString → Url → Result Url
  unfolding is_production
  https_checked name url =
      if is_production && not (url.protocol == js "https:")
      then thrown (name ++ js " must use HTTPS in production")
      else if not (url.protocol == js "https:") && not (url.protocol == js "http:")
      then thrown (name ++ js " must use HTTP or HTTPS")
      else ok url

  unfoldable pub validated_url : JsString → Result Url
  unfolding required https_checked
  validated_url name = do
    value ← required name
    url ← parsed (p.new_url value)
    https_checked name url

  plain_checked : JsString → Url → Result Url
  plain_checked name url =
      if truthy url.username || truthy url.password || truthy url.search || truthy url.hash
      then thrown (name ++ js " must not contain credentials, query, or fragment")
      else ok url

  unfoldable pub endpoint : JsString → Result JsString
  unfolding validated_url plain_checked
  endpoint name = do
    url ← validated_url name
    plain ← plain_checked name url
    ok (without_last_slash plain.href)

  unfoldable pub callback : JsString → Result JsString
  unfolding validated_url plain_checked
  callback name = do url ← validated_url name; plain ← plain_checked name url; ok plain.href

  unfoldable pub access_token_config : Result AccessTokenConfig
  unfolding endpoint required
  access_token_config = do
    issuer ← endpoint (js "COGNITO_ISSUER_URI")
    client_id ← required (js "COGNITO_CLIENT_ID")
    ok (record { issuer = issuer; client_id = client_id })

  unfoldable pub auth_config : Result AuthConfig
  unfolding endpoint access_token_config callback
  auth_config = do
    auth_base ← endpoint (js "COGNITO_AUTHORIZATION_BASE_URL")
    c ← access_token_config
    redirect_uri ← callback (js "OIDC_REDIRECT_URI")
    post_logout_redirect_uri ← callback (js "OIDC_POST_LOGOUT_REDIRECT_URI")
    ok (record {
      auth_base = auth_base;
      issuer = c.issuer;
      client_id = c.client_id;
      redirect_uri = redirect_uri;
      post_logout_redirect_uri = post_logout_redirect_uri;
    })

  unfoldable pub application_origin : JsString → Result JsString
  unfolding trimmed_env env_is callback
  application_origin fallback =
      if truthy (trimmed_env (js "OIDC_REDIRECT_URI"))
      then (do uri ← callback (js "OIDC_REDIRECT_URI"); url ← parsed (p.new_url uri); ok url.origin)
      else if env_is (js "AUTH_REQUIRED") (js "true")
      then thrown (js "OIDC_REDIRECT_URI is required when operator authentication is enabled")
      else ok fallback

  -- `sha256UrlSafe`
  abbrev pub sha256_url_safe : JsString → JsString
  sha256_url_safe value = p.sha256_base64url value

  unfoldable pub secure_cookie : ℤ → JsString → CookieOptions
  unfolding is_production
  secure_cookie max_age path = record {
    http_only = true;
    secure = is_production;
    path = path;
    max_age = max_age;
    expires = none;
  }
