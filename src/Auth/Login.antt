-- ===== src/Auth/Login.antt =====
-- web/app/auth/login/route.ts: `GET`, the start of a login.
pub mod Roundtrip
use logi_track.Base.{List, none, some, [], ◌∷◌, ◌++◌}
use logi_track.Base.Int.{pos}
use logi_track.Js.Text.{JsString, js}
use logi_track.Js.Result.{Result, ok, thrown, ◌>>=◌}
use logi_track.Http.{Url, Platform, state, verifier, nonce, Cookie, Response, no_body, error_json}
use logi_track.Auth.Config.{AuthConfig, auth_config, parsed, secure_cookie, sha256_url_safe}
use logi_track.Auth.Cookies.{with_cookie}

-- What `randomUrlSafe` draws.
pub record Secrets : Type 0 where
  pub drawn_state : JsString
  pub drawn_nonce : JsString
  pub drawn_verifier : JsString

abbrev pub login_failed : Response
login_failed = record {
  status = 503;
  location = none;
  headers = (js "cache-control", js "no-store") ∷ [];
  cookies = [];
  body = error_json (js "Operator authentication is not configured");
}

-- The `try` and its `catch`
abbrev pub login_answer : Result Response → Response
login_answer (ok response) = response
login_answer (thrown e) = login_failed

module _ (p : Platform) where
  abbrev pub login_cookie : JsString → Cookie
  login_cookie value = record { value = value; options = secure_cookie p (pos 300) (js "/") }

  -- The search parameters of the authorization URL
  unfoldable pub authorize_query : AuthConfig → Secrets → List (JsString × JsString)
  authorize_query c secrets =
      (js "response_type", js "code")
      ∷ (js "client_id", c.client_id)
      ∷ (js "redirect_uri", c.redirect_uri)
      ∷ (js "scope", js "openid profile")
      ∷ (js "state", secrets.drawn_state)
      ∷ (js "nonce", secrets.drawn_nonce)
      ∷ (js "prompt", js "login")
      ∷ (js "code_challenge", sha256_url_safe p secrets.drawn_verifier)
      ∷ (js "code_challenge_method", js "S256")
      ∷ []

  unfoldable pub authorize : AuthConfig → Secrets → Url → Response
  authorize c secrets url = with_cookie verifier (login_cookie secrets.drawn_verifier) (
      with_cookie nonce (login_cookie secrets.drawn_nonce) (
        with_cookie state (login_cookie secrets.drawn_state) (record {
          status = 307;
          location = some (record { url = url; query = authorize_query c secrets });
          headers = (js "cache-control", js "no-store") ∷ [];
          cookies = [];
          body = no_body;
        })))

  -- The body of the `try`.
  unfoldable pub start_login : Secrets → Result Response
  start_login secrets = do
    c ← auth_config p
    url ← parsed (p.new_url (c.auth_base ++ js "/oauth2/authorize"))
    ok (authorize c secrets url)

  unfoldable pub login : Secrets → Response
  login secrets = login_answer (start_login secrets)
