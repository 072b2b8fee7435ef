-- ===== src/Examples/Fixtures.antt =====
-- A deployment, an operator's tokens and a browser's requests.
use logi_track.Base.{ℕ, Option, none, some, [], ◌∷◌, ◌++◌, nat_eq, list_eq, false}
use logi_track.Base.Int.{pos}
use logi_track.Js.Text.{JsString, js}
use logi_track.Js.Result.{Result, ok}
use logi_track.Js.Dict.{Dict, get}
use logi_track.Js.Json.{text, number, integer, object, Fields, end, field}
use logi_track.Bytes.{done, chunk, ByteStream}
use logi_track.Http.{
  Url, Platform, Jwks, VerifyOptions, Request, AuthCookie, state, verifier, nonce, access,
}
use logi_track.Auth.Callback.TokenResponse.{Exchange, TokenEndpointResponse}

abbrev pub variables : Dict JsString JsString
variables =
    (js "NODE_ENV", js "production")
    ∷ (js "AUTH_REQUIRED", js "true")
    ∷ (js "COGNITO_ISSUER_URI", js "https://i.test")
    ∷ (js "COGNITO_CLIENT_ID", js "client")
    ∷ (js "COGNITO_AUTHORIZATION_BASE_URL", js "https://a.test")
    ∷ (js "OIDC_REDIRECT_URI", js "https://app.test/cb")
    ∷ (js "OIDC_POST_LOGOUT_REDIRECT_URI", js "https://app.test/l")
    ∷ []

-- Every URL of this deployment has the same origin.
abbrev pub url_of : JsString → Url
url_of href = record {
  href = href;
  origin = js "https://app.test";
  protocol = js "https:";
  username = [];
  password = [];
  search = [];
  hash = [];
}

abbrev pub access_claims : Fields
access_claims = field (js "token_use") (text (js "access")) (
    field (js "client_id") (text (js "client")) (
      field (js "sub") (text (js "op")) (
        field (js "iat") (number (integer (pos 1000)))
          (field (js "exp") (number (integer (pos 4000))) end))))

abbrev pub id_claims : Fields
id_claims =
    field (js "token_use") (text (js "id"))
      (field (js "nonce") (text (js "n")) (field (js "sub") (text (js "op")) end))

abbrev pub token_json : Fields
token_json = field (js "access_token") (text (js "at")) (
    field (js "id_token") (text (js "it")) (
      field (js "token_type") (text (js "Bearer"))
        (field (js "expires_in") (number (integer (pos 3600))) end)))

-- The ID token is the one that is asked for with an audience.
abbrev verify : JsString → Jwks → VerifyOptions → Result Fields
verify token jwks options = elim options.audience [
  | none ↦ ok access_claims
  | some client ↦ ok id_claims
]

abbrev pub deployment : Platform
deployment = record {
  env = λ name. get variables name;
  new_url = λ value. some (url_of value);
  resolve_url = λ path base. some (url_of (base ++ path));
  decode_json = λ bytes. some (object token_json);
  jwt_verify = verify;
  sha256_base64url = λ value. js "sha256-" ++ value;
}

-- 1,500 seconds after the epoch
abbrev pub now_ms : ℕ
now_ms = 1500000

abbrev no_cookie : AuthCookie → Option JsString
no_cookie name = none

abbrev pub page_request : Request
page_request = record {
  method = js "GET";
  origin = js "https://app.test";
  pathname = js "/console";
  search = [];
  search_params = [];
  headers = [];
  cookie = no_cookie;
  body = none;
}

abbrev login_cookies : AuthCookie → Option JsString
login_cookies state = some (js "s")
login_cookies nonce = some (js "n")
login_cookies verifier = some (js "v")
login_cookies _ = none

-- The browser's return from the provider
abbrev pub callback_request : Request
callback_request = record page_request {
  pathname = js "/auth/callback";
  search_params = (js "code", js "c") ∷ (js "state", js "s") ∷ [];
  cookie = login_cookies;
}

abbrev pub two_bytes : ByteStream
two_bytes = record { reads = chunk (1 ∷ []) (chunk (2 ∷ []) done); cancel_fails = false }

abbrev pub token_answer : TokenEndpointResponse
token_answer = record {
  status = 200;
  headers = (js "content-type", js "application/json") ∷ [];
  body = some two_bytes;
}

abbrev pub provider : Exchange → Option TokenEndpointResponse
provider exchange = some token_answer

abbrev access_cookie : AuthCookie → Option JsString
access_cookie access = some (js "at")
access_cookie _ = none

-- A command from the application's own page, with a body
abbrev pub command_request : Request
command_request = record page_request {
  method = js "POST";
  pathname = js "/backend/api/orders";
  headers =
      (js "sec-fetch-site", js "same-origin") ∷ (js "content-type", js "application/json") ∷ [];
  cookie = access_cookie;
  body = some two_bytes;
}

abbrev pub signed_in_request : Request
signed_in_request = record page_request { cookie = access_cookie }
