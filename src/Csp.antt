-- ===== src/Csp.antt =====
-- web/csp.ts: the content security policy.
pub mod Reading
pub mod Directives
use logi_track.Base.{
  Bool, true, false, not, ◌&&◌, ◌||◌, Option, none, some, List, [], ◌∷◌, ◌++◌, ◌==◌, nat_eq,
  list_eq, leb, if◌then◌else◌, all, any, ℕ,
}
use logi_track.Js.Text.{JsString, js, truthy, starts_with, is_digit, join}
use logi_track.Js.Result.{Result, ok, thrown, ◌>>=◌}
use logi_track.Http.{Url, Platform}
use logi_track.Auth.Config.{parsed, env_is}
use logi_track.Auth.Cookies.{text_of}

abbrev pub is_http : Url → Bool
is_http url = url.protocol == js "http:" || url.protocol == js "https:"

abbrev pub origin_of : JsString → Url → Result (Option JsString)
origin_of name url =
    if not (is_http url) || truthy url.username || truthy url.password
    then thrown (name ++ js " must be an HTTP(S) URL without credentials")
    else ok (some url.origin)

-- `value || otherwise`
abbrev pub text_or : JsString → JsString → JsString
text_or value otherwise = if truthy value then value else otherwise

-- `/^[A-Za-z0-9+/=]+$/`, of one character
abbrev pub is_nonce_unit : ℕ → Bool
is_nonce_unit u =
    (leb b'A' u && leb u b'Z')
    || (leb b'a' u && leb u b'z')
    || is_digit u
    || u == b'+'
    || u == b'/'
    || u == b'='

unfoldable pub is_nonce : JsString → Bool
is_nonce nonce = truthy nonce && all is_nonce_unit nonce

-- `values.indexOf(value) === index`: the first of equal values stays. `seen` are the values before.
unfoldable pub first_of_each : (seen values : List JsString) → List JsString
first_of_each seen [] = []
first_of_each seen (v ∷ values) =
    let rest = first_of_each (v ∷ seen) values in if any (λ w. w == v) seen then rest else v ∷ rest

-- `Boolean(value)`
unfoldable pub given : List (Option JsString) → List JsString
given [] = []
given (none ∷ values) = given values
given (some v ∷ values) = let rest = given values in if truthy v then v ∷ rest else rest

module _ (p : Platform) where
  -- `undefined` is `none`.
  unfoldable pub source_origin : (value name : JsString) → Bool → Result (Option JsString)
  source_origin value name allow_relative =
      if allow_relative && starts_with value (js "/") && not (starts_with value (js "//"))
      then ok none
      else (do url ← parsed (p.new_url value); origin_of name url)

  unfoldable pub api_origin : Result (Option JsString)
  api_origin =
      source_origin
        (text_or (text_of (p.env (js "NEXT_PUBLIC_API_URL"))) (js "http://localhost:8080"))
        (js "NEXT_PUBLIC_API_URL") true

  unfoldable pub map_origin : Result (Option JsString)
  map_origin =
      source_origin
        (text_or (text_of (p.env (js "NEXT_PUBLIC_MAP_STYLE_URL")))
          (js "https://tiles.openfreemap.org/styles/liberty"))
        (js "NEXT_PUBLIC_MAP_STYLE_URL") false

  abbrev pub connect_sources : (api map : Option JsString) → JsString
  connect_sources api map =
      join (js " ") (first_of_each [] (given (some (js "'self'") ∷ api ∷ map ∷ [])))

  unfoldable pub script_sources : JsString → JsString
  script_sources nonce =
      if env_is p (js "NODE_ENV") (js "development")
      then js "script-src 'self' 'nonce-" ++ nonce ++ js "' 'strict-dynamic' 'unsafe-eval'"
      else js "script-src 'self' 'nonce-" ++ nonce ++ js "' 'strict-dynamic'"

  unfoldable pub directives : (api map : Option JsString) → JsString → List JsString
  directives api map nonce =
      js "default-src 'self'"
      ∷ js "base-uri 'self'"
      ∷ (js "connect-src " ++ connect_sources api map)
      ∷ js "font-src 'self' data:"
      ∷ js "form-action 'self'"
      ∷ js "frame-ancestors 'none'"
      ∷ js "frame-src 'none'"
      ∷ (js "img-src 'self' data: blob: " ++ text_of map)
      ∷ js "media-src 'none'"
      ∷ js "object-src 'none'"
      ∷ script_sources nonce
      ∷ js "style-src 'self'"
      ∷ (js "style-src-elem 'self' 'nonce-" ++ nonce ++ js "'")
      ∷ js "style-src-attr 'unsafe-inline'"
      ∷ js "worker-src 'self' blob:"
      ∷ []

  -- The two origins are read when the module loads: where that throws, so does every use.
  unfoldable pub content_security_policy : JsString → Result JsString
  content_security_policy nonce = do
    api ← api_origin
    map ← map_origin
    (if not (is_nonce nonce)
        then thrown (js "CSP nonce is invalid")
        else ok (join (js "; ") (directives api map nonce)))
