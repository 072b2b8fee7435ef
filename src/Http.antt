-- ===== src/Http.antt =====
-- The parts of the platform that the server code calls, as data and as one record of parameters:
-- URLs, cookies, responses (Next.js and the WHATWG types), `process.env`, and `jose`.
use logi_track.Base.{
  ℕ, Bool, Option, none, some, List, [], ◌≡◌, ◌↔◌, true, arith, Eq, nat_beq, nat_eq, list_eq,
}
use logi_track.Base.Int.{ℤ}
use logi_track.Js.Text.{JsString}
use logi_track.Js.Result.{Result}
use logi_track.Js.Json.{Json, Fields}
use logi_track.Js.Dict.{Dict, get}
use logi_track.Bytes.{ByteStream}

-- A parsed URL, as far as it is read. `href` is its `toString()`.
pub record Url : Type 0 where
  pub href : JsString
  pub origin : JsString
  pub protocol : JsString
  pub username : JsString
  pub password : JsString
  pub search : JsString
  pub hash : JsString

-- A key set that is fetched from its URL when it is first needed.
pub record Jwks : Type 0 where
  pub url : Url
  pub timeout_duration : ℕ

-- The options of `jwtVerify`.
pub record VerifyOptions : Type 0 where
  pub issuer : JsString
  pub audience : Option JsString
  pub algorithms : List JsString
  pub required_claims : List JsString
  pub max_token_age : Option JsString

-- What is not in the repository: the environment, the URL parser (with and without a base), the
-- decoding of UTF-8 and JSON (`none`: it throws), the verification of a signed token, which gives its
-- claims, and node:crypto's `createHash("sha256").update(value).digest("base64url")`.
pub record Platform : Type 0 where
  pub env : JsString → Option JsString
  pub new_url : JsString → Option Url
  pub resolve_url : JsString → JsString → Option Url
  pub decode_json : List ℕ → Option Json
  pub jwt_verify : JsString → Jwks → VerifyOptions → Result Fields
  pub sha256_base64url : JsString → JsString

-- The cookies of `authCookie`.
pub data AuthCookie : Type 0 where
  state verifier nonce access legacy_access : AuthCookie

cookie_index : AuthCookie → ℕ
cookie_index state = 0
cookie_index verifier = 1
cookie_index nonce = 2
cookie_index access = 3
cookie_index legacy_access = 4

unfoldable pub cookie_beq : AuthCookie → AuthCookie → Bool
unfolding cookie_index
cookie_beq a b = nat_beq (cookie_index a) (cookie_index b)

pub cookie_beq_iff : (a b : AuthCookie) → (cookie_beq a b ≡ true) ↔ (a ≡ b)
unfolding cookie_beq
cookie_beq_iff a b = ground arith

instance abbrev pub cookie_eq : Eq AuthCookie
cookie_eq = record { beq = cookie_beq; beq_iff = cookie_beq_iff }

-- `sameSite` is always "lax".
pub record CookieOptions : Type 0 where
  pub http_only : Bool
  pub secure : Bool
  pub path : JsString
  pub max_age : ℤ
  pub expires : Option ℕ

pub record Cookie : Type 0 where
  pub value : JsString
  pub options : CookieOptions

-- A redirect target: a URL, and the search parameters set on it.
pub record Location : Type 0 where
  pub url : Url
  pub query : List (JsString × JsString)

pub data Body : Type 0 where
  no_body : Body
  error_json : JsString → Body
  streamed : ByteStream → Body
  bounded : ByteStream → Body

-- Header names in lower case.
pub record Response : Type 0 where
  pub status : ℕ
  pub location : Option Location
  pub headers : Dict JsString JsString
  pub cookies : Dict AuthCookie Cookie
  pub body : Body

-- A request, as far as the handlers read it: `origin` is `request.nextUrl.origin`.
pub record Request : Type 0 where
  pub method : JsString
  pub origin : JsString
  pub pathname : JsString
  pub search : JsString
  pub search_params : Dict JsString JsString
  pub headers : Dict JsString JsString
  pub cookie : AuthCookie → Option JsString
  pub body : Option ByteStream

-- `headers.get(name)`, with the empty text for `null`: the code asks only whether it is truthy, or
-- compares it with texts that are not empty.
unfoldable pub header : Dict JsString JsString → JsString → JsString
header headers name = elim (get headers name) [ none ↦ [] | some value ↦ value ]
