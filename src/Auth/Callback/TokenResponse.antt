-- ===== src/Auth/Callback/TokenResponse.antt =====
-- web/app/auth/callback/route.ts: the checks on the callback's input and on the token response.
use logi_track.Base.{
  ℕ, ◌*◌, Bool, true, false, not, ◌&&◌, Option, none, some, List, [], ◌==◌, nat_eq, list_eq, leb,
  if◌then◌else◌, length,
}
use logi_track.Base.Int.{ℤ, pos, ltb_ℤ}
use logi_track.Js.Text.{JsString, js, to_lower_case}
use logi_track.Js.Unicode.{utf8}
use logi_track.Js.Result.{Result, ok, thrown}
use logi_track.Js.Dict.{Dict}
use logi_track.Js.Json.{Json, undefined, number, integer, text, object, Fields, property, is_text}
use logi_track.Bytes.{ByteStream, buffered, too_large, unreadable, read_bounded}
use logi_track.Http.{Platform, header}
use logi_track.Headers.{media_type, exceeds}

abbrev pub max_token_response_bytes : ℕ
max_token_response_bytes = 64 * 1024

abbrev pub max_access_token_characters : ℕ
max_access_token_characters = 32 * 1024

abbrev pub max_id_token_characters : ℕ
max_id_token_characters = 16 * 1024

abbrev pub max_authorization_code_characters : ℕ
max_authorization_code_characters = 4096

abbrev pub max_state_characters : ℕ
max_state_characters = 256

-- The form that is posted to the token endpoint, and its answer.
pub record Exchange : Type 0 where
  pub url : JsString
  pub form : List (JsString × JsString)

pub record TokenEndpointResponse : Type 0 where
  pub status : ℕ
  pub headers : Dict JsString JsString
  pub body : Option ByteStream

-- Equal length and `timingSafeEqual` of the UTF-8 bytes.
unfoldable pub valid_callback_input : JsString → JsString → JsString → Bool
valid_callback_input code state_ expected_state =
    leb (length code) max_authorization_code_characters
    && leb (length state_) max_state_characters
    && utf8 state_ == utf8 expected_state

-- A string of 1 to `limit` units
unfoldable pub sized_text : ℕ → Json → Bool
sized_text limit (text s) = leb 1 (length s) && leb (length s) limit
sized_text limit _ = false

unfoldable pub is_bearer : Json → Bool
is_bearer (text s) = to_lower_case s == js "bearer"
is_bearer _ = false

unfoldable pub valid_expires_in : Json → Bool
valid_expires_in undefined = true
valid_expires_in (number (integer t)) = ltb_ℤ (pos 0) t
valid_expires_in _ = false

unfoldable pub is_token_response : Json → Bool
is_token_response (object token) =
    sized_text max_access_token_characters (property token (js "access_token"))
    && sized_text max_id_token_characters (property token (js "id_token"))
    && is_bearer (property token (js "token_type"))
    && valid_expires_in (property token (js "expires_in"))
is_token_response _ = false

-- The properties of a token response, once it is known to be one.
abbrev pub string_of : Json → JsString
string_of (text s) = s
string_of _ = []

-- `token.expires_in ?? otherwise`
abbrev pub seconds_or : Json → ℤ → ℤ
seconds_or (number (integer t)) otherwise = t
seconds_or _ otherwise = otherwise

-- Both are strings: the second has passed `verifyAccessToken`.
unfoldable pub same_subject : Json → Json → Bool
same_subject found (text sub) = is_text found sub
same_subject found _ = false

abbrev pub fields_of : Json → Option Fields
fields_of (object token) = some token
fields_of _ = none

abbrev pub checked_token : Option Json → Option Fields
checked_token none = none
checked_token (some parsed_json) =
    if is_token_response parsed_json then fields_of parsed_json else none

module _ (p : Platform) where
  -- A reader that fails, or cannot be cancelled, throws.
  unfoldable pub read_body : Option ByteStream → Result (Option Fields)
  read_body none = ok none
  read_body (some s) = elim (read_bounded max_token_response_bytes s) [
    | buffered bytes ↦ ok (checked_token (p.decode_json bytes))
    | too_large ↦ ok none
    | unreadable ↦ thrown (js "The stream could not be read")
  ]

  -- `null` is `none`.
  unfoldable pub read_bounded_token_response : TokenEndpointResponse → Result (Option Fields)
  read_bounded_token_response response =
      if not (media_type (header response.headers (js "content-type")) == js "application/json")
      then ok none
      else if exceeds max_token_response_bytes (header response.headers (js "content-length"))
      then ok none
      else read_body response.body
