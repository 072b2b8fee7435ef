-- ===== src/Auth/Cookies.antt =====
-- The cookie operations that the handlers share, and the readings of a cookie and of a claim.
use logi_track.Base.{
  ◌≡◌, refl, ◌⊎◌, inl, inr, true, if◌then◌else◌, Option, none, some, List, [], ◌∷◌,
}
use logi_track.Base.Int.{ℤ, pos}
use logi_track.Js.Text.{JsString, js, truthy}
use logi_track.Js.Dict.{set}
use logi_track.Js.Json.{number, integer, Fields, property}
use logi_track.Http.{Platform, AuthCookie, state, verifier, nonce, cookie_eq, Cookie, Response}
use logi_track.Auth.Config.{secure_cookie}

-- A text that may be missing, for code that asks only whether it is truthy.
abbrev pub text_of : Option JsString → JsString
text_of none = []
text_of (some s) = s

-- The integer that `payload.exp` is, once `verifyAccessToken` has checked it.
unfoldable pub expiry_of : Fields → ℤ
expiry_of payload = elim (property payload (js "exp")) [
  | number n ↦ elim n [ integer t ↦ t | _ ↦ pos 0 ]
  | _ ↦ pos 0
]

-- `response.cookies.set(name, value, options)`
unfoldable pub with_cookie : AuthCookie → Cookie → Response → Response
with_cookie name cookie response = record response { cookies = set response.cookies name cookie }

-- The empty value with `{ ...secureCookie(0, "/"), expires: new Date(0) }`
unfoldable pub cleared : Platform → Cookie
cleared p = record {
  value = [];
  options = record (secure_cookie p (pos 0) (js "/")) { expires = some 0 };
}

-- `for (const name of names) response.cookies.set(name, "", …)`
unfoldable pub clear_all : Platform → List AuthCookie → Response → Response
unfolding with_cookie
clear_all p [] response = response
clear_all p (name ∷ names) response = clear_all p names (with_cookie name (cleared p) response)

abbrev pub transient_cookies : List AuthCookie
transient_cookies = state ∷ nonce ∷ verifier ∷ []

-- `clearTransient(response)`
unfoldable pub clear_transient : Platform → Response → Response
unfolding clear_all
clear_transient p response = clear_all p transient_cookies response

-- `current || legacy`, where it is not empty, is the value of one of the two.
pub chosen_cookie :
    (current legacy : Option JsString)
    → let token = if truthy (text_of current) then text_of current else text_of legacy in
      truthy token ≡ true → (current ≡ some token) ⊎ (legacy ≡ some token)
chosen_cookie none none h = cc
chosen_cookie none (some s) h = inr refl
chosen_cookie (some []) none h = cc
chosen_cookie (some []) (some s) h = inr refl
chosen_cookie (some (u ∷ s)) legacy h = inl refl
