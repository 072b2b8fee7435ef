-- ===== src/Auth/RequestOrigin.antt =====
-- web/app/auth/request-origin.ts: the cross-site check on state-changing requests.
use logi_track.Base.{
  Bool, true, false, ◌||◌, Option, none, some, ◌==◌, nat_eq, list_eq, if◌then◌else◌, ◌≡◌, refl, ◌⊎◌,
  inl, inr, arith, eq_iff, [], ◌∷◌,
}
use logi_track.Js.Text.{JsString, js, truthy}
use logi_track.Js.Result.{Result, ok, thrown}
use logi_track.Http.{Url, Platform, Request, header}
use logi_track.Auth.Config.{application_origin}

abbrev is_ok_text : Result JsString → JsString → Bool
is_ok_text (ok s) t = t == s
is_ok_text (thrown e) t = false

-- The body of the `try`: a URL or an origin that cannot be had counts as cross-site.
abbrev origin_matches : Platform → JsString → Option Url → Bool
origin_matches p fallback none = false
origin_matches p fallback (some url) = is_ok_text (application_origin p fallback) url.origin

unfoldable pub is_same_origin_mutation : Platform → Request → Bool
is_same_origin_mutation p request =
    if truthy (header request.headers (js "origin"))
    then origin_matches p request.origin (p.new_url (header request.headers (js "origin")))
    else header request.headers (js "sec-fetch-site") == js "same-origin"
      || header request.headers (js "sec-fetch-site") == js "none"

-- What the check accepts: a request whose Origin header names the application's own origin, or one
-- without that header which the browser marks as same-origin or as made by the user.
abbrev pub IsSameOrigin : Platform → Request → Type 0
IsSameOrigin p request =
    ((url : Url) × (p.new_url (header request.headers (js "origin")) ≡ some url)
      × (application_origin p request.origin ≡ ok url.origin))
    ⊎ ((header request.headers (js "origin") ≡ [])
        × ((header request.headers (js "sec-fetch-site") ≡ js "same-origin")
            ⊎ (header request.headers (js "sec-fetch-site") ≡ js "none")))

is_ok_text-eq : (r : Result JsString) (t : JsString) → is_ok_text r t ≡ true → r ≡ ok t
is_ok_text-eq (ok s) t h = ground (arith, eq_iff t s)
is_ok_text-eq (thrown e) t h = cc

origin_matches-inv :
    (p : Platform) (fallback : JsString) (o : Option Url)
    → origin_matches p fallback o ≡ true
    → (url : Url) × (o ≡ some url) × (application_origin p fallback ≡ ok url.origin)
origin_matches-inv p fallback none h = cc
origin_matches-inv p fallback (some url) h = (url, refl, is_ok_text-eq _ _ h)

-- A request passes the check only if its Origin header is a URL with the application's own origin, or
-- if it has no such header and its Sec-Fetch-Site header is `same-origin` or `none`.
pub is_same_origin_mutation_sound :
    (p : Platform) (request : Request)
    → is_same_origin_mutation p request ≡ true
    → IsSameOrigin p request
unfolding is_same_origin_mutation
is_same_origin_mutation_sound p request h = by_header (header request.headers (js "origin")) refl
  where
    by_header : (o : JsString) → header request.headers (js "origin") ≡ o → IsSameOrigin p request
    by_header [] e =
        let fetch_site = header request.headers (js "sec-fetch-site") in
        inr (e, ground (arith, eq_iff fetch_site (js "same-origin"), eq_iff fetch_site (js "none")))
    by_header (u ∷ o) e = inl (origin_matches-inv p request.origin _ (ground arith))
