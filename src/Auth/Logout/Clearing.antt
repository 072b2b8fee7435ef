-- ===== src/Auth/Logout/Clearing.antt =====
-- web/app/auth/logout/route.ts: the answers of a logout.
use logi_track.Base.{
  ◌≡◌, refl, ◌⊎◌, inl, inr, false, some, list_eq, nat_eq, Bool-cases, Option-cases, [], ◌∷◌, ◌++◌,
  none, sym, Option,
}
use logi_track.Js.Text.{JsString, js}
use logi_track.Js.Result.{Result, ok, thrown, >>=-eq-ok}
use logi_track.Js.Dict.{get, set}
use logi_track.Http.{
  Platform, Request, AuthCookie, state, verifier, nonce, access, legacy_access, cookie_eq,
  cookie_beq, Response, Url, Location,
}
use logi_track.Auth.Config.{AuthConfig, auth_config, parsed, application_origin}
use logi_track.Auth.Cookies.{cleared, clear_all, with_cookie}
use logi_track.Auth.RequestOrigin.{
  is_same_origin_mutation, IsSameOrigin, is_same_origin_mutation_sound,
}
use logi_track.Auth.Logout.{
  cross_origin_logout, provider_logout, destination_from, logged_out, logout,
}

-- Every cookie of `authCookie` is removed.
abbrev pub AllCleared : Platform → Response → Type 0
AllCleared p r = (name : AuthCookie) → get r.cookies name ≡ some (cleared p)

-- The provider's logout for the configured client
abbrev pub IsProviderLogout : Platform → Location → Type 0
IsProviderLogout p target =
    (c : AuthConfig) × (url : Url) × (auth_config p ≡ ok c)
    × (p.new_url (c.auth_base ++ js "/logout") ≡ some url)
    × (target ≡ record {
      url = url;
      query = (js "client_id", c.client_id) ∷ (js "logout_uri", c.post_logout_redirect_uri) ∷ [];
    })

-- The page `/login` of the application's own origin
abbrev pub IsLoginPage : Platform → Request → Location → Type 0
IsLoginPage p request target =
    (origin : JsString) × (url : Url) × (application_origin p request.origin ≡ ok origin)
    × (p.resolve_url (js "/login") origin ≡ some url)
    × (target ≡ record { url = url; query = [] })

-- The configuration cannot be read, or its logout is no URL.
abbrev pub HasNoProvider : Platform → Type 0
HasNoProvider p =
    ((reason : JsString) × (auth_config p ≡ thrown reason))
    ⊎ ((c : AuthConfig) × (auth_config p ≡ ok c) × (p.new_url (c.auth_base ++ js "/logout") ≡ none))

-- Where a logged-out browser goes
abbrev pub IsDestination : Platform → Request → Location → Type 0
IsDestination p request target =
    IsProviderLogout p target ⊎ (HasNoProvider p × IsLoginPage p request target)

parsed-eq-ok : (o : Option Url) (url : Url) → parsed o ≡ ok url → o ≡ some url
parsed-eq-ok none url h = cc
parsed-eq-ok (some u) url h = cc

module _ (p : Platform) where
  logged_out-AllCleared : (target : Location) → AllCleared p (logged_out p target)
  unfolding logged_out clear_all with_cookie cookie_beq get set
  logged_out-AllCleared target state = refl
  logged_out-AllCleared target nonce = refl
  logged_out-AllCleared target verifier = refl
  logged_out-AllCleared target access = refl
  logged_out-AllCleared target legacy_access = refl

  provider_logout-ok :
      (target : Location) → provider_logout p ≡ ok target → IsProviderLogout p target
  unfolding provider_logout
  provider_logout-ok target h =
      let (c, configured, h1) = >>=-eq-ok (auth_config p) _ h in
      let (url, e, h2) = >>=-eq-ok (parsed (p.new_url (c.auth_base ++ js "/logout"))) _ h1 in
      (c, url, configured, parsed-eq-ok _ url e, cc (sym h2))

  provider_logout-thrown : (reason : JsString) → provider_logout p ≡ thrown reason → HasNoProvider p
  unfolding provider_logout
  provider_logout-thrown reason h = by_config (auth_config p) refl
    where
      by_config : (r : Result AuthConfig) → auth_config p ≡ r → HasNoProvider p
      by_config (thrown why) e = inl (why, e)
      by_config (ok c) e = elim (Option-cases (p.new_url (c.auth_base ++ js "/logout"))) [
        | inl absent ↦ inr (c, e, absent)
        | inr (url, found) ↦ absurd (cc (rw (e, found) at h))
      ]

  destination_from-IsDestination :
      (request : Request) (origin : JsString) (login_page : Url)
      → application_origin p request.origin ≡ ok origin
      → p.resolve_url (js "/login") origin ≡ some login_page
      → IsDestination p request (destination_from p login_page)
  unfolding destination_from
  destination_from-IsDestination request origin login_page own found =
      by_result (provider_logout p) refl
    where
      by_result :
          (r : Result Location)
          → provider_logout p ≡ r
          → IsDestination p request (elim r [
            | ok location ↦ location
            | thrown e ↦ record { url = login_page; query = [] }
          ])
      by_result (thrown e) h =
          inr (provider_logout-thrown e h, (origin, login_page, own, found, refl))
      by_result (ok location) h = inl (provider_logout-ok location h)

  -- A logout that answers either refuses, and touches no cookie, or was asked for from the
  -- application's own origin: then all five cookies are removed and the browser is sent, with 303, to
  -- the URL of the provider's logout, with this client and its page to come back to, or, where the
  -- configuration cannot be read or gives no such URL, to `/login` at the application's origin.
  pub logout_sound :
      (request : Request) (r : Response)
      → logout p request ≡ ok r
      → ((is_same_origin_mutation p request ≡ false) × (r.status ≡ 403) × (r.cookies ≡ []))
        ⊎ (IsSameOrigin p request
            × (r.status ≡ 303)
            × AllCleared p r
            × ((target : Location) × (r.location ≡ some target) × IsDestination p request target))
  unfolding logout logged_out clear_all with_cookie
  logout_sound request r h = elim (Bool-cases (is_same_origin_mutation p request)) [
    | inr crossed ↦
        let same : cross_origin_logout ≡ r = cc (rw crossed at h) in
        inl (crossed, rw (← same) refl, rw (← same) refl)
    | inl own ↦
        let (origin, e0, h1) = >>=-eq-ok (application_origin p request.origin) _ (rw own at h) in
        let (login_page, e1, h2) = >>=-eq-ok (parsed (p.resolve_url (js "/login") origin)) _ h1 in
        let target = destination_from p login_page in
        let same : logged_out p target ≡ r = cc h2 in
        inr (
          is_same_origin_mutation_sound p request own,
          rw (← same) refl,
          rw (← same) (logged_out-AllCleared target),
          (
            target,
            rw (← same) refl,
            destination_from-IsDestination request origin login_page e0
                (parsed-eq-ok _ login_page e1),
          ),
        )
  ]
