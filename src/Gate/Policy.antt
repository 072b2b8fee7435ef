-- ===== src/Gate/Policy.antt =====
-- web/proxy.ts: the headers of the answers.
use logi_track.Base.{
  ℕ, ◌≡◌, refl, inl, inr, not, ◌&&◌, ◌||◌, Option, none, some, nat_eq, list_eq, list_beq,
  if◌then◌else◌, Bool-cases, ◌∷◌, [], ◌∙◌,
}
use logi_track.Js.Text.{JsString, js, truthy}
use logi_track.Js.Result.{ok}
use logi_track.Js.Dict.{get, get-set, set}
use logi_track.Js.Json.{Fields}
use logi_track.Http.{Platform, Request, access, legacy_access, cookie_eq, Url}
use logi_track.Auth.Config.{env_is}
use logi_track.Auth.Cookies.{text_of, clear_all, with_cookie}
use logi_track.Auth.AccessToken.{JwksCache}
use logi_track.Csp.{content_security_policy}
use logi_track.Gate.{
  Gated, continued, redirected, is_public_page, next_page, next_headers, admit, migrate_cookie,
  to_login, send_to_login, decide, gate_with, gate,
}
use logi_track.Gate.Access.{send_to_login-redirects}

-- What a page, or a redirect, is sent with under a policy.
abbrev pub Carries : (nonce csp : JsString) → Gated → Type 0
Carries nonce csp (continued headers r) =
    (get r.headers (js "content-security-policy") ≡ some csp)
    × (get headers (js "content-security-policy") ≡ some csp)
    × (get headers (js "x-nonce") ≡ some nonce)
Carries nonce csp (redirected r) =
    (get r.headers (js "content-security-policy") ≡ some csp)
    × (get r.headers (js "cache-control") ≡ some (js "no-store"))

next_headers-get :
    (nonce csp : JsString) (request : Request)
    → (get (next_headers nonce csp request) (js "content-security-policy") ≡ some csp)
      × (get (next_headers nonce csp request) (js "x-nonce") ≡ some nonce)
unfolding list_beq js
next_headers-get nonce csp request = (
  get-set _ (js "content-security-policy") (js "content-security-policy") csp,
  get-set _ (js "content-security-policy") (js "x-nonce") csp
      ∙ get-set _ (js "x-nonce") (js "x-nonce") nonce,
)

module _ (p : Platform) where
  admit-Carries :
      (nonce csp : JsString) (request : Request) (current legacy : JsString) (payload : Fields)
      (now_ms : ℕ)
      → Carries nonce csp (admit p nonce csp request current legacy payload now_ms)
  unfolding admit migrate_cookie with_cookie get set list_beq js
  admit-Carries nonce csp request current legacy payload now_ms =
      let (policy, own) = next_headers-get nonce csp request in
      elim (Bool-cases (not (truthy current) && truthy legacy)) [
        | inl moved ↦ (rw moved refl, policy, own)
        | inr stays ↦ (rw stays refl, policy, own)
      ]

  to_login-Carries :
      (nonce csp : JsString) (request : Request) (token : JsString) (url : Url)
      → Carries nonce csp (redirected (to_login p csp request token url))
  unfolding to_login clear_all with_cookie get set list_beq js
  to_login-Carries nonce csp request [] url = (refl, refl)
  to_login-Carries nonce csp request (u ∷ token) url = (refl, refl)

  send_to_login-Carries :
      (nonce csp : JsString) (request : Request) (token : JsString) (g : Gated)
      → send_to_login p csp request token ≡ ok g
      → Carries nonce csp g
  send_to_login-Carries nonce csp request token g h =
      let (url, e) = send_to_login-redirects p csp request token g h in
      rw e (to_login-Carries nonce csp request token url)

  module _ (nonce csp : JsString) (request : Request) (verified_ms now_ms : ℕ) (cache : JwksCache)
      (g : Gated) where
    decide-Carries :
        (current legacy token : JsString) (o : Option Fields × JwksCache)
        → (decide p nonce csp request current legacy token now_ms o).0 ≡ ok g
        → Carries nonce csp g
    decide-Carries current legacy token (some payload, next) h =
        let same : admit p nonce csp request current legacy payload now_ms ≡ g = cc h in
        rw (← same) (admit-Carries nonce csp request current legacy payload now_ms)
    decide-Carries current legacy token (none, next) h =
        send_to_login-Carries nonce csp request token g h

    gate_with-Carries :
        (gate_with p nonce csp request verified_ms now_ms cache).0 ≡ ok g → Carries nonce csp g
    unfolding gate_with get set list_beq js
    gate_with-Carries h =
        let current = text_of (request.cookie access) in
        let legacy = text_of (request.cookie legacy_access) in
        let token = if truthy current then current else legacy in
        elim (Bool-cases
          (is_public_page request.pathname || not (env_is p (js "AUTH_REQUIRED") (js "true")))) [
            | inl open_page ↦
                let same : continued (next_headers nonce csp request) (next_page csp) ≡ g =
                  cc (rw open_page at h) in
                let (policy, own) = next_headers-get nonce csp request in
                rw (← same) (refl, policy, own)
            | inr closed ↦ elim (Bool-cases (truthy token)) [
              | inr missing ↦
                  send_to_login-Carries nonce csp request token g (rw (closed, missing) at h)
              | inl present ↦ decide-Carries current legacy token _ (rw (closed, present) at h)
            ]
          ]

    -- Every answer of the gate carries the policy that is built for its nonce. A page is rendered for
    -- a request on which that nonce and that policy replace what the browser sent under their names,
    -- and a redirect is marked `no-store`.
    pub gate-Carries :
        content_security_policy p nonce ≡ ok csp
        → (gate p nonce request verified_ms now_ms cache).0 ≡ ok g
        → Carries nonce csp g
    unfolding gate
    gate-Carries policy h = gate_with-Carries (rw policy at h)
