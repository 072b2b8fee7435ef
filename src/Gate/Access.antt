-- ===== src/Gate/Access.antt =====
-- web/proxy.ts: the requests that are let through.
use logi_track.Base.{
  ℕ, ◌≡◌, refl, ◌⊎◌, inl, inr, true, false, not, ◌&&◌, Option, none, some, arith, nat_eq, list_eq,
  list_beq, if◌then◌else◌, Bool-cases,
}
use logi_track.Js.Text.{JsString, js, truthy}
use logi_track.Js.Result.{Result, ok, thrown, >>=-eq-ok}
use logi_track.Js.Dict.{Dict, get}
use logi_track.Js.Json.{Fields}
use logi_track.Http.{Platform, Request, access, legacy_access, Response, cookie_eq}
use logi_track.Auth.Config.{parsed, application_origin, env_is}
use logi_track.Auth.Cookies.{text_of, chosen_cookie}
use logi_track.Auth.AccessToken.{JwksCache}
use logi_track.Auth.AccessToken.Verify.{IsVerified, IsConsistent, verify_access_token_iff}
use logi_track.Csp.{content_security_policy}
use logi_track.Http.{Url}
use logi_track.Js.Dict.{set}
use logi_track.Auth.Cookies.{with_cookie}
use logi_track.Gate.{
  with_header, Gated, continued, redirected, is_public_page, next_page, admit, migrate_cookie,
  to_login, send_to_login, valid_access_token, decide, gate_with, under_policy, gate,
}

-- The page needs no session, or the request carries a verified token in one of the two cookies and
-- the answer is not to be stored.
abbrev pub IsAdmitted : Platform → Request → ℕ → Response → Type 0
IsAdmitted p request verified_ms r =
    (is_public_page request.pathname ≡ true)
    ⊎ ((env_is p (js "AUTH_REQUIRED") (js "true") ≡ false)
        ⊎ ((token : JsString) × (payload : Fields) × ((request.cookie access ≡ some token)
              ⊎ (request.cookie legacy_access ≡ some token))
            × IsVerified p token verified_ms payload
            × (get r.headers (js "cache-control") ≡ some (js "no-store"))))

module _ (p : Platform) where
  valid_access_token_sound :
      (token : JsString) (verified_ms : ℕ) (cache : JwksCache) (payload : Fields)
      → IsConsistent p cache
      → (valid_access_token p token verified_ms cache).0 ≡ some payload
      → IsVerified p token verified_ms payload
  unfolding valid_access_token
  valid_access_token_sound token verified_ms cache payload v h =
      (verify_access_token_iff p token verified_ms cache payload v).0 (by_result _ h)
    where
      by_result :
          (r : Result Fields)
          → (elim r [ ok found ↦ some found | thrown e ↦ none ]) ≡ some payload
          → r ≡ ok payload
      by_result (ok found) e = cc
      by_result (thrown m) e = absurd (ground arith)

  admit-no_store :
      (nonce csp : JsString) (request : Request) (current legacy : JsString) (payload : Fields)
      (now_ms : ℕ) (headers : Dict JsString JsString) (r : Response)
      → admit p nonce csp request current legacy payload now_ms ≡ continued headers r
      → get r.headers (js "cache-control") ≡ some (js "no-store")
  unfolding admit migrate_cookie with_cookie get set list_beq js
  admit-no_store nonce csp request current legacy payload now_ms headers r h =
      let base = with_header (js "cache-control") (js "no-store") (next_page csp) in
      let is_r : migrate_cookie p current legacy payload now_ms base ≡ r = cc h in
      elim (Bool-cases (not (truthy current) && truthy legacy)) [
        | inl moved ↦ rw (← is_r, moved) refl
        | inr stays ↦ rw (← is_r, stays) refl
      ]

  pub send_to_login-redirects :
      (csp : JsString) (request : Request) (token : JsString) (g : Gated)
      → send_to_login p csp request token ≡ ok g
      → (url : Url) × (g ≡ redirected (to_login p csp request token url))
  unfolding send_to_login
  send_to_login-redirects csp request token g h =
      let (origin, e0, h1) = >>=-eq-ok (application_origin p request.origin) _ h in
      let (url, e1, h2) = >>=-eq-ok (parsed (p.resolve_url (js "/login") origin)) _ h1 in
      (url, ground arith)

  module _ (nonce : JsString) (request : Request) (verified_ms now_ms : ℕ) (cache : JwksCache)
      (v : IsConsistent p cache) (headers : Dict JsString JsString) (r : Response) where
    decide_sound :
        (csp current legacy token : JsString) (o : Option Fields × JwksCache)
        → (decide p nonce csp request current legacy token now_ms o).0 ≡ ok (continued headers r)
        → (payload : Fields) × (o.0 ≡ some payload)
          × (get r.headers (js "cache-control") ≡ some (js "no-store"))
    decide_sound csp current legacy token (some payload, next) h = (
      payload,
      refl,
      admit-no_store nonce csp request current legacy payload now_ms headers r (cc h),
    )
    decide_sound csp current legacy token (none, next) h =
        let (url, e) = send_to_login-redirects csp request token _ h in absurd (ground arith)

    gate_with_sound :
        (csp : JsString)
        → (gate_with p nonce csp request verified_ms now_ms cache).0 ≡ ok (continued headers r)
        → IsAdmitted p request verified_ms r
    unfolding gate_with
    gate_with_sound csp h =
        let current = text_of (request.cookie access) in
        let legacy = text_of (request.cookie legacy_access) in
        let token = if truthy current then current else legacy in
        elim (Bool-cases (is_public_page request.pathname)) [
          | inl open_page ↦ inl open_page
          | inr closed ↦ elim (Bool-cases (env_is p (js "AUTH_REQUIRED") (js "true"))) [
            | inr free ↦ inr (inl free)
            | inl needed ↦ elim (Bool-cases (truthy token)) [
              | inr missing ↦
                  let (url, e) =
                    send_to_login-redirects csp request token (continued headers r)
                      (rw (closed, needed, missing) at h) in
                  absurd (ground arith)
              | inl present ↦
                  let (payload, found, kept) =
                    decide_sound csp current legacy token _ (rw (closed, needed, present) at h) in
                  inr (
                    inr (
                      token,
                      payload,
                      chosen_cookie (request.cookie access) (request.cookie legacy_access) present,
                      valid_access_token_sound token verified_ms cache payload v found,
                      kept,
                    ))
            ]
          ]
        ]

    -- With a consistent cache of key sets, a page is rendered only where it is public, where the
    -- deployment asks for no session, or for a request with a verified access token in one of its
    -- two cookies; in the last case the answer is marked `no-store`.
    pub gate_sound :
        (gate p nonce request verified_ms now_ms cache).0 ≡ ok (continued headers r)
        → IsAdmitted p request verified_ms r
    unfolding gate
    gate_sound = by_policy (content_security_policy p nonce)
      where
        by_policy :
            (policy : Result JsString)
            → (under_policy p nonce request verified_ms now_ms cache policy).0
              ≡ ok (continued headers r)
            → IsAdmitted p request verified_ms r
        by_policy (ok csp) h = gate_with_sound csp h
        by_policy (thrown e) h = absurd (ground arith)
