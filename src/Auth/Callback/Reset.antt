-- ===== src/Auth/Callback/Reset.antt =====
-- web/app/auth/callback/route.ts: the cookies of the login attempt in the answers.
use logi_track.Base.{
  ℕ, ◌≡◌, refl, ◌∙◌, inl, inr, Option, none, some, arith, nat_eq, list_eq, list_beq, ◌++◌, leb,
  ◌&&◌, Bool-cases, Option-cases,
}
use logi_track.Js.Text.{JsString, js}
use logi_track.Js.Unicode.{encode_uri_component}
use logi_track.Js.Result.{Result, ok, thrown, >>=-eq-ok}
use logi_track.Js.Exec.{continue-eq-ok}
use logi_track.Js.Dict.{get, get-set}
use logi_track.Js.Json.{Fields}
use logi_track.Http.{
  Platform, Request, state, nonce, verifier, cookie_eq, cookie_beq, Response, Url,
}
use logi_track.Auth.Config.{AuthConfig, auth_config}
use logi_track.Auth.Cookies.{cleared, clear_transient, clear_all, with_cookie}
use logi_track.Auth.AccessToken.{JwksCache}
use logi_track.Auth.Callback.Redirect.{redirect_to, redirect_within, finish}
use logi_track.Auth.Callback.TokenResponse.{
  Exchange, TokenEndpointResponse, read_bounded_token_response,
}
use logi_track.Auth.Callback.Handler.{
  exchange_of, CallbackInput, input_of, has_valid_input, with_session, establish, after_read,
  after_exchange, attempt, caught_by_finish, handle,
}
use logi_track.Auth.Callback.Session.{redirect_within-cookies, establish-eq-ok}

-- The answer is not to be stored, and clears the state, the nonce and the verifier.
abbrev pub IsReset : Platform → Response → Type 0
IsReset p r =
    (get r.headers (js "cache-control") ≡ some (js "no-store"))
    × (get r.cookies state ≡ some (cleared p))
    × (get r.cookies nonce ≡ some (cleared p))
    × (get r.cookies verifier ≡ some (cleared p))

module _ (p : Platform) where
  clear_transient-IsReset :
      (r : Response)
      → get r.headers (js "cache-control") ≡ some (js "no-store")
      → IsReset p (clear_transient p r)
  unfolding clear_transient clear_all with_cookie cookie_beq
  clear_transient-IsReset r h =
      let c = cleared p in
      (
        h,
        get-set _ verifier state c ∙ get-set _ nonce state c ∙ get-set r.cookies state state c,
        get-set _ verifier nonce c ∙ get-set _ nonce nonce c,
        get-set _ verifier verifier c,
      )

  redirect_to-no_store :
      (url : Url) → get (redirect_to url).headers (js "cache-control") ≡ some (js "no-store")
  unfolding get list_beq js
  redirect_to-no_store url = refl

  finish-IsReset :
      (request : Request) (reason : JsString) (r : Response)
      → finish p request reason ≡ ok r
      → IsReset p r
  unfolding finish
  finish-IsReset request reason r h =
      let (encoded, e0, h1) = >>=-eq-ok (encode_uri_component reason) _ h in
      let (response, e1, h2) =
        >>=-eq-ok (redirect_within p request (js "/login?error=" ++ encoded)) _ h1 in
      let (url, e2) = redirect_within-cookies p request _ response e1 in
      let is_r : clear_transient p response ≡ r = cc h2 in
      rw (← is_r) (clear_transient-IsReset response (rw e2 (redirect_to-no_store url)))

  establish-IsReset :
      (request : Request) (i : CallbackInput) (c : AuthConfig) (token : Fields)
      (verified_ms now_ms : ℕ) (cache : JwksCache) (r : Response)
      → (establish p request i c token verified_ms now_ms cache).0 ≡ ok r
      → IsReset p r
  unfolding with_session with_cookie
  establish-IsReset request i c token verified_ms now_ms cache r h =
      let run = establish-eq-ok p request i c token verified_ms now_ms cache r h in
      let (url, fresh) = redirect_within-cookies p request _ run.response run.back in
      rw (← run.result) (clear_transient-IsReset _ (rw fresh (redirect_to-no_store url)))

  module _ (fetch : Exchange → Option TokenEndpointResponse) (request : Request)
      (verified_ms now_ms : ℕ) (r : Response) where
    after_exchange-IsReset :
        (i : CallbackInput) (c : AuthConfig) (o : Option TokenEndpointResponse) (cache : JwksCache)
        → (after_exchange p fetch request i c verified_ms now_ms o cache).0 ≡ ok r
        → IsReset p r
    unfolding after_exchange after_read
    after_exchange-IsReset i c none cache h = absurd (ground arith)
    after_exchange-IsReset i c (some answer) cache h =
        elim (Bool-cases (leb 200 answer.status && leb answer.status 299)) [
          | inr refused ↦ finish-IsReset request (js "token_exchange_failed") r (ground arith)
          | inl accepted ↦
              let (token, read, h1) =
                continue-eq-ok (read_bounded_token_response p answer, cache) _ (rw accepted at h) in
              elim (Option-cases token) [
                | inl absent ↦
                    finish-IsReset request (js "invalid_token_response") r (rw absent at h1)
                | inr (t, present) ↦
                    establish-IsReset request i c t verified_ms now_ms cache r (rw present at h1)
              ]
        ]

    caught-IsReset :
        (s : Result Response × JwksCache)
        → (s.0 ≡ ok r → IsReset p r)
        → (caught_by_finish p fetch request s).0 ≡ ok r
        → IsReset p r
    caught-IsReset (ok a, cache) inside h = inside h
    caught-IsReset (thrown e, cache) inside h = finish-IsReset request _ r h

    attempt-IsReset :
        (i : CallbackInput) (cache : JwksCache)
        → (attempt p fetch request i verified_ms now_ms cache).0 ≡ ok r
        → IsReset p r
    unfolding attempt
    attempt-IsReset i cache h =
        let (c, configured, h1) = continue-eq-ok (auth_config p, cache) _ h in
        after_exchange-IsReset i c (fetch (exchange_of c i.code_verifier i.code)) cache h1

    -- Every answer of the callback, whether it opens a session or not, carries `no-store` and removes
    -- the three cookies of the login attempt, so that none of its answers leaves them to be used again.
    pub handle_resets :
        (cache : JwksCache)
        → (handle p fetch request verified_ms now_ms cache).0 ≡ ok r
        → IsReset p r
    unfolding handle
    handle_resets cache h = elim (Bool-cases (has_valid_input (input_of request))) [
      | inr bad ↦ finish-IsReset request (js "invalid_oauth_response") r (rw bad at h)
      | inl valid ↦ caught-IsReset _ (attempt-IsReset (input_of request) cache) (rw valid at h)
    ]
