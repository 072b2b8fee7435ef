-- ===== src/Auth/Callback/Safety.antt =====
-- web/app/auth/callback/route.ts: what is behind the session cookie of an answer.
use logi_track.Base.{
  ℕ, ◌≤◌, ◌≡◌, refl, sym, ◌∙◌, inl, inr, true, Option, none, some, arith, nat_eq, list_eq, leb,
  ◌&&◌, eq_iff, Bool-cases, Option-cases,
}
use logi_track.Js.Text.{js}
use logi_track.Js.Unicode.{utf8}
use logi_track.Js.Result.{Result, ok, thrown}
use logi_track.Js.Exec.{continue-eq-ok}
use logi_track.Js.Dict.{get}
use logi_track.Js.Json.{Fields}
use logi_track.Http.{Platform, Request, access, cookie_eq, Cookie, Response}
use logi_track.Auth.Config.{AuthConfig, auth_config}
use logi_track.Auth.AccessToken.{JwksCache}
use logi_track.Auth.AccessToken.Verify.{IsConsistent, cognito_jwks_lem, verify_access_token_iff}
use logi_track.Auth.Callback.TokenResponse.{
  Exchange, TokenEndpointResponse, read_bounded_token_response, valid_callback_input,
}
use logi_track.Auth.Callback.Handler.{
  exchange_of, CallbackInput, input_of, has_valid_input, establish, after_read, after_exchange,
  attempt, caught_by_finish, handle,
}
use logi_track.Auth.Callback.Session.{
  session_max_age_le, establish-eq-ok, IsSession, IsEstablished, with_session-access,
  finish-no-session,
}

module _ (p : Platform) (fetch : Exchange → Option TokenEndpointResponse) (request : Request)
    (verified_ms now_ms : ℕ) (r : Response) (cookie : Cookie)
    (opened : get r.cookies access ≡ some cookie) where
  after_exchange_sound :
      (i : CallbackInput) (c : AuthConfig) (o : Option TokenEndpointResponse) (cache : JwksCache)
      → (after_exchange p fetch request i c verified_ms now_ms o cache).0 ≡ ok r
      → (answer : TokenEndpointResponse) × (o ≡ some answer)
        × (200 ≤ answer.status)
        × (answer.status ≤ 299)
        × ((token : Fields) × (read_bounded_token_response p answer ≡ ok (some token))
            × ((establish p request i c token verified_ms now_ms cache).0 ≡ ok r))
  unfolding after_exchange after_read
  after_exchange_sound i c none cache h = absurd (ground arith)
  after_exchange_sound i c (some answer) cache h =
      elim (Bool-cases (leb 200 answer.status && leb answer.status 299)) [
        | inr refused ↦ absurd (
            finish-no-session p request (js "token_exchange_failed") r cookie (ground arith) opened)
        | inl accepted ↦
            let (token, read, h1) =
              continue-eq-ok (read_bounded_token_response p answer, cache) _ (rw accepted at h) in
            elim (Option-cases token) [
              | inl absent ↦ absurd (
                  finish-no-session p request (js "invalid_token_response") r cookie
                    (rw absent at h1) opened)
              | inr (t, present) ↦ (
                answer,
                refl,
                ground arith,
                ground arith,
                (t, rw (← present) read, rw present at h1),
              )
            ]
      ]

  establish_sound :
      (i : CallbackInput) (c : AuthConfig) (token : Fields) (cache : JwksCache)
      → IsConsistent p cache
      → (establish p request i c token verified_ms now_ms cache).0 ≡ ok r
      → IsEstablished p i.expected_nonce c token verified_ms now_ms cookie
  establish_sound i c token cache v h =
      let run = establish-eq-ok p request i c token verified_ms now_ms cache r h in
      let (keys_ok, v1) = cognito_jwks_lem p c.issuer cache v in
      let (value, age) =
        with_session-access p token run.access_payload now_ms run.response cookie
          (rw run.result opened) in
      let (hour, left) = session_max_age_le token run.access_payload now_ms in
      record {
        value = value;
        access_payload = run.access_payload;
        verified =
            rw value
              ((verify_access_token_iff p _ verified_ms _ run.access_payload v1).0 run.passed);
        jwks = run.jwks;
        key_set = sym keys_ok ∙ run.keys;
        id_payload = run.id_payload;
        id_signed = run.id_signed;
        own = run.own;
        at_most_an_hour = rw age hour;
        within_token = rw age left;
      }

  attempt_sound :
      (cache : JwksCache)
      → IsConsistent p cache
      → has_valid_input (input_of request) ≡ true
      → (attempt p fetch request (input_of request) verified_ms now_ms cache).0 ≡ ok r
      → IsSession p fetch request verified_ms now_ms cookie
  unfolding attempt input_of has_valid_input valid_callback_input
  attempt_sound cache v valid h =
      let i = input_of request in
      let (c, configured, h1) = continue-eq-ok (auth_config p, cache) _ h in
      let (answer, exchanged, low, high, (token, read, h2)) =
        after_exchange_sound i c (fetch (exchange_of c i.code_verifier i.code)) cache h1 in
      record {
        config = c;
        configured = configured;
        same_state = (eq_iff (utf8 i.state_param) (utf8 i.expected_state)).0 (ground arith);
        given_state = ground arith;
        given_nonce = ground arith;
        answer = answer;
        exchanged = exchanged;
        accepted = (low, high);
        token = token;
        token_read = read;
        established = establish_sound i c token cache v h2;
      }

  caught_by_finish-eq-ok :
      (s : Result Response × JwksCache) → (caught_by_finish p fetch request s).0 ≡ ok r → s.0 ≡ ok r
  caught_by_finish-eq-ok (ok a, cache) h = h
  caught_by_finish-eq-ok (thrown e, cache) h =
      absurd (finish-no-session p request _ r cookie h opened)

  -- With a consistent cache of key sets, an answer of the callback that sets the access cookie
  -- does so for a callback whose state is the one that this browser was given, after its code was
  -- exchanged under its verifier: the cookie is the access token of the answer, that token is
  -- verified, the ID token is signed for this client and carries the browser's nonce and the same
  -- subject, and the cookie lives for at most an hour and not longer than the token.
  pub handle_sound :
      (cache : JwksCache)
      → IsConsistent p cache
      → (handle p fetch request verified_ms now_ms cache).0 ≡ ok r
      → IsSession p fetch request verified_ms now_ms cookie
  unfolding handle
  handle_sound cache v h = elim (Bool-cases (has_valid_input (input_of request))) [
    | inr bad ↦
        absurd
          (finish-no-session p request (js "invalid_oauth_response") r cookie (rw bad at h) opened)
    | inl valid ↦ attempt_sound cache v valid (caught_by_finish-eq-ok _ (rw valid at h))
  ]
