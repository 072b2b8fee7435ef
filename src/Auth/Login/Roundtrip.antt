-- ===== src/Auth/Login/Roundtrip.antt =====
-- web/app/auth/login/route.ts and callback/route.ts: a login and the callback that ends it.
use logi_track.Base.{
  ◌≤◌, ◌≡◌, refl, true, some, arith, list_eq, list_beq, nat_eq, ◌∙◌, length, eq_refl, ap, sym,
}
use logi_track.Js.Text.{JsString, js, truthy}
use logi_track.Js.Unicode.{utf8}
use logi_track.Js.Result.{Result, ok, thrown, >>=-eq-ok}
use logi_track.Js.Dict.{get, set}
use logi_track.Http.{
  Platform, Request, header, state, verifier, nonce, cookie_eq, cookie_beq, Response, Url, Location,
  AuthCookie, Cookie,
}
use logi_track.Auth.Config.{AuthConfig, auth_config, parsed, sha256_url_safe}
use logi_track.Auth.Cookies.{text_of, with_cookie}
use logi_track.Auth.Callback.TokenResponse.{valid_callback_input}
use logi_track.Auth.Callback.Handler.{CallbackInput, input_of, has_valid_input}
use logi_track.Auth.Login.{
  Secrets, login_cookie, login_answer, authorize_query, authorize, start_login, login,
}

-- The browser sends a cookie as the response has set it.
abbrev pub Holds : Response → Request → AuthCookie → Type 0
Holds r request name =
    (c : Cookie) × (get r.cookies name ≡ some c) × (request.cookie name ≡ some c.value)

-- The request that the provider's redirect makes: the browser's cookies are those of the login, and
-- the state is the one of the authorization URL.
pub record Returns (login_page : Response) (target : Location) (request : Request) : Type 0 where
  pub state_cookie : Holds login_page request state
  pub nonce_cookie : Holds login_page request nonce
  pub verifier_cookie : Holds login_page request verifier
  pub same_state : header request.search_params (js "state") ≡ header target.query (js "state")

-- What the drawn values are sure to be: 43 and 86 characters.
pub record IsDrawn (secrets : Secrets) : Type 0 where
  pub state_given : truthy secrets.drawn_state ≡ true
  pub nonce_given : truthy secrets.drawn_nonce ≡ true
  pub verifier_given : truthy secrets.drawn_verifier ≡ true
  pub state_short : length secrets.drawn_state ≤ 256

-- The callback reads the values that the login has drawn, and the provider was told the nonce that the
-- callback goes by and the SHA-256 digest of the verifier that the callback works with.
pub record IsMatched (p : Platform) (secrets : Secrets) (target : Location) (i : CallbackInput)
    : Type 0 where
  pub state_matches : i.state_param ≡ secrets.drawn_state
  pub state_expected : i.expected_state ≡ secrets.drawn_state
  pub nonce_expected : i.expected_nonce ≡ secrets.drawn_nonce
  pub nonce_sent : header target.query (js "nonce") ≡ secrets.drawn_nonce
  pub verifier_kept : i.code_verifier ≡ secrets.drawn_verifier
  pub challenge_sent : header target.query (js "code_challenge") ≡ sha256_url_safe p i.code_verifier

module _ (p : Platform) (secrets : Secrets) where
  start_login-target :
      (r : Response) (target : Location)
      → start_login p secrets ≡ ok r
      → r.location ≡ some target
      → (c : AuthConfig) × (url : Url) × (r ≡ authorize p c secrets url)
        × (target.query ≡ authorize_query p c secrets)
  unfolding start_login authorize with_cookie
  start_login-target r target h e =
      let (c, configured, h1) = >>=-eq-ok (auth_config p) _ h in
      let (url, made, h2) = >>=-eq-ok (parsed (p.new_url _)) _ h1 in
      let same : authorize p c secrets url ≡ r = cc h2 in
      let there : some (record { url = url; query = authorize_query p c secrets }) ≡ some target =
        ap (λ o. o.location) same ∙ e in
      let goes : record { url = url; query = authorize_query p c secrets } ≡ target = cc there in
      (c, url, sym same, ap (λ l. l.query) (sym goes))

  authorize-cookies :
      (c : AuthConfig) (url : Url)
      → let cookies = (authorize p c secrets url).cookies in
        (get cookies state ≡ some (login_cookie p secrets.drawn_state))
        × (get cookies nonce ≡ some (login_cookie p secrets.drawn_nonce))
        × (get cookies verifier ≡ some (login_cookie p secrets.drawn_verifier))
  unfolding authorize with_cookie get set cookie_beq
  authorize-cookies c url = (refl, refl, refl)

  authorize_query-header :
      (c : AuthConfig)
      → let query = authorize_query p c secrets in
        (header query (js "state") ≡ secrets.drawn_state)
        × (header query (js "nonce") ≡ secrets.drawn_nonce)
        × (header query (js "code_challenge") ≡ sha256_url_safe p secrets.drawn_verifier)
  unfolding authorize_query header get list_beq js
  authorize_query-header c = (refl, refl, refl)

  held :
      (r : Response) (request : Request) (name : AuthCookie) (value : JsString)
      → get r.cookies name ≡ some (login_cookie p value)
      → Holds r request name
      → text_of (request.cookie name) ≡ value
  held r request name value set_to (c, there, sent) =
      let same : login_cookie p value ≡ c = cc (sym set_to ∙ there) in rw (sent, ← same) refl

  matched :
      (c : AuthConfig) (url : Url) (target : Location) (request : Request)
      → target.query ≡ authorize_query p c secrets
      → Returns (authorize p c secrets url) target request
      → IsMatched p secrets target (input_of request)
  unfolding input_of
  matched c url target request query back =
      let (state_set, nonce_set, verifier_set) = authorize-cookies c url in
      let (sent_state, sent_nonce, sent_challenge) = authorize_query-header c in
      let held_by = held (authorize p c secrets url) request in
      record {
        state_matches = back.same_state ∙ ap (λ q. header q (js "state")) query ∙ sent_state;
        state_expected = held_by state secrets.drawn_state state_set back.state_cookie;
        nonce_expected = held_by nonce secrets.drawn_nonce nonce_set back.nonce_cookie;
        nonce_sent = ap (λ q. header q (js "nonce")) query ∙ sent_nonce;
        verifier_kept = held_by verifier secrets.drawn_verifier verifier_set back.verifier_cookie;
        challenge_sent =
            ap (λ q. header q (js "code_challenge")) query
            ∙ sent_challenge
            ∙ ap (sha256_url_safe p)
                (sym (held_by verifier secrets.drawn_verifier verifier_set back.verifier_cookie));
      }

  valid_of_matched :
      (target : Location) (i : CallbackInput)
      → IsDrawn secrets
      → IsMatched p secrets target i
      → truthy i.code ≡ true
      → length i.code ≤ 4096
      → has_valid_input i ≡ true
  unfolding has_valid_input valid_callback_input
  valid_of_matched target i drawn m given short =
      rw
        (
          m.state_matches, m.state_expected, m.nonce_expected, m.verifier_kept, given,
          drawn.state_given, drawn.nonce_given, drawn.verifier_given,
        )
        (ground (arith, eq_refl (utf8 secrets.drawn_state), drawn.state_short))

  -- When the browser comes back from the provider with the login's cookies, the state of the
  -- authorization URL and a code of 1 to 4,096 characters, the callback takes its input, and works
  -- with the verifier, the nonce and the state of that login; the provider was sent that nonce and the
  -- digest of that very verifier. The drawn values are not empty, and the state has at most 256 characters.
  pub login-Returns :
      (target : Location) (request : Request)
      → IsDrawn secrets
      → (login p secrets).location ≡ some target
      → Returns (login p secrets) target request
      → truthy (header request.search_params (js "code")) ≡ true
      → length (header request.search_params (js "code")) ≤ 4096
      → (has_valid_input (input_of request) ≡ true) × IsMatched p secrets target (input_of request)
  unfolding login input_of
  login-Returns target request drawn = by_result (start_login p secrets) refl
    where
      by_result :
          (o : Result Response)
          → start_login p secrets ≡ o
          → (login_answer o).location ≡ some target
          → Returns (login_answer o) target request
          → truthy (header request.search_params (js "code")) ≡ true
          → length (header request.search_params (js "code")) ≤ 4096
          → (has_valid_input (input_of request) ≡ true)
            × IsMatched p secrets target (input_of request)
      by_result (thrown e) started goes back given short = absurd (ground arith)
      by_result (ok r) started goes back given short =
          let (c, url, made, query) = start_login-target r target started goes in
          let m = matched c url target request query (rw made at back) in
          (valid_of_matched target (input_of request) drawn m given short, m)
