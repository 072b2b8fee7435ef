-- ===== src/Auth/AccessToken/Verify.antt =====
-- web/app/auth/access-token.ts: `verifyAccessToken` as a whole, and its cache of key sets.
use logi_track.Base.{
  ℕ, ◌/◌, ◌≡◌, refl, sym, ◌∙◌, ap, ◌↔◌, some, [], inl, inr, Option-cases, Bool-cases, eq_iff,
  list_eq, nat_eq, ◌==◌,
}
use logi_track.Js.Text.{JsString}
use logi_track.Js.Result.{Result, ok, thrown}
use logi_track.Js.Exec.{continue-eq-ok, continue-of-ok}
use logi_track.Js.Dict.{get, get-set}
use logi_track.Js.Json.{Fields}
use logi_track.Http.{Platform, Jwks}
use logi_track.Auth.Config.{AccessTokenConfig, access_token_config}
use logi_track.Auth.AccessToken.{
  JwksCache, access_options, create_jwks, remember, cognito_jwks, verify_access_token,
}
use logi_track.Auth.AccessToken.Claims.{IsAuthorised, check_claims_iff}

-- What the token's signature and claims must be, whatever the cache holds.
pub record IsVerified (p : Platform) (token : JsString) (now_ms : ℕ) (payload : Fields)
    : Type 0 where
  pub config : AccessTokenConfig
  pub jwks : Jwks
  pub configured : access_token_config p ≡ ok config
  pub key_set : create_jwks p config.issuer ≡ ok jwks
  pub signed : p.jwt_verify token jwks (access_options config.issuer) ≡ ok payload
  pub authorised : IsAuthorised config.client_id (now_ms / 1000) payload

module _ (p : Platform) where
  -- Every cached key set is the one that its issuer's URL gives.
  abbrev pub IsConsistent : JwksCache → Type 0
  IsConsistent cache =
      (issuer : JsString) (jwks : Jwks)
      → get cache issuer ≡ some jwks
      → create_jwks p issuer ≡ ok jwks

  pub empty-IsConsistent : IsConsistent []
  unfolding get
  empty-IsConsistent issuer jwks h = cc

  remember_lem :
      (issuer : JsString) (cache : JwksCache) (r : Result Jwks)
      → create_jwks p issuer ≡ r
      → IsConsistent cache
      → ((remember p issuer cache r).0 ≡ r) × IsConsistent (remember p issuer cache r).1
  remember_lem issuer cache (thrown e) made v = (refl, v)
  remember_lem issuer cache (ok jwks) made v = (
    refl,
    λ other found h. elim (Bool-cases (issuer == other)) [
      | inl same ↦
          let hit : jwks ≡ found = cc (rw (get-set cache issuer other jwks, same) at h) in
          rw (← (eq_iff issuer other).0 same) (made ∙ ap ok hit)
      | inr differs ↦ v other found (rw (get-set cache issuer other jwks, differs) at h)
    ],
  )

  -- A consistent cache never changes the key set that an issuer gets, and stays consistent.
  pub cognito_jwks_lem :
      (issuer : JsString) (cache : JwksCache)
      → IsConsistent cache
      → ((cognito_jwks p issuer cache).0 ≡ create_jwks p issuer)
        × IsConsistent (cognito_jwks p issuer cache).1
  unfolding cognito_jwks
  cognito_jwks_lem issuer cache v = elim (Option-cases (get cache issuer)) [
    | inl absent ↦
        rw (absent, cognito_jwks) (remember_lem issuer cache (create_jwks p issuer) refl v)
    | inr (jwks, present) ↦ rw (present, cognito_jwks) (sym (v issuer jwks present), v)
  ]

  verify_access_token_sound :
      (token : JsString) (now_ms : ℕ) (cache : JwksCache) (payload : Fields)
      → IsConsistent cache
      → (verify_access_token p token now_ms cache).0 ≡ ok payload
      → IsVerified p token now_ms payload
  unfolding verify_access_token
  verify_access_token_sound token now_ms cache payload v h =
      let (c, configured, h1) = continue-eq-ok _ _ h in
      let (jwks, keys, h2) = continue-eq-ok _ _ h1 in
      let (claims, signed, h3) = continue-eq-ok _ _ h2 in
      let (same, authorised) = (check_claims_iff c.client_id (now_ms / 1000) claims payload).0 h3 in
      record {
        config = c;
        jwks = jwks;
        configured = configured;
        key_set = sym (cognito_jwks_lem c.issuer cache v).0 ∙ keys;
        signed = rw same signed;
        authorised = rw same authorised;
      }

  verify_access_token_complete :
      (token : JsString) (now_ms : ℕ) (cache : JwksCache) (payload : Fields)
      → IsConsistent cache
      → IsVerified p token now_ms payload
      → (verify_access_token p token now_ms cache).0 ≡ ok payload
  unfolding verify_access_token
  verify_access_token_complete token now_ms cache payload v h =
      continue-of-ok _ _ h.config h.configured
      ∙ continue-of-ok _ _ h.jwks ((cognito_jwks_lem h.config.issuer cache v).0 ∙ h.key_set)
      ∙ continue-of-ok _ _ payload h.signed
      ∙ (check_claims_iff h.config.client_id (now_ms / 1000) payload payload).1 (refl, h.authorised)

  -- With any consistent cache, a token is accepted, with a payload, exactly when its signature
  -- gives that payload under the configured issuer's keys and the claims pass.
  pub verify_access_token_iff :
      (token : JsString) (now_ms : ℕ) (cache : JwksCache) (payload : Fields)
      → IsConsistent cache
      → ((verify_access_token p token now_ms cache).0 ≡ ok payload)
        ↔ IsVerified p token now_ms payload
  verify_access_token_iff token now_ms cache payload v = (
    verify_access_token_sound token now_ms cache payload v,
    verify_access_token_complete token now_ms cache payload v,
  )
