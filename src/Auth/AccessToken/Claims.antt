-- ===== src/Auth/AccessToken/Claims.antt =====
-- web/app/auth/access-token.ts: the claims of an accepted token.
use logi_track.Base.{
  ℕ, ◌+◌, ◌≤◌, ◌≡◌, refl, ◌↔◌, true, false, arith, eq_iff, eq_refl, list_eq, nat_eq, length, any,
}
use logi_track.Base.Int.{ℤ, pos, ◌-ℤ◌, ◌≤ℤ◌, ◌<ℤ◌}
use logi_track.Js.Text.{JsString, js, trim}
use logi_track.Js.Result.{ok}
use logi_track.Js.Json.{Json, number, integer, text, Fields, property, is_text, is_text-eq}
use logi_track.Auth.AccessToken.{
  is_control, valid_subject, valid_issued_at, valid_expiry, valid_lifetime, check_claims,
}

-- The claims as the service documents them: whose token it is, for which client, and its times in
-- seconds, against the time of the check.
pub record IsAuthorised (client_id : JsString) (now : ℕ) (payload : Fields) : Type 0 where
  pub subject : JsString
  pub issued_at : ℤ
  pub expires_at : ℤ
  pub purpose : property payload (js "token_use") ≡ text (js "access")
  pub client : property payload (js "client_id") ≡ text client_id
  pub named : property payload (js "sub") ≡ text subject
  pub issued : property payload (js "iat") ≡ number (integer issued_at)
  pub expiry : property payload (js "exp") ≡ number (integer expires_at)
  pub not_empty : 1 ≤ length subject
  pub not_long : length subject ≤ 120
  pub is_trimmed : trim subject ≡ subject
  pub printable : any is_control subject ≡ false
  pub not_future : issued_at ≤ℤ pos (now + 60)
  pub not_expired : pos (now + 30) <ℤ expires_at
  pub ordered : issued_at <ℤ expires_at
  pub short_lived : expires_at -ℤ issued_at ≤ℤ pos 3660

valid_subject-inv :
    (j : Json)
    → valid_subject j ≡ true
    → (s : JsString) × (j ≡ text s)
      × (1 ≤ length s)
      × (length s ≤ 120)
      × (trim s ≡ s)
      × (any is_control s ≡ false)
unfolding valid_subject
valid_subject-inv (text s) h =
    (s, refl, ground arith, ground arith, ground (arith, eq_iff (trim s) s), ground arith)
valid_subject-inv _ h = absurd (ground arith)

valid_issued_at-inv :
    (now : ℕ) (j : Json)
    → valid_issued_at now j ≡ true
    → (t : ℤ) × (j ≡ number (integer t)) × (t ≤ℤ pos (now + 60))
unfolding valid_issued_at
valid_issued_at-inv now (number (integer t)) h = (t, refl, ground arith)
valid_issued_at-inv now _ h = absurd (ground arith)

valid_expiry-inv :
    (now : ℕ) (j : Json)
    → valid_expiry now j ≡ true
    → (t : ℤ) × (j ≡ number (integer t)) × (pos (now + 30) <ℤ t)
unfolding valid_expiry
valid_expiry-inv now (number (integer t)) h = (t, refl, ground arith)
valid_expiry-inv now _ h = absurd (ground arith)

valid_lifetime-inv :
    (exp iat : ℤ)
    → valid_lifetime (number (integer exp)) (number (integer iat)) ≡ true
    → (iat <ℤ exp) × (exp -ℤ iat ≤ℤ pos 3660)
unfolding valid_lifetime
valid_lifetime-inv exp iat h = ground arith

module _ (client_id : JsString) (now : ℕ) (payload : Fields) where
  check_claims_sound :
      (found : Fields)
      → check_claims client_id now payload ≡ ok found
      → (found ≡ payload) × IsAuthorised client_id now payload
  unfolding check_claims
  check_claims_sound found h =
      let use_ok : is_text (property payload (js "token_use")) (js "access") ≡ true =
        ground arith in
      let client_ok : is_text (property payload (js "client_id")) client_id ≡ true = ground arith in
      let sub_ok : valid_subject (property payload (js "sub")) ≡ true = ground arith in
      let iat_ok : valid_issued_at now (property payload (js "iat")) ≡ true = ground arith in
      let exp_ok : valid_expiry now (property payload (js "exp")) ≡ true = ground arith in
      let life_ok : valid_lifetime (property payload (js "exp")) (property payload (js "iat"))
          ≡ true =
        ground arith in
      let (s, named, not_empty, not_long, is_trimmed, printable) = valid_subject-inv _ sub_ok in
      let (iat, issued, not_future) = valid_issued_at-inv now _ iat_ok in
      let (exp, expiry, not_expired) = valid_expiry-inv now _ exp_ok in
      let (ordered, short_lived) = valid_lifetime-inv exp iat (rw (expiry, issued) at life_ok) in
      (
        ground arith,
        record {
          subject = s;
          issued_at = iat;
          expires_at = exp;
          purpose = is_text-eq _ _ use_ok;
          client = is_text-eq _ _ client_ok;
          named = named;
          issued = issued;
          expiry = expiry;
          not_empty = not_empty;
          not_long = not_long;
          is_trimmed = is_trimmed;
          printable = printable;
          not_future = not_future;
          not_expired = not_expired;
          ordered = ordered;
          short_lived = short_lived;
        },
      )

  check_claims_complete :
      IsAuthorised client_id now payload → check_claims client_id now payload ≡ ok payload
  unfolding check_claims is_text valid_subject valid_issued_at valid_expiry valid_lifetime
  check_claims_complete v =
      rw (v.purpose, v.client, v.named, v.issued, v.expiry)
        (ground (arith, eq_refl (js "access"), eq_refl client_id, eq_refl v.subject, v.is_trimmed))

  -- A token's claims are accepted exactly when they are those of an access token for this client,
  -- with a trimmed printable subject of 1 to 120 units, issued at most a minute ahead, good for more
  -- than another 30 seconds, and with a lifetime of at most 3,660 seconds.
  pub check_claims_iff :
      (found : Fields)
      → (check_claims client_id now payload ≡ ok found)
        ↔ ((found ≡ payload) × IsAuthorised client_id now payload)
  check_claims_iff found = (check_claims_sound found, λ h. rw h.0 (check_claims_complete h.1))
