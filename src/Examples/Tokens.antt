-- ===== src/Examples/Tokens.antt =====
-- Tokens, logins and logouts.
use logi_track.Auth.AccessToken.{
  check_claims, cognito_jwks, create_jwks, valid_expiry, valid_issued_at, valid_lifetime,
  valid_subject, verify_access_token,
}
use logi_track.Auth.AccessToken.Claims.{IsAuthorised, check_claims_iff}
use logi_track.Auth.AccessToken.Verify.{
  IsConsistent, IsVerified, cognito_jwks_lem, empty-IsConsistent, verify_access_token_iff,
}
use logi_track.Auth.Callback.Handler.{has_valid_input, input_of}
use logi_track.Auth.Config.{
  access_token_config, application_origin, auth_config, callback, endpoint, env_is, required,
  secure_cookie, trimmed_env, validated_url, without_last_slash,
}
use logi_track.Auth.Cookies.{clear_all, clear_transient, cleared, expiry_of, with_cookie}
use logi_track.Auth.Login.{Secrets, authorize, authorize_query, login, start_login}
use logi_track.Auth.Login.Roundtrip.{IsDrawn, IsMatched, Returns, login-Returns}
use logi_track.Auth.Logout.{destination_from, logged_out, logout, provider_logout}
use logi_track.Auth.Logout.Clearing.{AllCleared, IsDestination, logout_sound}
use logi_track.Auth.RequestOrigin.{IsSameOrigin, is_same_origin_mutation}
use logi_track.Base.{
  Option, [], arith, false, length, list_beq, none, refl, some, true, ◌↔◌, ◌≡◌, ◌≤◌, ◌⊎◌,
}
use logi_track.Base.Int.{◌-ℤ◌}
use logi_track.Examples.Fixtures.{
  access_claims, callback_request, command_request, deployment, now_ms,
}
use logi_track.Http.{Location, Response, cookie_beq, cookie_eq, header, no_body}
use logi_track.Js.Dict.{get, set}
use logi_track.Js.Json.{is_text, property}
use logi_track.Js.Result.{Result, ok, thrown}
use logi_track.Js.Text.{
  before, decimal, decimal_from, includes_unit, is_digits, is_space, join, js, lower_unit,
  starts_with, to_lower_case, trim, trim_start, truthy,
}

check_claims_iff_example :
    (check_claims (js "client") 1500 access_claims ≡ ok access_claims)
    ↔ ((access_claims ≡ access_claims) × IsAuthorised (js "client") 1500 access_claims)
check_claims_iff_example = check_claims_iff (js "client") 1500 access_claims access_claims

verify_access_token_iff_example :
    ((verify_access_token deployment (js "at") now_ms []).0 ≡ ok access_claims)
    ↔ IsVerified deployment (js "at") now_ms access_claims
verify_access_token_iff_example =
    verify_access_token_iff deployment (js "at") now_ms [] access_claims
      (empty-IsConsistent deployment)

-- The token of the examples is accepted.
accepted : (verify_access_token deployment (js "at") now_ms []).0 ≡ ok access_claims
unfolding valid_subject valid_issued_at valid_expiry valid_lifetime check_claims create_jwks
    cognito_jwks verify_access_token without_last_slash trimmed_env env_is required validated_url
    endpoint callback access_token_config auth_config application_origin secure_cookie expiry_of
    with_cookie cleared clear_all clear_transient provider_logout destination_from logged_out logout
    is_same_origin_mutation cookie_beq header get set property is_text js is_space trim_start trim
    lower_unit to_lower_case before includes_unit starts_with is_digits decimal_from decimal join
    ◌-ℤ◌ list_beq
accepted = refl

cognito_jwks_lem_example :
    ((cognito_jwks deployment (js "https://i.test") []).0
      ≡ create_jwks deployment (js "https://i.test"))
    × IsConsistent deployment (cognito_jwks deployment (js "https://i.test") []).1
cognito_jwks_lem_example =
    cognito_jwks_lem deployment (js "https://i.test") [] (empty-IsConsistent deployment)

from_own_page : is_same_origin_mutation deployment command_request ≡ true
unfolding valid_subject valid_issued_at valid_expiry valid_lifetime check_claims create_jwks
    cognito_jwks verify_access_token without_last_slash trimmed_env env_is required validated_url
    endpoint callback access_token_config auth_config application_origin secure_cookie expiry_of
    with_cookie cleared clear_all clear_transient provider_logout destination_from logged_out logout
    is_same_origin_mutation cookie_beq header get set property is_text js is_space trim_start trim
    lower_unit to_lower_case before includes_unit starts_with is_digits decimal_from decimal join
    ◌-ℤ◌ list_beq
from_own_page = refl

abbrev no_response : Response
no_response = record { status = 0; location = none; headers = []; cookies = []; body = no_body }

abbrev response_or_none : Result Response → Response
response_or_none (ok r) = r
response_or_none (thrown e) = no_response

abbrev the_logout : Response
the_logout = response_or_none (logout deployment command_request)

logs_out : logout deployment command_request ≡ ok the_logout
unfolding valid_subject valid_issued_at valid_expiry valid_lifetime check_claims create_jwks
    cognito_jwks verify_access_token without_last_slash trimmed_env env_is required validated_url
    endpoint callback access_token_config auth_config application_origin secure_cookie expiry_of
    with_cookie cleared clear_all clear_transient provider_logout destination_from logged_out logout
    is_same_origin_mutation cookie_beq header get set property is_text js is_space trim_start trim
    lower_unit to_lower_case before includes_unit starts_with is_digits decimal_from decimal join
    ◌-ℤ◌ list_beq
logs_out = refl

logout_sound_example :
    ((is_same_origin_mutation deployment command_request ≡ false)
      × (the_logout.status ≡ 403)
      × (the_logout.cookies ≡ []))
    ⊎ (IsSameOrigin deployment command_request
        × (the_logout.status ≡ 303)
        × AllCleared deployment the_logout
        × ((target : Location) × (the_logout.location ≡ some target)
            × IsDestination deployment command_request target))
logout_sound_example = logout_sound deployment command_request the_logout logs_out

abbrev secrets : Secrets
secrets = record { drawn_state = js "s"; drawn_nonce = js "n"; drawn_verifier = js "v" }

abbrev location_or_none : Option Location → Location
location_or_none (some target) = target
location_or_none none = record {
  url = record {
    href = [];
    origin = [];
    protocol = [];
    username = [];
    password = [];
    search = [];
    hash = [];
  };
  query = [];
}

abbrev the_target : Location
the_target = location_or_none (login deployment secrets).location

drawn : IsDrawn secrets
unfolding js
drawn = record {
  state_given = refl;
  nonce_given = refl;
  verifier_given = refl;
  state_short = ground arith;
}

goes : (login deployment secrets).location ≡ some the_target
unfolding without_last_slash trimmed_env env_is required validated_url endpoint callback
    access_token_config auth_config application_origin secure_cookie expiry_of with_cookie cleared
    clear_all clear_transient authorize_query authorize start_login login cookie_beq header get set
    js is_space trim_start trim lower_unit to_lower_case before includes_unit starts_with is_digits
    decimal_from decimal join list_beq
goes = refl

returns : Returns (login deployment secrets) the_target callback_request
unfolding without_last_slash trimmed_env env_is required validated_url endpoint callback
    access_token_config auth_config application_origin secure_cookie expiry_of with_cookie cleared
    clear_all clear_transient authorize_query authorize start_login login cookie_beq header get set
    js is_space trim_start trim lower_unit to_lower_case before includes_unit starts_with is_digits
    decimal_from decimal join list_beq
returns = record {
  state_cookie = (_, refl, refl);
  nonce_cookie = (_, refl, refl);
  verifier_cookie = (_, refl, refl);
  same_state = refl;
}

code_given : truthy (header callback_request.search_params (js "code")) ≡ true
unfolding without_last_slash trimmed_env env_is required validated_url endpoint callback
    access_token_config auth_config application_origin secure_cookie expiry_of with_cookie cleared
    clear_all clear_transient authorize_query authorize start_login login cookie_beq header get set
    js is_space trim_start trim lower_unit to_lower_case before includes_unit starts_with is_digits
    decimal_from decimal join list_beq
code_given = refl

code_short : length (header callback_request.search_params (js "code")) ≤ 4096
unfolding without_last_slash trimmed_env env_is required validated_url endpoint callback
    access_token_config auth_config application_origin secure_cookie expiry_of with_cookie cleared
    clear_all clear_transient authorize_query authorize start_login login cookie_beq header get set
    js is_space trim_start trim lower_unit to_lower_case before includes_unit starts_with is_digits
    decimal_from decimal join list_beq
code_short = ground arith

login-Returns_example :
    (has_valid_input (input_of callback_request) ≡ true)
    × IsMatched deployment secrets the_target (input_of callback_request)
login-Returns_example =
    login-Returns deployment secrets the_target callback_request drawn goes returns code_given
      code_short
