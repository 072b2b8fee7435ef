-- ===== src/Examples/Pages.antt =====
-- A page for a signed-in operator.
use logi_track.Auth.AccessToken.{
  check_claims, cognito_jwks, create_jwks, valid_expiry, valid_issued_at, valid_lifetime,
  valid_subject, verify_access_token,
}
use logi_track.Auth.AccessToken.Verify.{empty-IsConsistent}
use logi_track.Auth.Config.{
  access_token_config, application_origin, auth_config, callback, endpoint, env_is, required,
  secure_cookie, trimmed_env, validated_url, without_last_slash,
}
use logi_track.Auth.Cookies.{clear_all, clear_transient, cleared, expiry_of, with_cookie}
use logi_track.Base.{[], list_beq, none, refl, ◌≡◌, some, Option, list_eq, nat_eq}
use logi_track.Base.Int.{◌-ℤ◌}
use logi_track.Csp.{
  api_origin, content_security_policy, directives, first_of_each, given, is_nonce, map_origin,
  script_sources, source_origin,
}
use logi_track.Examples.Fixtures.{deployment, now_ms, signed_in_request}
use logi_track.Gate.{
  Gated, admit, continued, gate, gate_with, is_public_page, migrate_cookie, redirected, response_of,
  send_to_login, to_login, valid_access_token,
}
use logi_track.Gate.Access.{IsAdmitted, gate_sound}
use logi_track.Gate.Policy.{Carries, gate-Carries}
use logi_track.Http.{Response, cookie_beq, header, no_body}
use logi_track.Js.Dict.{Dict, get, set}
use logi_track.Js.Json.{is_text, property}
use logi_track.Js.Result.{Result, ok, thrown}
use logi_track.Js.Text.{
  JsString, before, decimal, decimal_from, includes_unit, is_digits, is_space, join, js, lower_unit,
  starts_with, to_lower_case, trim, trim_start,
}

abbrev nonce : JsString
nonce = js "bm9uY2U="

abbrev text_or_none : Result JsString → JsString
text_or_none (ok s) = s
text_or_none (thrown e) = []

abbrev the_policy : JsString
the_policy = text_or_none (content_security_policy deployment nonce)

policy : content_security_policy deployment nonce ≡ ok the_policy
unfolding valid_subject valid_issued_at valid_expiry valid_lifetime check_claims create_jwks
    cognito_jwks verify_access_token without_last_slash trimmed_env env_is required validated_url
    endpoint callback access_token_config auth_config application_origin secure_cookie expiry_of
    with_cookie cleared clear_all clear_transient is_nonce first_of_each given source_origin
    api_origin map_origin script_sources directives content_security_policy is_public_page
    migrate_cookie admit to_login send_to_login valid_access_token gate_with gate cookie_beq header
    get set property is_text js is_space trim_start trim lower_unit to_lower_case before
    includes_unit starts_with is_digits decimal_from decimal join ◌-ℤ◌ list_beq
policy = refl

abbrev origin : Option JsString
origin = some (js "https://app.test")

abbrev no_response : Response
no_response = record { status = 0; location = none; headers = []; cookies = []; body = no_body }

abbrev gated_or_none : Result Gated → Gated
gated_or_none (ok g) = g
gated_or_none (thrown e) = redirected no_response

abbrev headers_of : Gated → Dict JsString JsString
headers_of (continued headers r) = headers
headers_of (redirected r) = []

abbrev the_answer : Gated
the_answer = gated_or_none (gate deployment nonce signed_in_request now_ms now_ms []).0

answers : (gate deployment nonce signed_in_request now_ms now_ms []).0 ≡ ok the_answer
unfolding valid_subject valid_issued_at valid_expiry valid_lifetime check_claims create_jwks
    cognito_jwks verify_access_token without_last_slash trimmed_env env_is required validated_url
    endpoint callback access_token_config auth_config application_origin secure_cookie expiry_of
    with_cookie cleared clear_all clear_transient is_nonce first_of_each given source_origin
    api_origin map_origin script_sources directives content_security_policy is_public_page
    migrate_cookie admit to_login send_to_login valid_access_token gate_with gate cookie_beq header
    get set property is_text js is_space trim_start trim lower_unit to_lower_case before
    includes_unit starts_with is_digits decimal_from decimal join ◌-ℤ◌ list_beq
answers = refl

continues :
    (gate deployment nonce signed_in_request now_ms now_ms []).0
    ≡ ok (continued (headers_of the_answer) (response_of the_answer))
unfolding valid_subject valid_issued_at valid_expiry valid_lifetime check_claims create_jwks
    cognito_jwks verify_access_token without_last_slash trimmed_env env_is required validated_url
    endpoint callback access_token_config auth_config application_origin secure_cookie expiry_of
    with_cookie cleared clear_all clear_transient is_nonce first_of_each given source_origin
    api_origin map_origin script_sources directives content_security_policy is_public_page
    migrate_cookie admit to_login send_to_login valid_access_token gate_with gate cookie_beq header
    get set property is_text js is_space trim_start trim lower_unit to_lower_case before
    includes_unit starts_with is_digits decimal_from decimal join ◌-ℤ◌ list_beq
continues = refl

gate_sound_example : IsAdmitted deployment signed_in_request now_ms (response_of the_answer)
gate_sound_example =
    gate_sound deployment nonce signed_in_request now_ms now_ms [] (empty-IsConsistent deployment)
      (headers_of the_answer) (response_of the_answer) continues

gate-Carries_example : Carries nonce the_policy the_answer
gate-Carries_example =
    gate-Carries deployment nonce the_policy signed_in_request now_ms now_ms [] the_answer policy
      answers
