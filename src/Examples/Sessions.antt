-- ===== src/Examples/Sessions.antt =====
-- The sign-in, at a callback that succeeds.
use logi_track.Auth.AccessToken.{
  check_claims, cognito_jwks, create_jwks, valid_expiry, valid_issued_at, valid_lifetime,
  valid_subject, verify_access_token,
}
use logi_track.Auth.AccessToken.Verify.{empty-IsConsistent}
use logi_track.Auth.Callback.Handler.{
  after_exchange, after_read, attempt, check_id_claims, establish, handle, has_valid_input,
  input_of, session_max_age, with_session,
}
use logi_track.Auth.Callback.Redirect.{finish, redirect_within}
use logi_track.Auth.Callback.Reset.{IsReset, handle_resets}
use logi_track.Auth.Callback.Safety.{handle_sound}
use logi_track.Auth.Callback.Session.{IsSession}
use logi_track.Auth.Callback.TokenResponse.{
  is_bearer, is_token_response, read_body, read_bounded_token_response, same_subject, sized_text,
  valid_callback_input, valid_expires_in,
}
use logi_track.Auth.Config.{
  access_token_config, application_origin, auth_config, callback, endpoint, env_is, required,
  secure_cookie, trimmed_env, validated_url, without_last_slash,
}
use logi_track.Auth.Cookies.{clear_all, clear_transient, cleared, expiry_of, with_cookie}
use logi_track.Base.{[], list_beq, none, refl, some, ◌≡◌}
use logi_track.Base.Int.{◌-ℤ◌}
use logi_track.Bytes.{assemble, collect, read_bounded, write_at}
use logi_track.Examples.Fixtures.{callback_request, deployment, now_ms, provider}
use logi_track.Headers.{exceeds, media_type}
use logi_track.Http.{Cookie, Response, access, cookie_beq, cookie_eq, header, no_body}
use logi_track.Js.Dict.{get, set}
use logi_track.Js.Json.{is_text, property}
use logi_track.Js.Result.{Result, ok, thrown}
use logi_track.Js.Text.{
  before, decimal, decimal_from, is_digits, is_space, js, lower_unit, to_lower_case, trim,
  trim_start,
}
use logi_track.Js.Unicode.{points, utf8}

abbrev no_response : Response
no_response = record { status = 0; location = none; headers = []; cookies = []; body = no_body }

abbrev response_or_none : Result Response → Response
response_or_none (ok r) = r
response_or_none (thrown e) = no_response

abbrev the_response : Response
the_response = response_or_none (handle deployment provider callback_request now_ms now_ms []).0

abbrev the_cookie : Cookie
unfolding valid_subject valid_issued_at valid_expiry valid_lifetime check_claims create_jwks
    cognito_jwks verify_access_token check_id_claims session_max_age input_of has_valid_input
    with_session establish after_read after_exchange attempt handle redirect_within finish
    valid_callback_input sized_text is_bearer valid_expires_in is_token_response same_subject
    read_body read_bounded_token_response without_last_slash trimmed_env env_is required
    validated_url endpoint callback access_token_config auth_config application_origin secure_cookie
    expiry_of with_cookie cleared clear_all clear_transient collect write_at assemble read_bounded
    exceeds media_type cookie_beq header get set property is_text js is_space trim_start trim
    lower_unit to_lower_case before is_digits decimal_from decimal points utf8 ◌-ℤ◌ list_beq
the_cookie = elim (get the_response.cookies access) [ none ↦ cleared deployment | some c ↦ c ]

answers : (handle deployment provider callback_request now_ms now_ms []).0 ≡ ok the_response
unfolding valid_subject valid_issued_at valid_expiry valid_lifetime check_claims create_jwks
    cognito_jwks verify_access_token check_id_claims session_max_age input_of has_valid_input
    with_session establish after_read after_exchange attempt handle redirect_within finish
    valid_callback_input sized_text is_bearer valid_expires_in is_token_response same_subject
    read_body read_bounded_token_response without_last_slash trimmed_env env_is required
    validated_url endpoint callback access_token_config auth_config application_origin secure_cookie
    expiry_of with_cookie cleared clear_all clear_transient collect write_at assemble read_bounded
    exceeds media_type cookie_beq header get set property is_text js is_space trim_start trim
    lower_unit to_lower_case before is_digits decimal_from decimal points utf8 ◌-ℤ◌ list_beq
answers = refl

opens : get the_response.cookies access ≡ some the_cookie
unfolding valid_subject valid_issued_at valid_expiry valid_lifetime check_claims create_jwks
    cognito_jwks verify_access_token check_id_claims session_max_age input_of has_valid_input
    with_session establish after_read after_exchange attempt handle redirect_within finish
    valid_callback_input sized_text is_bearer valid_expires_in is_token_response same_subject
    read_body read_bounded_token_response without_last_slash trimmed_env env_is required
    validated_url endpoint callback access_token_config auth_config application_origin secure_cookie
    expiry_of with_cookie cleared clear_all clear_transient collect write_at assemble read_bounded
    exceeds media_type cookie_beq header get set property is_text js is_space trim_start trim
    lower_unit to_lower_case before is_digits decimal_from decimal points utf8 ◌-ℤ◌ list_beq
opens = refl

handle_sound_example : IsSession deployment provider callback_request now_ms now_ms the_cookie
handle_sound_example =
    handle_sound deployment provider callback_request now_ms now_ms the_response the_cookie opens []
      (empty-IsConsistent deployment) answers

handle_resets_example : IsReset deployment the_response
handle_resets_example =
    handle_resets deployment provider callback_request now_ms now_ms the_response [] answers
