-- ===== src/Examples/Commands.antt =====
-- A command of a signed-in operator, which the proxy sends on.
use logi_track.Auth.AccessToken.{
  check_claims, cognito_jwks, create_jwks, valid_expiry, valid_issued_at, valid_lifetime,
  valid_subject, verify_access_token,
}
use logi_track.Auth.AccessToken.Verify.{empty-IsConsistent}
use logi_track.Auth.Config.{
  access_token_config, application_origin, auth_config, callback, endpoint, env_is, required,
  secure_cookie, trimmed_env, validated_url, without_last_slash,
}
use logi_track.Auth.Cookies.{clear_all, clear_transient, cleared, expiry_of, with_cookie}
use logi_track.Auth.RequestOrigin.{is_same_origin_mutation}
use logi_track.Backend.Handler.{
  deliver, forward, forwarded_request, invalid_authentication, migrate, proxy, send,
  upstream_answer, upstream_base,
}
use logi_track.Backend.Parts.{
  Forwarded, Handled, Upstream, can_respond, copy_headers, encode_path, is_bad_path, json_error,
  read_bounded_body, response_body,
}
use logi_track.Backend.Safety.{IsAllowed, proxy_sound}
use logi_track.Base.{List, Option, [], list_beq, none, refl, some, ◌∷◌, ◌≡◌}
use logi_track.Base.Int.{◌-ℤ◌}
use logi_track.Bytes.{assemble, collect, read_bounded, write_at}
use logi_track.Examples.Fixtures.{command_request, deployment, now_ms, two_bytes}
use logi_track.Headers.{exceeds, media_type}
use logi_track.Http.{cookie_beq, header, no_body}
use logi_track.Js.Dict.{get, set}
use logi_track.Js.Json.{is_text, property}
use logi_track.Js.Result.{Result, ok, thrown}
use logi_track.Js.Text.{
  JsString, before, decimal, decimal_from, includes_unit, is_digits, is_space, join, js, lower_unit,
  starts_with, to_lower_case, trim, trim_start,
}
use logi_track.Js.Unicode.{encode_uri_component, is_unreserved, points, utf8}

abbrev path : List JsString
path = js "api" ∷ js "orders" ∷ []

abbrev api : Forwarded → Option Upstream
api forwarded = some (record {
  status = 201;
  headers = (js "content-type", js "application/json") ∷ [];
  body = some two_bytes;
})

abbrev nothing_sent : Handled
nothing_sent = record {
  sent = none;
  response = record { status = 0; location = none; headers = []; cookies = []; body = no_body };
}

abbrev handled_or_none : Result Handled → Handled
handled_or_none (ok h) = h
handled_or_none (thrown e) = nothing_sent

abbrev the_run : Handled
the_run = handled_or_none (proxy deployment api command_request path now_ms now_ms []).0

abbrev sent_or : Option Forwarded → Forwarded → Forwarded
sent_or none otherwise = otherwise
sent_or (some f) otherwise = f

abbrev the_request : Forwarded
the_request = sent_or the_run.sent (record {
  url = record {
    href = [];
    origin = [];
    protocol = [];
    username = [];
    password = [];
    search = [];
    hash = [];
  };
  search = [];
  method = [];
  headers = [];
  body = none;
})

answers : (proxy deployment api command_request path now_ms now_ms []).0 ≡ ok the_run
unfolding valid_subject valid_issued_at valid_expiry valid_lifetime check_claims create_jwks
    cognito_jwks verify_access_token without_last_slash trimmed_env env_is required validated_url
    endpoint callback access_token_config auth_config application_origin secure_cookie expiry_of
    with_cookie cleared clear_all clear_transient is_same_origin_mutation upstream_base
    invalid_authentication migrate upstream_answer forwarded_request deliver send forward proxy
    json_error copy_headers is_bad_path read_bounded_body encode_path can_respond response_body
    collect write_at assemble read_bounded exceeds media_type cookie_beq header get set property
    is_text js is_space trim_start trim lower_unit to_lower_case before includes_unit starts_with
    is_digits decimal_from decimal join points utf8 is_unreserved encode_uri_component ◌-ℤ◌ list_beq
answers = refl

sends : the_run.sent ≡ some the_request
unfolding valid_subject valid_issued_at valid_expiry valid_lifetime check_claims create_jwks
    cognito_jwks verify_access_token without_last_slash trimmed_env env_is required validated_url
    endpoint callback access_token_config auth_config application_origin secure_cookie expiry_of
    with_cookie cleared clear_all clear_transient is_same_origin_mutation upstream_base
    invalid_authentication migrate upstream_answer forwarded_request deliver send forward proxy
    json_error copy_headers is_bad_path read_bounded_body encode_path can_respond response_body
    collect write_at assemble read_bounded exceeds media_type cookie_beq header get set property
    is_text js is_space trim_start trim lower_unit to_lower_case before includes_unit starts_with
    is_digits decimal_from decimal join points utf8 is_unreserved encode_uri_component ◌-ℤ◌ list_beq
sends = refl

proxy_sound_example : IsAllowed deployment command_request path now_ms the_request
proxy_sound_example =
    proxy_sound deployment api command_request path now_ms now_ms the_run the_request sends []
      (empty-IsConsistent deployment) answers
