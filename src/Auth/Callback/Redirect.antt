-- ===== src/Auth/Callback/Redirect.antt =====
-- web/app/auth/callback/route.ts: the redirects back into the application.
use logi_track.Base.{some, [], ◌∷◌, ◌++◌}
use logi_track.Js.Text.{JsString, js}
use logi_track.Js.Unicode.{encode_uri_component}
use logi_track.Js.Result.{Result, ok, ◌>>=◌}
use logi_track.Http.{Url, Platform, Request, Response, no_body}
use logi_track.Auth.Config.{application_origin, parsed}
use logi_track.Auth.Cookies.{clear_transient}

abbrev pub redirect_to : Url → Response
redirect_to url = record {
  status = 307;
  location = some (record { url = url; query = [] });
  headers = (js "cache-control", js "no-store") ∷ [];
  cookies = [];
  body = no_body;
}

module _ (p : Platform) where
  -- `NextResponse.redirect(new URL(path, applicationOrigin(request.nextUrl.origin)))`, and the
  -- `Cache-Control` header that is set on it
  unfoldable pub redirect_within : Request → JsString → Result Response
  redirect_within request path = do
    origin ← application_origin p request.origin
    url ← parsed (p.resolve_url path origin)
    ok (redirect_to url)

  -- `finish(reason)`: back to the login page
  unfoldable pub finish : Request → JsString → Result Response
  finish request reason = do
    encoded ← encode_uri_component reason
    response ← redirect_within request (js "/login?error=" ++ encoded)
    ok (clear_transient p response)
