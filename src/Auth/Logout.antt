-- ===== src/Auth/Logout.antt =====
-- web/app/auth/logout/route.ts: `POST`, the end of a session.
pub mod Clearing
use logi_track.Base.{not, list_eq, nat_eq, List, none, some, [], ◌∷◌, ◌++◌, if◌then◌else◌}
use logi_track.Js.Text.{JsString, js}
use logi_track.Js.Result.{Result, ok, thrown, ◌>>=◌}
use logi_track.Js.Dict.{set}
use logi_track.Http.{
  Url, Platform, AuthCookie, access, legacy_access, Location, Response, no_body, error_json,
  Request,
}
use logi_track.Auth.Config.{AuthConfig, auth_config, parsed, application_origin}
use logi_track.Auth.Cookies.{clear_all, transient_cookies}
use logi_track.Auth.RequestOrigin.{is_same_origin_mutation}

abbrev pub cross_origin_logout : Response
cross_origin_logout = record {
  status = 403;
  location = none;
  headers = (js "cache-control", js "no-store") ∷ [];
  cookies = [];
  body = error_json (js "cross_origin_logout_rejected");
}

abbrev pub session_cookies : List AuthCookie
session_cookies = access ∷ legacy_access ∷ []

-- The search parameters of the provider's logout URL
abbrev pub logout_query : AuthConfig → List (JsString × JsString)
logout_query c = (js "client_id", c.client_id) ∷ (js "logout_uri", c.post_logout_redirect_uri) ∷ []

module _ (p : Platform) where
  -- The body of the `try`.
  unfoldable pub provider_logout : Result Location
  provider_logout = do
    c ← auth_config p
    url ← parsed (p.new_url (c.auth_base ++ js "/logout"))
    ok (record { url = url; query = logout_query c })

  -- `destination`, from the application's own login page
  unfoldable pub destination_from : Url → Location
  destination_from login_page = elim provider_logout [
    | ok location ↦ location
    | thrown e ↦ record { url = login_page; query = [] }
  ]

  unfoldable pub logged_out : Location → Response
  logged_out destination =
      let response = clear_all p transient_cookies (
        clear_all p session_cookies (record {
          status = 303;
          location = some destination;
          headers = [];
          cookies = [];
          body = no_body;
        })) in
      record response {
        headers =
            set (set response.headers (js "cache-control") (js "no-store")) (js "clear-site-data")
              (js "\"cache\", \"storage\"");
      }

  unfoldable pub logout : Request → Result Response
  logout request = if not (is_same_origin_mutation p request) then ok cross_origin_logout else (do
    origin ← application_origin p request.origin
    login_page ← parsed (p.resolve_url (js "/login") origin)
    ok (logged_out (destination_from login_page)))
