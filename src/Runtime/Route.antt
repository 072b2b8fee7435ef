-- ===== src/Runtime/Route.antt =====
-- web/app/api/runtime-version/route.ts: the answer that the guard asks for.
use logi_track.Js.Text.{JsString, js}
use logi_track.Http.{Platform}
use logi_track.Auth.Cookies.{text_of}
use logi_track.Csp.{text_or}
use logi_track.Runtime.{Answer}

-- The body of the answer. `runtime_version` is the random identifier of the process.
unfoldable pub version_answer : Platform → JsString → Answer
version_answer p runtime_version = record {
  version = runtime_version;
  revision = text_or (text_of (p.env (js "APP_REVISION"))) (js "local");
  built_at = text_or (text_of (p.env (js "APP_BUILD_TIME"))) (js "unknown");
  environment = text_or (text_of (p.env (js "APP_ENVIRONMENT"))) (js "local");
}
