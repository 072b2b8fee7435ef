-- ===== src/Csp/Directives.antt =====
-- web/csp.ts: the directives of a policy that is built.
use logi_track.Base.{◌≡◌, Bool, Option, List, [], ◌∷◌, ◌++◌, nat_eq, list_eq, if◌then◌else◌}
use logi_track.Js.Text.{JsString, js}
use logi_track.Http.{Platform}
use logi_track.Auth.Cookies.{text_of}
use logi_track.Csp.Reading.{count}
use logi_track.Csp.{connect_sources}

-- An origin of the configuration without the separator of directives
abbrev pub IsPlain : Option JsString → Type 0
IsPlain origin = count b';' (text_of origin) ≡ 0

abbrev pub directive_names : List JsString
directive_names =
    js "default-src"
    ∷ js "base-uri"
    ∷ js "connect-src"
    ∷ js "font-src"
    ∷ js "form-action"
    ∷ js "frame-ancestors"
    ∷ js "frame-src"
    ∷ js "img-src"
    ∷ js "media-src"
    ∷ js "object-src"
    ∷ js "script-src"
    ∷ js "style-src"
    ∷ js "style-src-elem"
    ∷ js "style-src-attr"
    ∷ js "worker-src"
    ∷ []

module _ (p : Platform) where
  -- The directives that are meant, for the kind of build
  abbrev pub meant :
      (is_development : Bool) → (api map_server : Option JsString) → JsString → List JsString
  meant is_development api map_server nonce =
      js "default-src 'self'"
      ∷ js "base-uri 'self'"
      ∷ (js "connect-src " ++ connect_sources p api map_server)
      ∷ js "font-src 'self' data:"
      ∷ js "form-action 'self'"
      ∷ js "frame-ancestors 'none'"
      ∷ js "frame-src 'none'"
      ∷ (js "img-src 'self' data: blob: " ++ text_of map_server)
      ∷ js "media-src 'none'"
      ∷ js "object-src 'none'"
      ∷ (js "script-src 'self' 'nonce-"
          ++ nonce
          ++ (if is_development
              then js "' 'strict-dynamic' 'unsafe-eval'"
              else js "' 'strict-dynamic'"))
      ∷ js "style-src 'self'"
      ∷ (js "style-src-elem 'self' 'nonce-" ++ nonce ++ js "'")
      ∷ js "style-src-attr 'unsafe-inline'"
      ∷ js "worker-src 'self' blob:"
      ∷ []
