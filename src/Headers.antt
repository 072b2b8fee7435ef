-- ===== src/Headers.antt =====
-- Readings of two header values, written the same in web/app/backend and web/app/auth/callback.
use logi_track.Base.{ℕ, Bool, not, ◌&&◌, ◌||◌, ltb}
use logi_track.Js.Text.{JsString, truthy, trim, to_lower_case, before, is_digits, decimal}

-- A declared length that is no number, or above the limit.
unfoldable pub exceeds : ℕ → JsString → Bool
exceeds limit declared =
    truthy declared && (not (is_digits declared) || ltb limit (decimal declared))

-- `contentType.split(";", 1)[0].trim().toLowerCase()`
unfoldable pub media_type : JsString → JsString
media_type content_type = to_lower_case (trim (before b';' content_type))
