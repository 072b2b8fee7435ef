-- ===== src/Api.antt =====
-- web/app/api.ts: `fetchJson`, and the error that a refused request becomes.
use logi_track.Base.{
  ℕ, zero, ◌∙◌, ap, ◌+◌, ◌/◌, ◌%◌, Bool, true, false, ◌≡◌, refl, ◌≢◌, ◌⊎◌, Option, none, some, [],
  ◌∷◌, ◌++◌, if◌then◌else◌, Bool-cases, inl, inr,
}
use logi_track.Js.Text.{JsString, js, truthy}
use logi_track.Base.Int.{pos}
use logi_track.Js.Json.{
  Json, JsNumber, integer, undefined, null, bool, number, text, array, object, property,
}

-- A response as far as it is read. `json` is `none` where `response.json()` throws, and `trace_id` is
-- the X-Trace-Id header, empty where it is missing.
pub record ApiResponse : Type 0 where
  pub is_ok : Bool
  pub status : ℕ
  pub trace_id : JsString
  pub json : Option Json

-- `ApiRequestError`
pub record ApiRequestError : Type 0 where
  pub status : ℕ
  pub trace_id : Option JsString
  pub message : JsString

-- What `fetchJson` ends in: the body, its error, or an error of `fetch` or of the body's parser.
pub data Fetched : Type 0 where
  fetched : Json → Fetched
  request_error : ApiRequestError → Fetched
  other_error : Fetched

-- A status in decimal: it has three digits.
abbrev pub status_text : ℕ → JsString
status_text status = (b'0' + status / 100) ∷ (b'0' + status / 10 % 10) ∷ (b'0' + status % 10) ∷ []

-- `detail.error`; of `null` it throws, and of anything else that is no object it is missing.
abbrev pub detail_error : Json → Json
detail_error (object detail) = property detail (js "error")
detail_error _ = undefined

-- Whether a value of JSON is truthy
abbrev pub json_truthy : Json → Bool
json_truthy undefined = false
json_truthy null = false
json_truthy (bool b) = b
json_truthy (number (integer (pos zero))) = false
json_truthy (text s) = truthy s
json_truthy _ = true

-- What the `try` reads; without a body it throws.
abbrev pub told_error : Option Json → Json
told_error none = undefined
told_error (some detail) = detail_error detail

-- `message` after the `try`: any truthy `detail.error`, or a text of the code's own
unfoldable pub error_message : ApiResponse → Json
error_message r =
    if json_truthy (told_error r.json)
    then told_error r.json
    else text (js "API request failed with HTTP " ++ status_text r.status)

module _ (to_string : Json → Option JsString) where
  -- `super(message)`, the text of a value. `to_string` is `String(value)` for one that is no text,
  -- and none where it throws.
  abbrev pub message_text : Json → Option JsString
  message_text (text s) = some s
  message_text value = to_string value

  -- `new ApiRequestError(status, trace_id, message)`, thrown
  abbrev pub throw_request_error : ApiResponse → Option JsString → Fetched
  throw_request_error r none = other_error
  throw_request_error r (some message) = request_error (record {
    status = r.status;
    trace_id = if truthy r.trace_id then some r.trace_id else none;
    message = message;
  })

  -- `none` is a `fetch` that throws.
  unfoldable pub fetch_json : Option ApiResponse → Fetched
  fetch_json none = other_error
  fetch_json (some r) =
      if r.is_ok
      then (elim r.json [ none ↦ other_error | some json ↦ fetched json ])
      else throw_request_error r (message_text (error_message r))

  -- What the API has told as its error, where it is truthy, and else the code's own text
  abbrev pub IsToldBy : ApiResponse → JsString → Type 0
  IsToldBy r message =
      ((json_truthy (told_error r.json) ≡ true) × (message_text (told_error r.json) ≡ some message))
      ⊎ ((json_truthy (told_error r.json) ≡ false)
          × (message ≡ js "API request failed with HTTP " ++ status_text r.status))

-- What `String` gives for `true` and for numbers: a text that is not empty
abbrev pub WritesScalars : (Json → Option JsString) → Type 0
WritesScalars to_string =
    (to_string (bool true) ≡ some (js "true"))
    × ((n : JsNumber) → (s : JsString) × (to_string (number n) ≡ some s) × (truthy s ≡ true))

-- A value that is neither an array nor an object
abbrev pub IsScalar : Json → Type 0
IsScalar array = ⊥
IsScalar (object _) = ⊥
IsScalar _ = Unit {0}

module _ (to_string : Json → Option JsString) (writes : WritesScalars to_string) where
  scalar_text :
      (value : Json)
      → IsScalar value
      → json_truthy value ≡ true
      → (s : JsString) × (message_text to_string value ≡ some s) × (truthy s ≡ true)
  unfolding js
  scalar_text undefined scalar t = absurd (cc)
  scalar_text null scalar t = absurd (cc)
  scalar_text (bool true) scalar t = (js "true", writes.0, refl)
  scalar_text (bool false) scalar t = absurd (cc)
  scalar_text (number n) scalar t = writes.1 n
  scalar_text (text s) scalar t = (s, refl, t)
  scalar_text array scalar t = elim scalar [ ]
  scalar_text (object _) scalar t = elim scalar [ ]

  message_given :
      (r : ApiResponse)
      → IsScalar (told_error r.json)
      → (s : JsString) × (message_text to_string (error_message r) ≡ some s)
        × (truthy s ≡ true)
        × IsToldBy to_string r s
  unfolding error_message js
  message_given r scalar = elim (Bool-cases (json_truthy (told_error r.json))) [
    | inl told ↦
        let (s, written, given) = scalar_text (told_error r.json) scalar told in
        rw told (s, written, given, inl (refl, written))
    | inr missing ↦
        rw missing
          (js "API request failed with HTTP " ++ status_text r.status, refl, refl, inr (refl, refl))
  ]

  -- A response that is not ok never counts as data: whatever its body is, or where it has none, as long
  -- as the `error` in it is no array and no object, the request ends in the error with its status, a
  -- trace id that is not empty or none, and a message that is not empty: the text of that `error` where it
  -- is truthy, and else the code's own with the status. `String` writes `true` and numbers as texts that
  -- are not empty.
  pub fetch_json_lem :
      (r : ApiResponse)
      → r.is_ok ≡ false
      → IsScalar (told_error r.json)
      → (e : ApiRequestError) × (fetch_json to_string (some r) ≡ request_error e)
        × (e.status ≡ r.status)
        × (e.trace_id ≢ some [])
        × (truthy e.message ≡ true)
        × IsToldBy to_string r e.message
  unfolding fetch_json
  fetch_json_lem r refused scalar =
      let (message, written, given, ours) = message_given r scalar in
      let sent : fetch_json to_string (some r)
          ≡ throw_request_error to_string r (message_text to_string (error_message r)) =
        rw refused refl in
      (
        record {
          status = r.status;
          trace_id = if truthy r.trace_id then some r.trace_id else none;
          message = message;
        },
        sent ∙ ap (throw_request_error to_string r) written,
        refl,
        not_empty r.trace_id,
        given,
        ours,
      )
    where
      not_empty : (t : JsString) → (if truthy t then some t else none) ≢ some []
      not_empty [] e = cc
      not_empty (u ∷ t) e = cc
