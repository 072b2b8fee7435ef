-- ===== src/Examples/Loads.antt =====
-- Two pages of rows, and a refused request.
use logi_track.Base.{
  ℕ, zero, suc, ◌≤◌, ◌≡◌, ◌≢◌, refl, true, false, some, List, [], ◌∷◌, arith, length, list_beq,
  Option,
}
use logi_track.Js.Text.{JsString, js, truthy}
use logi_track.Js.Result.{Result, ok, thrown}
use logi_track.Console.Types.{PageResult}
use logi_track.Console.Rows.{distinct, HasDistinctIds}
use logi_track.Console.Paging.{load_pages, load_distinct}
use logi_track.Console.Paging.Complete.{Serves, items_of, load_pages_lem}
use logi_track.Js.Json.{Json, bool, number, fractional, array, object, field, end, property}
use logi_track.Api.{
  ApiResponse, ApiRequestError, request_error, told_error, error_message, fetch_json, IsToldBy,
  WritesScalars, IsScalar, fetch_json_lem,
}

abbrev first_page : PageResult JsString
first_page = record {
  items = js "a" ∷ js "b" ∷ [];
  page = 0;
  size = 2;
  total_elements = 3;
  has_more = true;
}

abbrev last_page : PageResult JsString
last_page = record { items = js "b" ∷ []; page = 1; size = 2; total_elements = 3; has_more = false }

abbrev pages : List (PageResult JsString)
pages = first_page ∷ last_page ∷ []

abbrev server : ℕ → Result (PageResult JsString)
server zero = ok first_page
server (suc zero) = ok last_page
server (suc (suc n)) = thrown []

served : Serves server 0 pages
served = (refl, refl, (refl, refl))

enough : length pages ≤ 5
enough = ground arith

load_pages_lem_example :
    (load_pages server 5 ≡ ok (items_of server pages))
    × (load_distinct server (λ row. row) 5 ≡ ok (distinct (λ row. row) (items_of server pages)))
    × HasDistinctIds (λ row. row) (distinct (λ row. row) (items_of server pages))
load_pages_lem_example = load_pages_lem server (λ row. row) 5 pages served enough

-- `String`, of numbers below ten
abbrev to_string : Json → Option JsString
to_string (bool true) = some (js "true")
to_string (number n) = some (js "7")
to_string value = some []

abbrev conflict : JsString → Json → ApiResponse
conflict key told = record {
  is_ok = false;
  status = 409;
  trace_id = js "t";
  json = some (object (field key told end));
}

writes : WritesScalars to_string
unfolding js
writes = (refl, λ n. (js "7", refl, refl))

number-IsScalar : IsScalar (told_error (conflict (js "error") (number fractional)).json)
unfolding property list_beq js
number-IsScalar = tt

fetch_json_lem_example :
    (e : ApiRequestError) × (fetch_json to_string (some (conflict (js "error") (number fractional)))
      ≡ request_error e)
    × (e.status ≡ 409)
    × (e.trace_id ≢ some [])
    × (truthy e.message ≡ true)
    × IsToldBy to_string (conflict (js "error") (number fractional)) e.message
fetch_json_lem_example =
    fetch_json_lem to_string writes (conflict (js "error") (number fractional)) refl number-IsScalar

-- An empty array is truthy, and its text is empty.
array_told :
    fetch_json to_string (some (conflict (js "error") array))
    ≡ request_error (record { status = 409; trace_id = some (js "t"); message = [] })
unfolding fetch_json error_message property list_beq js
array_told = refl

-- The code's own text, for another property
nothing_told :
    fetch_json to_string (some (conflict (js "detail") array))
    ≡ request_error (record {
      status = 409;
      trace_id = some (js "t");
      message = js "API request failed with HTTP 409";
    })
unfolding fetch_json error_message property list_beq js
nothing_told = refl
