-- ===== src/Examples/Rows.antt =====
-- A few events of the console. Its numbers are natural numbers here.
use logi_track.Auth.Cookies.{text_of}
use logi_track.Base.{List, [], arith, list_beq, none, refl, some, true, ℕ, ◌∷◌, ◌≡◌, ◌≤◌}
use logi_track.Console.Live.{
  Event, Live, acknowledge, alert_update, delivery_update, loaded, merged, no_rows, on_acknowledged,
  on_alert, on_delivery, on_loaded, on_map_loaded, on_telemetry, react, react_all,
}
use logi_track.Console.Live.Invariant.{IsWellFormed, no_rows-IsWellFormed, react_all-IsWellFormed}
use logi_track.Console.Live.Updates.{acknowledgement_stays, load_keeps_updates}
use logi_track.Console.Maps.{or_else}
use logi_track.Console.Rows.{distinct, lookup, upsert}
use logi_track.Console.Types.{Delivery, DeliveryAlert, active, delay, in_transit, warning}
use logi_track.Js.Dict.{add_entries, get, set}
use logi_track.Js.Text.{JsString, js, truthy}

abbrev delivery : JsString → JsString → Delivery ℕ
delivery id vehicle = record {
  id = id;
  order_id = none;
  order_number = js "o";
  vehicle_id = vehicle;
  status = in_transit;
  origin_name = js "a";
  origin_lat = 0;
  origin_lon = 0;
  destination_name = js "b";
  destination_lat = 1;
  destination_lon = 1;
  current_lat = none;
  current_lon = none;
  progress = 50;
  eta = none;
  last_telemetry_at = none;
}

abbrev alert : JsString → DeliveryAlert ℕ
alert operator = record {
  id = js "x";
  delivery_id = js "d";
  alert_type = delay;
  severity = warning;
  status = active;
  message = js "m";
  observed_value = 9;
  threshold_value = 5;
  occurrence_count = 1;
  first_observed_at = js "t";
  last_observed_at = js "t";
  resolved_at = none;
  acknowledged_at = some (js "u");
  acknowledged_by = some operator;
}

abbrev events : List (Event ℕ)
events =
    delivery_update (delivery (js "d") (js "v"))
    ∷ alert_update (alert (js "one"))
    ∷ delivery_update (delivery (js "d") (js "w"))
    ∷ []

abbrev after_events : Live ℕ
after_events = react_all events no_rows

react_all-IsWellFormed_example : IsWellFormed after_events
react_all-IsWellFormed_example = react_all-IsWellFormed events no_rows no_rows-IsWellFormed

started_before : 0 ≤ (no_rows {D = ℕ}).delivery_version
started_before = ground arith

load_keeps_updates_example :
    let now = react_all (delivery_update (delivery (js "d") (js "w")) ∷ []) no_rows in
    lookup (λ d. d.id) (react (loaded 0 0 (delivery (js "d") (js "v") ∷ []) []) now).items (js "d")
    ≡ or_else
        (lookup (λ d. d.id) now.items (js "d"))
        (lookup (λ d. d.id) (distinct (λ d. d.id) (delivery (js "d") (js "v") ∷ [])) (js "d"))
load_keeps_updates_example =
    load_keeps_updates 0 0 (delivery (js "d") (js "v") ∷ []) [] (delivery (js "d") (js "w")) no_rows
      [] (js "d") no_rows-IsWellFormed started_before

there : lookup (λ b. b.id) after_events.alerts (js "x") ≡ some (alert (js "one"))
unfolding merged on_delivery on_telemetry on_alert on_loaded acknowledge on_acknowledged
    on_map_loaded react react_all distinct upsert get set add_entries list_beq js
there = refl

is_given : truthy (text_of (alert (js "one")).acknowledged_at) ≡ true
unfolding js
is_given = refl

acknowledgement_stays_example :
    (b : DeliveryAlert ℕ) × (lookup
        (λ c. c.id)
        (on_acknowledged (alert (js "two")) after_events).alerts
        (js "x")
      ≡ some b)
    × (b.acknowledged_at ≡ some (js "u"))
    × (b.acknowledged_by ≡ some (js "one"))
acknowledgement_stays_example =
    acknowledgement_stays (alert (js "two")) after_events (js "x") (alert (js "one")) there is_given
