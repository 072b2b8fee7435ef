-- ===== src/Examples/Fleet.antt =====
-- A small fleet at a concrete time. Its numbers are natural numbers here, its dates decimal digits.
use Prim.Native.Nat.{Ordering}
use logi_track.Base.{
  ℕ, ◌+◌, ◌≤◌, ◌≡◌, refl, ◌↔◌, ◌⊎◌, true, false, Option, none, some, List, [], ◌∷◌, any, arith, In,
  if◌then◌else◌, list_beq, nat_eq, list_eq,
}
use logi_track.Base.Int.{ℤ, pos}
use logi_track.Js.Text.{JsString, js, is_digits, decimal}
use logi_track.Js.Dates.{IsDated}
use logi_track.Js.Dict.{get, has}
use logi_track.Console.Types.{Delivery, in_transit, TelemetryPoint, RouteSnapshot}
use logi_track.Console.Rows.{HasDistinctIds}
use logi_track.Fleet.Lists.{moving_items, live_items, latest_telemetry_at}
use logi_track.Fleet.Lists.Latest.{IsDateOf}
use logi_track.Fleet.Lists.Fresh.{IsRecent, moving_items_iff}
use logi_track.Fleet.Chosen.{visible_deliveries, keep_selection, is_selected}
use logi_track.Fleet.Chosen.Shown.{IsShownOf, visible_deliveries-IsShownOf}
use logi_track.Fleet.Chosen.Selection.{keep_selection_settles}
use logi_track.Fleet.Features.{features}
use logi_track.Fleet.Features.Reference.{plain_features, features-eq-plain_features}
use logi_track.Fleet.Freshness.{selected_telemetry_freshness, telemetry_freshness, latest_telemetry}
use logi_track.Fleet.Freshness.Agree.{freshness_agrees}
use logi_track.Fleet.Reload.{
  error_event, retry_timer_fired, went_offline, went_online, rendered, retry_pressed, MapEvent,
  on_events, on_event, on_retry_due, retry_map, fail_load, render, watch_network, start_load,
  first_load,
}
use logi_track.Fleet.Reload.Steady.{IsSteady, reloads_left, map_stays-IsSteady}

abbrev clock : JsString → Option ℤ
clock s = if is_digits s then some (pos (decimal s)) else none

no_date : clock [] ≡ none
unfolding is_digits
no_date = refl

abbrev truck : JsString → Option JsString → Delivery ℕ
truck id seen = record {
  id = id;
  order_id = none;
  order_number = js "o";
  vehicle_id = js "v";
  status = in_transit;
  origin_name = js "a";
  origin_lat = 0;
  origin_lon = 0;
  destination_name = js "b";
  destination_lat = 9;
  destination_lon = 9;
  current_lat = some 4;
  current_lon = some 5;
  progress = 1;
  eta = none;
  last_telemetry_at = seen;
}

abbrev seen_at : JsString → JsString → JsString → TelemetryPoint ℕ
seen_at event id date = record {
  event_id = event;
  delivery_id = id;
  vehicle_id = js "v";
  latitude = 4;
  longitude = 5;
  progress = 1;
  occurred_at = date;
}

abbrev planned : JsString → RouteSnapshot ℕ
planned id = record {
  id = js "r";
  delivery_id = id;
  provider = js "p";
  algorithm_version = js "1";
  coordinates = (0, 0) ∷ (9, 9) ∷ [];
  geometry_hash = js "h";
  distance_meters = 1;
  duration_seconds = 1;
  planned_eta = js "x";
  generated_at = js "x";
}

abbrev quiet : Delivery ℕ
quiet = truck (js "a") (some (js "100000"))

abbrev busy : Delivery ℕ
busy = truck (js "b") (some (js "100000"))

abbrev trucks : List (Delivery ℕ)
trucks = quiet ∷ busy ∷ []

abbrev points : List (TelemetryPoint ℕ)
points = seen_at (js "1") (js "b") (js "200000") ∷ seen_at (js "2") (js "b") (js "900000") ∷ []

two_trucks : HasDistinctIds (λ d. d.id) trucks
unfolding has list_beq js
two_trucks = (refl, (refl, tt))

IsDated-points : IsDated (λ p. clock p.occurred_at) points
unfolding is_digits decimal js
IsDated-points = (λ e. cc, (λ e. cc, tt))

moving_items_iff_example :
    In busy (moving_items (pos 1_000_000) (latest_telemetry_at clock trucks points) trucks) ↔ (
      In busy (live_items trucks)
      × ((t : ℤ) × IsDateOf clock trucks points busy.id t × IsRecent (pos 1_000_000) t))
moving_items_iff_example =
    moving_items_iff (pos 1_000_000) clock trucks points busy (omega arith) two_trucks

visible_deliveries-IsShownOf_example :
    IsShownOf 1 (some (js "b")) trucks (visible_deliveries 1 (some (js "b")) trucks)
visible_deliveries-IsShownOf_example =
    visible_deliveries-IsShownOf 1 (some (js "b")) trucks (omega arith) two_trucks

keep_selection_settles_example :
    let next = keep_selection (planned (js "b") ∷ []) trucks (some (js "gone")) in
    (any (is_selected next) trucks ≡ true)
    × ((any (is_selected (some (js "gone"))) trucks ≡ false) ⊎ (next ≡ some (js "gone")))
    × (keep_selection (planned (js "b") ∷ []) trucks next ≡ next)
keep_selection_settles_example =
    keep_selection_settles (planned (js "b") ∷ []) quiet (busy ∷ []) (some (js "gone"))

abbrev in_order : JsString → JsString → Ordering
in_order a b = Ordering.lt

features-eq-plain_features_example :
    features (λ p n. pos p) clock in_order (pos 1_000_000) trucks (planned (js "b") ∷ []) points
    ≡ plain_features
        (λ p n. pos p)
        clock
        in_order
        (pos 1_000_000)
        trucks
        (planned (js "b") ∷ [])
        points
features-eq-plain_features_example =
    features-eq-plain_features (λ p n. pos p) clock in_order (pos 1_000_000) trucks
      (planned (js "b") ∷ []) points

freshness_agrees_example :
    selected_telemetry_freshness clock (pos 1_000_000) busy points
    ≡ telemetry_freshness clock
        (pos 1_000_000)
        busy
        (get (latest_telemetry clock [] points) busy.id)
freshness_agrees_example = freshness_agrees clock no_date (pos 1_000_000) busy points IsDated-points

-- The map fails offline, is reloaded, fails again and waits.
abbrev map_events : List MapEvent
map_events =
    error_event ∷ went_offline ∷ rendered ∷ retry_timer_fired ∷ went_online ∷ rendered ∷ error_event
    ∷ rendered ∷ []

-- The network and the timer ask for a reload before React has rendered either.
abbrev two_wishes : List MapEvent
two_wishes = went_online ∷ retry_timer_fired ∷ rendered ∷ retry_pressed ∷ []

map_stays-IsSteady_example :
    let s = on_events map_events (first_load true) in
    IsSteady s × ((on_events two_wishes s).map_retry ≤ s.map_retry + reloads_left s)
map_stays-IsSteady_example =
    map_stays-IsSteady true map_events two_wishes (tt, (tt, (tt, (tt, tt))))

reloaded_twice :
    ((on_events map_events (first_load true)).map_retry ≡ 1)
    × ((on_events two_wishes (on_events map_events (first_load true))).map_retry ≡ 2)
unfolding on_events on_event on_retry_due retry_map fail_load render watch_network start_load
    first_load
reloaded_twice = (refl, refl)
