-- ===== src/Examples/Lists.antt =====
-- A few rows of the panels. Numbers are natural numbers here, dates decimal digits.
use Prim.Native.Nat.{compare}
use mathlib.Core.List.{Pairwise}
use logi_track.Base.{
  ℕ, ◌-◌, ◌/◌, ◌<◌, ◌≡◌, ◌↔◌, true, false, Option, none, some, List, [], ◌∷◌, arith, In,
  if◌then◌else◌, nat_eq, list_eq, length, suc, ltb, max, All,
}
use logi_track.Base.Int.{ℤ, pos}
use logi_track.Base.Sorting.{compare_ℤ}
use logi_track.Js.Text.{JsString, js, is_digits, decimal, to_lower_case}
use logi_track.Js.Search.{IsFound}
use logi_track.Js.Dates.{IsDated}
use logi_track.Console.Types.{
  CustomerOrder, ready, DeadLetterEvent, pending, DeliveryAlert, delay, warning, active,
}
use logi_track.Panels.Rows.{LedgerEntry, receipt, WarehouseTask, inbound, received}
use logi_track.Panels.Scopes.{every, only, InScope}
use logi_track.Panels.Queues.{event_texts, filtered_events}
use logi_track.Panels.Queues.Order.{InDateOrder, filtered_events_lem}
use logi_track.Panels.Shown.{filtered, replaced, pressed, changes, first_shown, presses, shown_rows}
use logi_track.Panels.Shown.Count.{IsShown, changes_bounded}
use logi_track.Panels.Shown.Reach.{rounds, presses_reach_all}
use logi_track.Panels.Alerts.{Numbers, frequent, any_alert, AlertFilter, scoped_alerts}
use logi_track.Panels.Alerts.Keys.{HasDates}
use logi_track.Panels.Alerts.Order.{Passes, IsNotBehind, scoped_alerts_lem}

abbrev clock : JsString → Option ℤ
clock s = if is_digits s then some (pos (decimal s)) else none

abbrev order : JsString → CustomerOrder ℕ
order id = record {
  id = id;
  order_number = js "ORD-7";
  status = ready;
  origin_name = js "Seoul Hub";
  origin_lat = 0;
  origin_lon = 0;
  destination_name = js "Incheon DC";
  destination_lat = 1;
  destination_lon = 1;
  delivery_id = none;
  vehicle_id = none;
  delivery_status = none;
  created_at = js "1";
  updated_at = js "2";
}

abbrev entry : LedgerEntry ℕ
entry = record {
  id = js "l";
  task_id = js "t";
  warehouse_id = js "SEOUL-HUB-A";
  sku = js "COLD-BOX-01";
  transaction_type = receipt;
  on_hand_delta = 10;
  reserved_delta = 0;
  on_hand_after = 10;
  reserved_after = 0;
  occurred_at = js "1";
}

abbrev task : WarehouseTask ℕ
task = record {
  id = js "t";
  task_type = inbound;
  status = received;
  reference_number = js "ASN-1";
  warehouse_id = js "SEOUL-HUB-A";
  sku = js "COLD-BOX-01";
  quantity = 10;
  created_at = js "1";
  updated_at = js "1";
}

abbrev event : JsString → JsString → DeadLetterEvent ℕ
event id date = record {
  id = id;
  original_topic = js "telemetry";
  message_key = none;
  payload = js "{}";
  trace_id = none;
  exception_message = none;
  dlq_partition = 0;
  dlq_offset = 0;
  status = pending;
  failed_at = date;
  replayed_at = none;
  replayed_by = none;
  discarded_at = none;
  discarded_by = none;
  discard_reason = none;
}

abbrev dead_letters : List (DeadLetterEvent ℕ)
dead_letters = event (js "a") (js "100") ∷ event (js "b") (js "200") ∷ []

IsDated-events : IsDated (λ e. clock e.failed_at) dead_letters
unfolding is_digits decimal js
IsDated-events = (λ e. cc, (λ e. cc, tt))

filtered_events_lem_example :
    (In
        (event (js "a") (js "100"))
        (filtered_events clock to_lower_case false (only pending) (js "TELE") dead_letters)
      ↔ (In (event (js "a") (js "100")) dead_letters
          × InScope (only pending) pending
          × IsFound to_lower_case (js "TELE") (event_texts (event (js "a") (js "100")))))
    × Pairwise
        (InDateOrder clock to_lower_case false)
        (filtered_events clock to_lower_case false (only pending) (js "TELE") dead_letters)
filtered_events_lem_example =
    filtered_events_lem clock to_lower_case false (only pending) (js "TELE") dead_letters
      (event (js "a") (js "100")) IsDated-events

changes_bounded_example : IsShown 8 (
    changes 8
      (pressed ∷ replaced 20 30 ∷ pressed ∷ filtered 2 ∷ pressed ∷ [])
      (first_shown 8 12 12))
changes_bounded_example =
    changes_bounded 8 12 12 (pressed ∷ replaced 20 30 ∷ pressed ∷ filtered 2 ∷ pressed ∷ [])
      (omega arith) (omega arith)

abbrev numbers_to_five : List ℕ
numbers_to_five = 1 ∷ 2 ∷ 3 ∷ 4 ∷ 5 ∷ []

presses_reach_all_example :
    (shown_rows (presses 2 5 (rounds 2 5) 2) numbers_to_five ≡ numbers_to_five)
    × ((n : ℕ) → n < rounds 2 5 → length (shown_rows (presses 2 5 n 2) numbers_to_five) < 5)
    × (presses 2 5 (suc (rounds 2 5)) 2 ≡ 2)
presses_reach_all_example = presses_reach_all 2 numbers_to_five (omega arith) (omega arith)

abbrev whole_numbers : Numbers ℕ
whole_numbers = record {
  nought = 0;
  one = 1;
  is_greater = λ a b. ltb b a;
  minus = λ a b. a - b;
  over = λ a b. a / b;
  larger = max;
  compare_numbers = compare;
}

whole_ranks : (x y : ℕ) → whole_numbers.compare_numbers x y ≡ compare_ℤ (pos x) (pos y)
whole_ranks x y = ground arith

abbrev raised : JsString → JsString → DeliveryAlert ℕ
raised id date = record {
  id = id;
  delivery_id = js "d";
  alert_type = delay;
  severity = warning;
  status = active;
  message = js "late";
  observed_value = 9;
  threshold_value = 5;
  occurrence_count = 2;
  first_observed_at = js "50";
  last_observed_at = date;
  resolved_at = none;
  acknowledged_at = none;
  acknowledged_by = none;
}

abbrev raised_alerts : List (DeliveryAlert ℕ)
raised_alerts = raised (js "a") (js "100") ∷ raised (js "b") (js "200") ∷ []

dated_alerts : All (HasDates clock) raised_alerts
unfolding is_digits decimal js
dated_alerts = (
  record { first = λ e. cc; last = λ e. cc; end = λ s e. cc; acknowledgement = λ s e. cc },
  (record { first = λ e. cc; last = λ e. cc; end = λ s e. cc; acknowledgement = λ s e. cc }, tt),
)

abbrev all_late : AlertFilter
all_late = record {
  all_alerts = false;
  severity_scope = only warning;
  type_scope = every;
  acknowledgement = any_alert;
  repeated_only = true;
  query = js "LATE";
}

scoped_alerts_lem_example :
    (In
        (raised (js "a") (js "100"))
        (scoped_alerts whole_numbers clock to_lower_case all_late frequent [] raised_alerts)
      ↔ (In (raised (js "a") (js "100")) raised_alerts
          × Passes whole_numbers clock pos whole_ranks to_lower_case all_late []
              (raised (js "a") (js "100"))))
    × Pairwise
        (IsNotBehind whole_numbers clock pos whole_ranks frequent)
        (scoped_alerts whole_numbers clock to_lower_case all_late frequent [] raised_alerts)
scoped_alerts_lem_example =
    scoped_alerts_lem whole_numbers clock pos whole_ranks to_lower_case all_late frequent []
      raised_alerts (raised (js "a") (js "100")) dated_alerts
