-- ===== src/Console/Types.antt =====
-- web/app/types.ts: the rows that the console keeps. Numbers are doubles, which the console only
-- shows: their type is the parameter `D`. Dates are texts.
use logi_track.Base.{Option, List, Bool, ℕ}
use logi_track.Js.Text.{JsString}

pub data DeliveryStatus : Type 0 where
  created in_transit delayed delivered : DeliveryStatus

-- The current position may be missing from a row of the API, and `??` reads it so.
pub record Delivery (D : Type 0) : Type 0 where
  pub id : JsString
  pub order_id : Option JsString
  pub order_number : JsString
  pub vehicle_id : JsString
  pub status : DeliveryStatus
  pub origin_name : JsString
  pub origin_lat : D
  pub origin_lon : D
  pub destination_name : JsString
  pub destination_lat : D
  pub destination_lon : D
  pub current_lat : Option D
  pub current_lon : Option D
  pub progress : D
  pub eta : Option JsString
  pub last_telemetry_at : Option JsString

-- `PageResult<T>`, and with it `DeliveryPage` and `AlertPage`
pub record PageResult (T : Type 0) : Type 0 where
  pub items : List T
  pub page : ℕ
  pub size : ℕ
  pub total_elements : ℕ
  pub has_more : Bool

pub record TelemetryPoint (D : Type 0) : Type 0 where
  pub event_id : JsString
  pub delivery_id : JsString
  pub vehicle_id : JsString
  pub latitude : D
  pub longitude : D
  pub progress : D
  pub occurred_at : JsString

pub data AlertType : Type 0 where
  delay route_deviation : AlertType

pub data Severity : Type 0 where
  warning critical : Severity

pub data AlertStatus : Type 0 where
  active resolved : AlertStatus

pub record DeliveryAlert (D : Type 0) : Type 0 where
  pub id : JsString
  pub delivery_id : JsString
  pub alert_type : AlertType
  pub severity : Severity
  pub status : AlertStatus
  pub message : JsString
  pub observed_value : D
  pub threshold_value : D
  pub occurrence_count : D
  pub first_observed_at : JsString
  pub last_observed_at : JsString
  pub resolved_at : Option JsString
  pub acknowledged_at : Option JsString
  pub acknowledged_by : Option JsString

pub record RouteSnapshot (D : Type 0) : Type 0 where
  pub id : JsString
  pub delivery_id : JsString
  pub provider : JsString
  pub algorithm_version : JsString
  pub coordinates : List (D × D)
  pub geometry_hash : JsString
  pub distance_meters : D
  pub duration_seconds : D
  pub planned_eta : JsString
  pub generated_at : JsString

pub data OrderStatus : Type 0 where
  ready dispatched fulfilled : OrderStatus

pub record CustomerOrder (D : Type 0) : Type 0 where
  pub id : JsString
  pub order_number : JsString
  pub status : OrderStatus
  pub origin_name : JsString
  pub origin_lat : D
  pub origin_lon : D
  pub destination_name : JsString
  pub destination_lat : D
  pub destination_lon : D
  pub delivery_id : Option JsString
  pub vehicle_id : Option JsString
  pub delivery_status : Option DeliveryStatus
  pub created_at : JsString
  pub updated_at : JsString

pub data DeadLetterStatus : Type 0 where
  pending replayed discarded : DeadLetterStatus

pub record DeadLetterEvent (D : Type 0) : Type 0 where
  pub id : JsString
  pub original_topic : JsString
  pub message_key : Option JsString
  pub payload : JsString
  pub trace_id : Option JsString
  pub exception_message : Option JsString
  pub dlq_partition : D
  pub dlq_offset : D
  pub status : DeadLetterStatus
  pub failed_at : JsString
  pub replayed_at : Option JsString
  pub replayed_by : Option JsString
  pub discarded_at : Option JsString
  pub discarded_by : Option JsString
  pub discard_reason : Option JsString
