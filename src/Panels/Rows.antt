-- ===== src/Panels/Rows.antt =====
-- web/app/types.ts: the rows of the warehouse, the recovery and the policy panels. Numbers that the
-- console only shows have the type `D`; dates are texts.
use logi_track.Base.{Option}
use logi_track.Js.Text.{JsString}

pub record AlertPolicy (D : Type 0) : Type 0 where
  pub id : JsString
  pub vehicle_id : JsString
  pub deviation_open_meters : D
  pub deviation_close_meters : D
  pub critical_deviation_meters : D
  pub delay_open_seconds : D
  pub delay_close_seconds : D
  pub critical_delay_seconds : D
  pub updated_at : JsString
  pub updated_by : JsString

pub data PolicyAction : Type 0 where
  upsert_action reset_action restore_action : PolicyAction

pub record AlertPolicyAudit (D : Type 0) : Type 0 where
  pub id : JsString
  pub vehicle_id : JsString
  pub deviation_open_meters : D
  pub deviation_close_meters : D
  pub critical_deviation_meters : D
  pub delay_open_seconds : D
  pub delay_close_seconds : D
  pub critical_delay_seconds : D
  pub policy_id : JsString
  pub action : PolicyAction
  pub actor : JsString
  pub occurred_at : JsString

pub record WarehouseStock (D : Type 0) : Type 0 where
  pub id : JsString
  pub warehouse_id : JsString
  pub sku : JsString
  pub on_hand : D
  pub reserved : D
  pub available : D
  pub updated_at : JsString

pub data TaskType : Type 0 where
  inbound outbound : TaskType

pub data TaskStatus : Type 0 where
  received picked dispatched : TaskStatus

pub record WarehouseTask (D : Type 0) : Type 0 where
  pub id : JsString
  pub task_type : TaskType
  pub status : TaskStatus
  pub reference_number : JsString
  pub warehouse_id : JsString
  pub sku : JsString
  pub quantity : D
  pub created_at : JsString
  pub updated_at : JsString

pub data TransactionType : Type 0 where
  receipt pick dispatch : TransactionType

pub record LedgerEntry (D : Type 0) : Type 0 where
  pub id : JsString
  pub task_id : JsString
  pub warehouse_id : JsString
  pub sku : JsString
  pub transaction_type : TransactionType
  pub on_hand_delta : D
  pub reserved_delta : D
  pub on_hand_after : D
  pub reserved_after : D
  pub occurred_at : JsString

pub data ReplayAction : Type 0 where
  replay discard : ReplayAction

pub record ReplayAudit : Type 0 where
  pub id : JsString
  pub dead_letter_event_id : JsString
  pub action : ReplayAction
  pub actor : JsString
  pub reason : Option JsString
  pub occurred_at : JsString

pub data OutboxStatus : Type 0 where
  failed pending : OutboxStatus

pub record OutboxFailure (D : Type 0) : Type 0 where
  pub id : JsString
  pub aggregate_type : JsString
  pub aggregate_id : JsString
  pub event_type : JsString
  pub topic : JsString
  pub attempts : D
  pub last_error : Option JsString
  pub created_at : JsString
  pub status : OutboxStatus

pub record OutboxRetryAudit : Type 0 where
  pub id : JsString
  pub outbox_event_id : JsString
  pub actor : JsString
  pub occurred_at : JsString
