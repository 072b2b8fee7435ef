-- ===== src/Panels/Filters.antt =====
-- The lists that the panels filter by a scope and a search: OrderFlowPanel, WarehousePanel,
-- OutboxRecoveryPanel, ReplayOperationsPanel and AlertPolicyPanel. The Korean labels are the source's.
use logi_track.Base.{Bool, List, [], ◌∷◌, ◌||◌, ◌&&◌, keep_if}
use logi_track.Js.Text.{JsString, js}
use logi_track.Js.Search.{is_match, searched}
use logi_track.Auth.Cookies.{text_of}
use logi_track.Console.Types.{CustomerOrder, OrderStatus}
use logi_track.Console.Statuses.{order_status_eq}
use logi_track.Panels.Rows.{
  AlertPolicyAudit, PolicyAction, upsert_action, reset_action, restore_action, WarehouseStock,
  WarehouseTask, TaskStatus, LedgerEntry, TransactionType, ReplayAudit, ReplayAction, replay,
  discard, OutboxFailure, OutboxRetryAudit,
}
use logi_track.Panels.Scopes.{Scope, in_scope, task_status_eq, transaction_type_eq}

-- `auditActionLabel` of the two panels
unfoldable pub policy_action_label : PolicyAction → JsString
policy_action_label upsert_action = js "저장"
policy_action_label reset_action = js "기본값 전환"
policy_action_label restore_action = js "이력 복원"

unfoldable pub replay_action_label : ReplayAction → JsString
replay_action_label replay = js "재처리"
replay_action_label discard = js "폐기"

module _ {D : Type 0} where
  -- The texts in which a row is searched
  abbrev pub order_texts : CustomerOrder D → List JsString
  order_texts order =
      order.order_number
      ∷ order.origin_name
      ∷ order.destination_name
      ∷ text_of order.vehicle_id
      ∷ []

  abbrev pub stock_texts : WarehouseStock D → List JsString
  stock_texts stock = stock.warehouse_id ∷ stock.sku ∷ []

  abbrev pub ledger_texts : LedgerEntry D → List JsString
  ledger_texts entry = entry.warehouse_id ∷ entry.sku ∷ []

  abbrev pub task_texts : WarehouseTask D → List JsString
  task_texts task = task.reference_number ∷ task.warehouse_id ∷ task.sku ∷ []

  abbrev pub failure_texts : OutboxFailure D → List JsString
  failure_texts event =
      event.event_type
      ∷ event.aggregate_type
      ∷ event.aggregate_id
      ∷ event.topic
      ∷ text_of event.last_error
      ∷ []

  abbrev pub policy_audit_texts : AlertPolicyAudit D → List JsString
  policy_audit_texts audit = audit.vehicle_id ∷ audit.actor ∷ policy_action_label audit.action ∷ []

abbrev pub outbox_audit_texts : OutboxRetryAudit → List JsString
outbox_audit_texts audit = audit.actor ∷ audit.outbox_event_id ∷ []

abbrev pub replay_audit_texts : ReplayAudit → List JsString
replay_audit_texts audit =
    audit.actor
    ∷ audit.dead_letter_event_id
    ∷ replay_action_label audit.action
    ∷ text_of audit.reason
    ∷ []

module _ (lower : JsString → JsString) {D : Type 0} where
  unfoldable pub filtered_orders :
      Scope OrderStatus → (query : JsString) → List (CustomerOrder D) → List (CustomerOrder D)
  filtered_orders scope query =
      keep_if λ order. in_scope scope order.status && is_match lower query (order_texts order)

  unfoldable pub filtered_ledger :
      Scope TransactionType → (query : JsString) → List (LedgerEntry D) → List (LedgerEntry D)
  filtered_ledger scope query =
      keep_if
        λ entry. in_scope scope entry.transaction_type && is_match lower query (ledger_texts entry)

  unfoldable pub filtered_tasks :
      Scope TaskStatus → (query : JsString) → List (WarehouseTask D) → List (WarehouseTask D)
  filtered_tasks scope query =
      keep_if λ task. in_scope scope task.status && is_match lower query (task_texts task)

  -- The scope is `"ALL"` or `"UNAVAILABLE"`; `is_gone` is `available <= 0`.
  unfoldable pub filtered_stocks :
      (is_gone : D → Bool) (all_stocks : Bool)
      → (query : JsString) → List (WarehouseStock D)
      → List (WarehouseStock D)
  filtered_stocks is_gone all_stocks query =
      keep_if
        λ stock. (all_stocks || is_gone stock.available) && is_match lower query (stock_texts stock)

  unfoldable pub filtered_policy_audits :
      (query : JsString) → List (AlertPolicyAudit D) → List (AlertPolicyAudit D)
  filtered_policy_audits = searched lower policy_audit_texts

unfoldable pub filtered_outbox_audits :
    (lower : JsString → JsString) (query : JsString) → List OutboxRetryAudit → List OutboxRetryAudit
filtered_outbox_audits lower = searched lower outbox_audit_texts

unfoldable pub filtered_replay_audits :
    (lower : JsString → JsString) (query : JsString) → List ReplayAudit → List ReplayAudit
filtered_replay_audits lower = searched lower replay_audit_texts
