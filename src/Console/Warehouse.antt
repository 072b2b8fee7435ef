-- ===== src/Console/Warehouse.antt =====
-- web/app/console/page.tsx: the commands of the warehouse, `receiveStock` and `pickAndDispatch`, with what
-- they keep for a retry and the message of the workspace. The busy flag lets one command run at a time,
-- so that a run is one step, with what the browser and the API answer in it. A failed request is one
-- that is refused, that cannot be sent or whose answer cannot be read. The rows that are loaded
-- afterwards are left out.
pub mod Once
use logi_track.Base.{
  Bool, true, false, not, ◌&&◌, ◌||◌, Option, none, some, List, [], ◌∷◌, ◌++◌, ◌==◌, nat_eq,
  list_eq, if◌then◌else◌,
}
use logi_track.Js.Text.{JsString, js, truthy}
use logi_track.Js.Dict.{Dict, set, delete, values}

pub record KeptRequest : Type 0 where
  pub reference_number : JsString
  pub idempotency_key : JsString
  pub trace_id : JsString

-- A task that is picked and not yet dispatched; `T` is what the API gives for it.
pub record Pending (T : Type 0) : Type 0 where
  pub task : T
  pub trace_id : JsString
  pub idempotency_key : JsString

pub data Command : Type 0 where
  receive outbound : Command

pub record Warehouse (T : Type 0) : Type 0 where
  pub busy : Bool
  pub receipt_retry : Option KeptRequest
  pub outbound_retry : Option KeptRequest
  pub dispatch_retry : Option (Pending T)
  -- `warehouseFailureMessagesRef`, by the names of the commands
  pub failure_messages : Dict JsString JsString
  -- the message of the workspace "warehouse"
  pub error : Option JsString

-- What the API is asked
pub data Sent (T : Type 0) : Type 0 where
  receipt_sent pick_sent : KeptRequest → Sent T
  dispatch_sent : Pending T → Sent T

-- The answer to a pick; a task is missing where the body is `null`.
pub data PickAnswer (T : Type 0) : Type 0 where
  pick_failed : PickAnswer T
  picked : Option T → PickAnswer T

-- What a run of a command meets: the browser's network before it and after the pick, what
-- `crypto.randomUUID` draws, and the API's answers. `loaded` is the end of `loadWarehouse`.
pub record Run (T : Type 0) : Type 0 where
  pub online : Bool
  pub online_after_pick : Bool
  pub drawn : KeptRequest
  pub drawn_dispatch_key : JsString
  pub pick_answer : PickAnswer T
  pub succeeded : Bool
  pub loaded : Bool

abbrev pub receive_message : JsString
receive_message = js "입고 처리에 실패했습니다."

abbrev pub outbound_message : JsString
outbound_message = js "출고 처리에 실패했습니다. 먼저 재고를 입고해 주세요."

abbrev pub load_message : JsString
load_message = js "창고 데이터에 연결할 수 없습니다."

-- `retry || drawn`
abbrev pub or_drawn : Option KeptRequest → KeptRequest → KeptRequest
or_drawn none drawn = drawn
or_drawn (some kept) drawn = kept

module _ {T : Type 0} where
  -- `clearWorkspaceError("warehouse", message)`
  unfoldable pub clear_error : (message : JsString) → Warehouse T → Warehouse T
  clear_error message s = record s {
    error = elim s.error [
      | none ↦ none
      | some existing ↦
          if not (truthy existing) || not (existing == message) then some existing else none
    ];
  }

  abbrev pub set_error : (message : JsString) → Warehouse T → Warehouse T
  set_error message s = record s { error = some message }

  abbrev pub clear_errors : Warehouse T → Warehouse T
  clear_errors s = clear_error outbound_message (clear_error receive_message s)

  unfoldable pub sync_warehouse_action_error : Warehouse T → Warehouse T
  sync_warehouse_action_error s = elim (values s.failure_messages) [
    | [] ↦ clear_errors s
    | message ∷ _ ↦ if truthy message then set_error message s else clear_errors s
  ]

  -- `loadWarehouse`, which does not throw
  unfoldable pub load_warehouse : (loaded : Bool) → Warehouse T → Warehouse T
  load_warehouse loaded s = if loaded then clear_error load_message s else set_error load_message s

  abbrev pub finish_action : Warehouse T → Warehouse T
  finish_action s = record s { busy = false }

  -- The `catch`
  unfoldable pub fail_action : (name message : JsString) → Warehouse T → Warehouse T
  fail_action name message s = finish_action (
      sync_warehouse_action_error
        (record s { failure_messages = set s.failure_messages name message }))

  -- The end of a command that succeeds
  unfoldable pub end_action : (loaded : Bool) (name : JsString) → Warehouse T → Warehouse T
  end_action loaded name s =
      let after = load_warehouse loaded s in
      finish_action (
        sync_warehouse_action_error
          (record after { failure_messages = delete after.failure_messages name }))

  unfoldable pub receive_stock : Run T → Warehouse T → List (Sent T) × Warehouse T
  receive_stock run s =
      let request = or_drawn s.receipt_retry run.drawn in
      let asked = record s { busy = true; receipt_retry = some request } in
      if not run.online || s.busy then ([], s) else (
        receipt_sent request ∷ [],
        if run.succeeded
            then end_action run.loaded (js "receive") (record asked { receipt_retry = none })
            else fail_action (js "receive") receive_message asked,
      )

  -- From the dispatch on, with what is pending
  unfoldable pub dispatch_task : Run T → Pending T → Warehouse T → List (Sent T) × Warehouse T
  dispatch_task run pending s =
      if not (truthy pending.trace_id) || not (truthy pending.idempotency_key)
      then ([], fail_action (js "outbound") outbound_message s)
      else if not run.online_after_pick
      then ([], finish_action s)
      else (
        dispatch_sent pending ∷ [],
        if run.succeeded
            then end_action run.loaded (js "outbound") (record s { dispatch_retry = none })
            else fail_action (js "outbound") outbound_message s,
      )

  unfoldable pub pick_task : Run T → Warehouse T → List (Sent T) × Warehouse T
  pick_task run s =
      let request = or_drawn s.outbound_retry run.drawn in
      let asked = record s { outbound_retry = some request } in
      elim run.pick_answer [
        | pick_failed ↦ (pick_sent request ∷ [], fail_action (js "outbound") outbound_message asked)
        | picked none ↦ (
          pick_sent request ∷ [],
          fail_action (js "outbound") outbound_message (record asked { outbound_retry = none }),
        )
        | picked (some task) ↦
            let pending : Pending T = record {
              task = task;
              trace_id = request.trace_id;
              idempotency_key = run.drawn_dispatch_key;
            } in
            let rest =
              dispatch_task run pending
                (record asked { outbound_retry = none; dispatch_retry = some pending }) in
            (pick_sent request ∷ rest.0, rest.1)
      ]

  unfoldable pub pick_and_dispatch : Run T → Warehouse T → List (Sent T) × Warehouse T
  pick_and_dispatch run s =
      let started = record s { busy = true } in
      if not run.online || s.busy then ([], s) else elim s.dispatch_retry [
        | none ↦ pick_task run started
        | some pending ↦ dispatch_task run pending started
      ]

  unfoldable pub command : Command → Run T → Warehouse T → List (Sent T) × Warehouse T
  command receive run s = receive_stock run s
  command outbound run s = pick_and_dispatch run s

  -- Commands one after the other: all that is sent, and the state in the end
  unfoldable pub commands : List (Command × Run T) → Warehouse T → List (Sent T) × Warehouse T
  commands [] s = ([], s)
  commands ((c, run) ∷ rest) s =
      let first = command c run s in
      let later = commands rest first.1 in (first.0 ++ later.0, later.1)
