-- ===== src/Examples/Outbound.antt =====
-- An outbound whose dispatch fails, and what is asked afterwards.
use logi_track.Base.{ℕ, ◌≡◌, refl, true, false, none, some, List, [], ◌∷◌, All, inl, inr, list_beq}
use logi_track.Js.Text.{JsString, js}
use logi_track.Js.Dict.{set, delete}
use logi_track.Console.Warehouse.{
  KeptRequest, Pending, Command, receive, outbound, Warehouse, receipt_sent, pick_sent,
  dispatch_sent, picked, Run, pick_and_dispatch, pick_task, dispatch_task, receive_stock, commands,
  command, fail_action, end_action, load_warehouse, sync_warehouse_action_error, clear_error,
}
use logi_track.Console.Warehouse.Once.{IsReceiptOr, pick_is_dispatched_once}

abbrev idle : Warehouse ℕ
idle = record {
  busy = false;
  receipt_retry = none;
  outbound_retry = none;
  dispatch_retry = none;
  failure_messages = [];
  error = none;
}

abbrev drawn : JsString → KeptRequest
drawn key = record { reference_number = js "OUT-1"; idempotency_key = key; trace_id = js "t" }

abbrev failing : Run ℕ
failing = record {
  online = true;
  online_after_pick = true;
  drawn = drawn (js "k");
  drawn_dispatch_key = js "d";
  pick_answer = picked (some 7);
  succeeded = false;
  loaded = true;
}

abbrev succeeding : Run ℕ
succeeding = record failing { drawn = drawn (js "other"); succeeded = true }

abbrev later : List (Command × Run ℕ)
later = (receive, succeeding) ∷ (outbound, failing) ∷ []

abbrev kept : Pending ℕ
kept = record { task = 7; trace_id = js "t"; idempotency_key = js "d" }

-- What the commands send: the pick and its dispatch, a receipt, and the dispatch once more.
asked_in_turn :
    (commands ((outbound, failing) ∷ later) idle).0
    ≡ pick_sent (drawn (js "k"))
      ∷ dispatch_sent kept
      ∷ receipt_sent (drawn (js "other"))
      ∷ dispatch_sent kept
      ∷ []
unfolding commands command pick_and_dispatch pick_task dispatch_task receive_stock fail_action
    end_action load_warehouse sync_warehouse_action_error clear_error js set delete list_beq
asked_in_turn = refl

pick_is_dispatched_once_example :
    All (IsReceiptOr kept) (commands later (pick_and_dispatch failing idle).1).0
pick_is_dispatched_once_example =
    pick_is_dispatched_once failing 7 idle later refl refl refl refl refl (inl refl, (inr refl, tt))
