-- ===== src/Console/Warehouse/Once.antt =====
-- Retries of the warehouse's commands.
use logi_track.Base.{
  ◌≡◌, refl, ◌∙◌, ◌⊎◌, inl, inr, Bool, true, false, not, ◌||◌, none, some, List, [], ◌∷◌, arith,
  All, All-append, Bool-cases, nat_eq, list_eq,
}
use logi_track.Js.Text.{JsString, js, truthy}
use logi_track.Js.Dict.{set}
use logi_track.Console.Warehouse.{
  Pending, Command, receive, outbound, Warehouse, Sent, receipt_sent, pick_sent, dispatch_sent,
  picked, Run, clear_error, sync_warehouse_action_error, load_warehouse, fail_action, end_action,
  or_drawn, receive_stock, dispatch_task, pick_task, pick_and_dispatch, command, commands,
  receive_message, outbound_message,
}

module _ {T : Type 0} where
  sync-dispatch_retry :
      (s : Warehouse T) → (sync_warehouse_action_error s).dispatch_retry ≡ s.dispatch_retry
  unfolding sync_warehouse_action_error clear_error
  sync-dispatch_retry s = ground arith

  load-dispatch_retry :
      (loaded : Bool) (s : Warehouse T)
      → (load_warehouse loaded s).dispatch_retry ≡ s.dispatch_retry
  unfolding load_warehouse clear_error
  load-dispatch_retry true s = refl
  load-dispatch_retry false s = refl

  fail-dispatch_retry :
      (name message : JsString) (s : Warehouse T)
      → (fail_action name message s).dispatch_retry ≡ s.dispatch_retry
  unfolding fail_action
  fail-dispatch_retry name message s =
      sync-dispatch_retry (record s { failure_messages = set s.failure_messages name message })

  end-dispatch_retry :
      (loaded : Bool) (name : JsString) (s : Warehouse T)
      → (end_action loaded name s).dispatch_retry ≡ s.dispatch_retry
  unfolding end_action
  end-dispatch_retry loaded name s = sync-dispatch_retry _ ∙ load-dispatch_retry loaded s

  receive_stock-dispatch_retry :
      (run : Run T) (s : Warehouse T) → (receive_stock run s).1.dispatch_retry ≡ s.dispatch_retry
  unfolding receive_stock
  receive_stock-dispatch_retry run s = elim (Bool-cases (not run.online || s.busy)) [
    | inl skipped ↦ rw skipped refl
    | inr goes ↦ (elim (Bool-cases run.succeeded) [
      | inl done ↦ rw (goes, done) (end-dispatch_retry run.loaded (js "receive") _)
      | inr failed ↦ rw (goes, failed) (fail-dispatch_retry (js "receive") receive_message _)
    ])
  ]

  -- A request that is a receipt's, or the dispatch of this very task with its key.
  abbrev pub IsReceiptOr : Pending T → Sent T → Type 0
  IsReceiptOr p (receipt_sent _) = Unit {0}
  IsReceiptOr p (pick_sent _) = ⊥
  IsReceiptOr p (dispatch_sent q) = q ≡ p

  receive_stock-IsReceiptOr :
      (p : Pending T) (run : Run T) (s : Warehouse T) → All (IsReceiptOr p) (receive_stock run s).0
  unfolding receive_stock
  receive_stock-IsReceiptOr p run s = elim (Bool-cases (not run.online || s.busy)) [
    | inl skipped ↦ rw skipped tt
    | inr goes ↦ rw goes (tt, tt)
  ]

  dispatch_task-keeps :
      (run : Run T) (p : Pending T) (s : Warehouse T)
      → s.dispatch_retry ≡ some p
      → run.succeeded ≡ false
      → All (IsReceiptOr p) (dispatch_task run p s).0
        × ((dispatch_task run p s).1.dispatch_retry ≡ some p)
  unfolding dispatch_task
  dispatch_task-keeps run p s e failed =
      elim (Bool-cases (not (truthy p.trace_id) || not (truthy p.idempotency_key))) [
        | inl bare ↦ rw bare (tt, fail-dispatch_retry (js "outbound") outbound_message s ∙ e)
        | inr whole ↦ (elim (Bool-cases (not run.online_after_pick)) [
          | inl offline ↦ rw (whole, offline) (tt, e)
          | inr online ↦
              rw (whole, online, failed)
                ((refl, tt), fail-dispatch_retry (js "outbound") outbound_message s ∙ e)
        ])
      ]

  pick_and_dispatch-keeps :
      (run : Run T) (p : Pending T) (s : Warehouse T)
      → s.dispatch_retry ≡ some p
      → run.succeeded ≡ false
      → All (IsReceiptOr p) (pick_and_dispatch run s).0
        × ((pick_and_dispatch run s).1.dispatch_retry ≡ some p)
  unfolding pick_and_dispatch
  pick_and_dispatch-keeps run p s e failed = elim (Bool-cases (not run.online || s.busy)) [
    | inl skipped ↦ rw (pick_and_dispatch, skipped) (tt, e)
    | inr goes ↦
        rw (pick_and_dispatch, goes, e)
          (dispatch_task-keeps run p (record s { busy = true }) e failed)
  ]

  -- No run for a pick or a dispatch has succeeded.
  abbrev pub NotDispatched : List (Command × Run T) → Type 0
  NotDispatched = All λ c. (c.0 ≡ receive) ⊎ (c.1.succeeded ≡ false)

  command-keeps :
      (c : Command) (run : Run T) (p : Pending T) (s : Warehouse T)
      → s.dispatch_retry ≡ some p
      → (c ≡ receive) ⊎ (run.succeeded ≡ false)
      → All (IsReceiptOr p) (command c run s).0 × ((command c run s).1.dispatch_retry ≡ some p)
  unfolding command
  command-keeps receive run p s e quiet =
      (receive_stock-IsReceiptOr p run s, receive_stock-dispatch_retry run s ∙ e)
  command-keeps outbound run p s e (inl other) = absurd (cc)
  command-keeps outbound run p s e (inr failed) = pick_and_dispatch-keeps run p s e failed

  commands-keep :
      (runs : List (Command × Run T)) (p : Pending T) (s : Warehouse T)
      → s.dispatch_retry ≡ some p
      → NotDispatched runs
      → All (IsReceiptOr p) (commands runs s).0
  unfolding commands
  commands-keep [] p s e quiet = tt
  commands-keep ((c, run) ∷ runs) p s e quiet =
      let (sent, kept) = command-keeps c run p s e quiet.0 in
      All-append (IsReceiptOr p) (command c run s).0 _ sent
        (commands-keep runs p (command c run s).1 kept quiet.1)

  picked_task :
      (run : Run T) (task : T) (s : Warehouse T)
      → s.dispatch_retry ≡ none
      → s.busy ≡ false
      → run.online ≡ true
      → run.pick_answer ≡ picked (some task)
      → run.succeeded ≡ false
      → (pick_and_dispatch run s).1.dispatch_retry
        ≡ some (record {
          task = task;
          trace_id = (or_drawn s.outbound_retry run.drawn).trace_id;
          idempotency_key = run.drawn_dispatch_key;
        })
  unfolding pick_and_dispatch pick_task
  picked_task run task s none' free online answer failed =
      rw (pick_and_dispatch, none', free, online, pick_task, answer)
        (dispatch_task-keeps run _ _ refl failed).1

  -- Where a pick was answered with a task and its dispatch did not succeed, whatever receipts and
  -- dispatches are then asked for, of which none for an outbound succeeds: no other pick is sent, and
  -- every dispatch that is sent is of that task, with the trace id of the pick and the key that was
  -- drawn then.
  pub pick_is_dispatched_once :
      (run : Run T) (task : T) (s : Warehouse T) (runs : List (Command × Run T))
      → s.dispatch_retry ≡ none
      → s.busy ≡ false
      → run.online ≡ true
      → run.pick_answer ≡ picked (some task)
      → run.succeeded ≡ false
      → NotDispatched runs
      → All
          (IsReceiptOr (record {
            task = task;
            trace_id = (or_drawn s.outbound_retry run.drawn).trace_id;
            idempotency_key = run.drawn_dispatch_key;
          }))
          (commands runs (pick_and_dispatch run s).1).0
  pick_is_dispatched_once run task s runs none' free online answer failed quiet =
      commands-keep runs _ _ (picked_task run task s none' free online answer failed) quiet
