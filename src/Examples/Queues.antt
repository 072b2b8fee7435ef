-- ===== src/Examples/Queues.antt =====
-- The recovery workspace.
use logi_track.Base.{
  ℕ, ◌<◌, ◌≡◌, ◌↔◌, In, length, refl, true, false, none, some, List, [], ◌∷◌, ◌++◌, All, list_beq,
}
use logi_track.Js.Text.{js, truthy}
use logi_track.Js.Dict.{get, set, delete, has, add_entries}
use logi_track.Console.Types.{DeadLetterEvent, pending}
use logi_track.Console.Maps.{or_else}
use logi_track.Console.Rows.{lookup, distinct, HasDistinctIds}
use logi_track.Console.Recovery.{
  DeadLetterPage, Replay, from_length, asked_pages, on_pages_loaded, on_more_wanted, on_more_ended,
}
use logi_track.Console.Recovery.Pages.{reloaded, on_more_ended_lem}
use logi_track.Console.Retry.{
  Outbox, RetryEvent, retried, request_key, retry_outbox, on_retried, on_retry, on_retries,
}
use logi_track.Console.Retry.Keys.{NoSuccess, retry_keeps_key}
use logi_track.Panels.Selection.{
  SelectionEvent, toggled, new_events, select, select_all, first_selection, toggle, keep_pending,
  is_pending, max_selected,
}
use logi_track.Panels.Selection.Limit.{IsWithinLimit, ticks_are_limited}

abbrev event : DeadLetterEvent ℕ
event = record {
  id = js "e";
  original_topic = js "t";
  message_key = none;
  payload = [];
  trace_id = none;
  exception_message = none;
  dlq_partition = 0;
  dlq_offset = 7;
  status = pending;
  failed_at = js "f";
  replayed_at = none;
  replayed_by = none;
  discarded_at = none;
  discarded_by = none;
  discard_reason = none;
}

abbrev page : DeadLetterPage ℕ
page = record { items = event ∷ []; page = 1; size = 100; total_elements = 101; has_more = false }

-- The API has two pages, which share the event; the first one is loaded.
abbrev pages : ℕ → DeadLetterPage ℕ
pages number = record page { page = number }

abbrev queue : Replay ℕ
queue = record {
  dead_letters = event ∷ [];
  dead_letter_total = 101;
  last_page = 0;
  page_busy = false;
  requested = none;
}

one_event : HasDistinctIds (λ e. e.id) (event ∷ [])
unfolding has
one_event = (refl, tt)

queue_loaded : queue.dead_letters ≡ reloaded pages queue
unfolding on_pages_loaded asked_pages from_length distinct add_entries set
queue_loaded = refl

on_more_ended_lem_example :
    let after = on_more_ended (some (pages 1)) (on_more_wanted true queue) in
    ((on_more_wanted true queue).requested ≡ some 1)
    × HasDistinctIds (λ e. e.id) after.dead_letters
    × ((k : List ℕ)
        → lookup (λ e. e.id) after.dead_letters k
          ≡ or_else
              (lookup (λ e. e.id) (pages 1).items k)
              (lookup (λ e. e.id) queue.dead_letters k))
    × (asked_pages after ≡ asked_pages queue ++ 1 ∷ [])
    × (after.dead_letters ≡ reloaded pages after)
on_more_ended_lem_example = on_more_ended_lem pages queue refl one_event one_event queue_loaded

abbrev nothing_retried : Outbox
nothing_retried = record { busy_ids = []; retry_keys = []; failure_ids = [] }

-- The request for `a` fails, and one for `b` succeeds.
abbrev outcomes : List RetryEvent
outcomes = retried false (js "a") ∷ retried true (js "b") ∷ []

key_given : truthy (js "k1") ≡ true
unfolding js
key_given = refl

sent_first : (retry_outbox true true (js "a") (js "k1") nothing_retried).0 ≡ some (js "k1")
unfolding retry_outbox request_key get
sent_first = refl

no_success : All (NoSuccess (js "a")) outcomes
unfolding js list_beq
no_success = (tt, (refl, tt))

sent_again :
    (retry_outbox true true
      (js "a")
      (js "k2")
      (on_retries outcomes (retry_outbox true true (js "a") (js "k1") nothing_retried).1)).0
    ≡ some (js "k1")
unfolding retry_outbox request_key get set delete on_retries on_retry on_retried js list_beq
sent_again = refl

retry_keeps_key_example : js "k1" ≡ js "k1"
retry_keeps_key_example =
    retry_keeps_key true true true true (js "a") (js "k1") (js "k2") (js "k1") (js "k1")
      nothing_retried outcomes key_given sent_first no_success sent_again

-- The event is selected, leaves the queue, and is selected again with another.
abbrev selection_changes : List (SelectionEvent ℕ)
selection_changes = toggled (js "e") ∷ new_events [] ∷ toggled (js "e") ∷ toggled (js "f") ∷ []

two_selected :
    (select_all selection_changes (first_selection (event ∷ []))).selected_ids
    ≡ js "e" ∷ js "f" ∷ []
unfolding select_all select toggle keep_pending js list_beq
two_selected = refl

ticks_are_limited_example :
    let s = select_all selection_changes (first_selection (event ∷ [])) in
    IsWithinLimit s.selected_ids
    × (In (js "e") (select (new_events (event ∷ [])) s).selected_ids
        ↔ (In (js "e") s.selected_ids × (is_pending (event ∷ []) (js "e") ≡ true)))
    × (In (js "e") (select (toggled (js "e")) s).selected_ids
        ↔ ((¬ In (js "e") s.selected_ids) × (length s.selected_ids < max_selected)))
ticks_are_limited_example = ticks_are_limited selection_changes (event ∷ []) (event ∷ []) (js "e")
