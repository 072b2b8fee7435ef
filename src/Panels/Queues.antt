-- ===== src/Panels/Queues.antt =====
-- The two queues of the recovery page, filtered and sorted by date: `filteredFailures` of
-- OutboxRecoveryPanel and `filteredEvents` of ReplayOperationsPanel. `new Date(text).getTime()` is the
-- parameter `time`.
pub mod Order
use Prim.Native.Nat.{Ordering}
use logi_track.Base.{Bool, List, [], ◌∷◌, ◌&&◌, Option, keep_if, if◌then◌else◌}
use logi_track.Base.Int.{ℤ}
use logi_track.Base.Sorting.{sort}
use logi_track.Js.Text.{JsString}
use logi_track.Js.Search.{is_match, searched}
use logi_track.Js.Dates.{compare_times, reversed}
use logi_track.Auth.Cookies.{text_of}
use logi_track.Console.Types.{DeadLetterEvent, DeadLetterStatus}
use logi_track.Console.Statuses.{dead_letter_status_eq}
use logi_track.Panels.Rows.{OutboxFailure}
use logi_track.Panels.Scopes.{Scope, in_scope}
use logi_track.Panels.Filters.{failure_texts}

abbrev pub event_texts : {D : Type 0} → DeadLetterEvent D → List JsString
event_texts event =
    event.original_topic
    ∷ text_of event.trace_id
    ∷ text_of event.message_key
    ∷ text_of event.exception_message
    ∷ []

module _ (time : JsString → Option ℤ) {D : Type 0} where
  -- The comparator of `filteredEvents`
  unfoldable pub by_failure :
      (is_oldest_first : Bool) → DeadLetterEvent D → DeadLetterEvent D → Ordering
  by_failure is_oldest_first left right =
      let sign = compare_times (time left.failed_at) (time right.failed_at) in
      if is_oldest_first then sign else reversed sign

module _ (time : JsString → Option ℤ) (lower : JsString → JsString) {D : Type 0} where
  -- `filteredFailures`: the oldest first
  unfoldable pub filtered_failures :
      (query : JsString) → List (OutboxFailure D) → List (OutboxFailure D)
  filtered_failures query failures =
      let oldest_first =
        sort (λ left right. compare_times (time left.created_at) (time right.created_at))
          failures in
      searched lower failure_texts query oldest_first

  -- `filteredEvents`
  unfoldable pub filtered_events :
      (is_oldest_first : Bool)
      → Scope DeadLetterStatus
      → (query : JsString) → List (DeadLetterEvent D)
      → List (DeadLetterEvent D)
  filtered_events is_oldest_first scope query events = sort (by_failure time is_oldest_first) (
      keep_if (λ event. in_scope scope event.status && is_match lower query (event_texts event))
        events)
