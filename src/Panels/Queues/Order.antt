-- ===== src/Panels/Queues/Order.antt =====
-- The order of the two queues of the recovery page, and what they hold.
use mathlib.Core.List.{Pairwise}
use logi_track.Base.{
  sym, subst, ◌↔◌, inl, inr, Bool, true, false, List, Option, In, Bool-cases, keep_if, [], ◌∷◌,
}
use logi_track.Base.Int.{ℤ}
use logi_track.Base.Sorting.{sort, In-sort_iff, keep_if-Pairwise}
use logi_track.Js.Text.{JsString}
use logi_track.Js.Search.{IsFound, In-searched, searched-eq-keep_if}
use logi_track.Js.Dates.{IsNotAfter, IsDated, oldest_first-Pairwise, newest_first-Pairwise}
use logi_track.Console.Types.{DeadLetterEvent, DeadLetterStatus}
use logi_track.Console.Statuses.{dead_letter_status_eq}
use logi_track.Panels.Rows.{OutboxFailure}
use logi_track.Panels.Scopes.{Scope, InScope}
use logi_track.Panels.Filters.{failure_texts}
use logi_track.Panels.Queues.{event_texts, filtered_failures, filtered_events, by_failure}
use logi_track.Panels.Exact.{In-filtered}

-- Rows with valid dates stay so under a filter.
IsDated-keep_if :
    {A : Type 0} (at : A → Option ℤ) (p : A → Bool) (rows : List A)
    → IsDated at rows
    → IsDated at (keep_if p rows)
IsDated-keep_if at p [] h = tt
IsDated-keep_if at p (row ∷ rows) h = elim (Bool-cases (p row)) [
  | inl kept ↦ rw kept (h.0, IsDated-keep_if at p rows h.1)
  | inr left ↦ rw left (IsDated-keep_if at p rows h.1)
]

module _ (time : JsString → Option ℤ) (lower : JsString → JsString) {D : Type 0} where
  -- Where every failure's date is valid, the outbox panel shows exactly the failures that the query is
  -- found in, and none stands behind a younger one.
  pub filtered_failures_lem :
      (query : JsString) (failures : List (OutboxFailure D)) (failure : OutboxFailure D)
      → IsDated (λ f. time f.created_at) failures
      → (In failure (filtered_failures time lower query failures)
          ↔ (In failure failures × IsFound lower query (failure_texts failure)))
        × Pairwise (IsNotAfter λ f. time f.created_at) (filtered_failures time lower query failures)
  unfolding filtered_failures
  filtered_failures_lem query failures failure h = (
    (
      λ m.
          let (k, f) = (In-searched lower failure_texts query _ failure).0 m in
          ((In-sort_iff _ failures failure).0 k, f),
      λ (m, f).
          (In-searched lower failure_texts query _ failure).1
            ((In-sort_iff _ failures failure).1 m, f),
    ),
    subst (Pairwise (IsNotAfter λ f. time f.created_at))
        (sym (searched-eq-keep_if lower failure_texts query _))
        (keep_if-Pairwise _ _ _ (oldest_first-Pairwise (λ f. time f.created_at) failures h)),
  )

  -- The order that the reader has chosen
  abbrev pub InDateOrder : (is_oldest_first : Bool) → DeadLetterEvent D → DeadLetterEvent D → Type 0
  InDateOrder true left right = IsNotAfter (λ e. time e.failed_at) left right
  InDateOrder false left right = IsNotAfter (λ e. time e.failed_at) right left

  sort-by_failure :
      (is_oldest_first : Bool) (events : List (DeadLetterEvent D))
      → IsDated (λ e. time e.failed_at) events
      → Pairwise (InDateOrder is_oldest_first) (sort (by_failure time is_oldest_first) events)
  unfolding by_failure
  sort-by_failure true events h = oldest_first-Pairwise (λ e. time e.failed_at) events h
  sort-by_failure false events h = newest_first-Pairwise (λ e. time e.failed_at) events h

  -- Where every event's date of failure is valid, the replay panel shows exactly the events of the scope
  -- that the query is found in, in the order of failure that is chosen, the oldest or the newest first.
  pub filtered_events_lem :
      (is_oldest_first : Bool) (scope : Scope DeadLetterStatus) (query : JsString)
      (events : List (DeadLetterEvent D)) (event : DeadLetterEvent D)
      → IsDated (λ e. time e.failed_at) events
      → (In event (filtered_events time lower is_oldest_first scope query events) ↔ (
          In event events × InScope scope event.status × IsFound lower query (event_texts event)))
        × Pairwise
            (InDateOrder is_oldest_first)
            (filtered_events time lower is_oldest_first scope query events)
  unfolding filtered_events
  filtered_events_lem is_oldest_first scope query events event h =
      let kept = In-filtered lower (λ e. e.status) event_texts scope query events event in
      let sorted = In-sort_iff (by_failure time is_oldest_first) _ event in
      (
        (λ m. kept.0 (sorted.0 m), λ m. sorted.1 (kept.1 m)),
        sort-by_failure is_oldest_first _ (IsDated-keep_if _ _ events h),
      )
