-- ===== src/Panels/Selection.antt =====
-- web/app/components/ReplayOperationsPanel.tsx: the events that are selected for a common discard.
pub mod Limit
use logi_track.Base.{
  ℕ, Bool, not, ◌&&◌, List, [], ◌∷◌, ◌++◌, ◌==◌, nat_eq, list_eq, any, length, keep_if, ltb,
  if◌then◌else◌,
}
use logi_track.Js.Text.{JsString}
use logi_track.Console.Types.{DeadLetterEvent, pending}
use logi_track.Console.Statuses.{dead_letter_status_eq}

abbrev pub max_selected : ℕ
max_selected = 20

-- `current.includes(id)`
abbrev pub includes_id : List JsString → JsString → Bool
includes_id ids id = any (λ value. value == id) ids

unfoldable pub toggle : (id : JsString) → List JsString → List JsString
toggle id current =
    if includes_id current id
    then keep_if (λ value. not (value == id)) current
    else if ltb (length current) max_selected
    then current ++ id ∷ []
    else current

-- What happens to the selection: a row's checkbox, other events, and `reset`
pub data SelectionEvent (D : Type 0) : Type 0 where
  toggled : JsString → SelectionEvent D
  new_events : List (DeadLetterEvent D) → SelectionEvent D
  selection_reset : SelectionEvent D

pub record Selection (D : Type 0) : Type 0 where
  pub events : List (DeadLetterEvent D)
  pub selected_ids : List JsString

module _ {D : Type 0} where
  abbrev pub is_pending : List (DeadLetterEvent D) → JsString → Bool
  is_pending events id = any (λ event. event.id == id && event.status == pending) events

  -- The effect on the events
  unfoldable pub keep_pending : List (DeadLetterEvent D) → List JsString → List JsString
  keep_pending events current = keep_if (is_pending events) current

  unfoldable pub select : SelectionEvent D → Selection D → Selection D
  select (toggled id) s = record s { selected_ids = toggle id s.selected_ids }
  select (new_events rows) s = record {
    events = rows;
    selected_ids = keep_pending rows s.selected_ids;
  }
  select selection_reset s = record s { selected_ids = [] }

  unfoldable pub select_all : List (SelectionEvent D) → Selection D → Selection D
  select_all [] s = s
  select_all (event ∷ rest) s = select_all rest (select event s)

  abbrev pub first_selection : List (DeadLetterEvent D) → Selection D
  first_selection rows = record { events = rows; selected_ids = [] }
