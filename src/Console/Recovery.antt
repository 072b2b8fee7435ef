-- ===== src/Console/Recovery.antt =====
-- web/app/console/page.tsx: the pages of the dead-letter queue, `loadReplay` and `loadMoreReplay`. The
-- audits that are loaded beside them, and the messages, are left out.
pub mod Pages
use logi_track.Base.{
  ℕ, zero, suc, ◌+◌, Bool, true, false, not, ◌&&◌, ◌||◌, Option, none, some, List, [], ◌∷◌, ◌++◌,
  map, concat, if◌then◌else◌,
}
use logi_track.Console.Types.{DeadLetterEvent, PageResult}
use logi_track.Console.Rows.{distinct}

module _ (D : Type 0) where
  abbrev pub DeadLetterPage : Type 0
  DeadLetterPage = PageResult (DeadLetterEvent D)

  -- `deadLetters`, `deadLetterTotal`, `replayLastPage` and `replayPageBusyRef`; `requested` is `next` of
  -- `loadMoreReplay` while its request is under way.
  pub record Replay : Type 0 where
    pub dead_letters : List (DeadLetterEvent D)
    pub dead_letter_total : ℕ
    pub last_page : ℕ
    pub page_busy : Bool
    pub requested : Option ℕ

  -- `loadReplay` has its pages, `loadMoreReplay` is called, its request ends.
  pub data ReplayEvent : Type 0 where
    pages_loaded : List DeadLetterPage → ReplayEvent
    more_wanted : (online : Bool) → ReplayEvent
    more_ended : Option DeadLetterPage → ReplayEvent

-- `Array.from({length}, (_, page) => page)`
unfoldable pub from_length : ℕ → List ℕ
from_length zero = []
from_length (suc length) = let rest = from_length length in rest ++ length ∷ []

module _ {D : Type 0} where
  -- The pages that `loadReplay` asks for.
  unfoldable pub asked_pages : Replay D → List ℕ
  asked_pages s = from_length (s.last_page + 1)

  -- `pages[0]?.totalElements || 0`
  abbrev pub total_of : List (DeadLetterPage D) → ℕ
  total_of [] = 0
  total_of (page ∷ pages) = page.total_elements

  unfoldable pub on_pages_loaded : List (DeadLetterPage D) → Replay D → Replay D
  on_pages_loaded pages s = record s {
    dead_letters = distinct (λ e. e.id) (concat (map (λ page. page.items) pages));
    dead_letter_total = total_of pages;
  }

  -- `loadMoreReplay`, up to its request for the page `next`
  unfoldable pub on_more_wanted : Bool → Replay D → Replay D
  on_more_wanted online s =
      if not online || s.page_busy
      then s
      else record s { page_busy = true; requested = some (s.last_page + 1) }

  -- The rest of it, for the page that was asked for or a failed request. Only a request that was sent
  -- ends.
  unfoldable pub on_more_ended : Option (DeadLetterPage D) → Replay D → Replay D
  on_more_ended outcome s = elim s.requested [
    | none ↦ s
    | some next ↦ (elim outcome [
      | none ↦ record s { page_busy = false; requested = none }
      | some page ↦ record s {
        last_page = next;
        dead_letters = distinct (λ e. e.id) (s.dead_letters ++ page.items);
        dead_letter_total = page.total_elements;
        page_busy = false;
        requested = none;
      }
    ])
  ]

  unfoldable pub on_replay : ReplayEvent D → Replay D → Replay D
  on_replay (pages_loaded pages) s = on_pages_loaded pages s
  on_replay (more_wanted online) s = on_more_wanted online s
  on_replay (more_ended outcome) s = on_more_ended outcome s
