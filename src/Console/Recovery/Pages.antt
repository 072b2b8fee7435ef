-- ===== src/Console/Recovery/Pages.antt =====
-- `loadMoreReplay` (web/app/console/page.tsx): a further page of the queue.
use logi_track.Base.{
  ℕ, suc, arith, Bool-cases, inl, inr, ◌+◌, ◌≡◌, refl, sym, ap, ◌∙◌, true, false, some, List, [],
  ◌∷◌, ◌++◌, map, concat, append-nil, append_assoc,
}
use logi_track.Js.Text.{JsString}
use logi_track.Console.Types.{DeadLetterEvent}
use logi_track.Console.Maps.{or_else}
use logi_track.Console.Rows.{
  lookup, distinct, HasDistinctIds, distinct-HasDistinctIds, lookup-distinct-append,
  distinct-append,
}
use logi_track.Console.Recovery.{
  DeadLetterPage, Replay, from_length, asked_pages, on_pages_loaded, on_more_wanted, on_more_ended,
}

from_length-suc : (n : ℕ) → from_length (n + 1) ≡ from_length n ++ n ∷ []
unfolding from_length
from_length-suc n = let next : n + 1 ≡ suc n = omega arith in rw next refl

module _ {D : Type 0} (server : ℕ → DeadLetterPage D) where
  -- The list that a full load would show, where the API answers each page as `server` does.
  abbrev pub reloaded : Replay D → List (DeadLetterEvent D)
  reloaded s = (on_pages_loaded (map server (asked_pages s)) s).dead_letters

  items_append :
      (xs ys : List ℕ)
      → concat (map (λ p. p.items) (map server (xs ++ ys)))
        ≡ concat (map (λ p. p.items) (map server xs)) ++ concat (map (λ p. p.items) (map server ys))
  items_append [] ys = refl
  items_append (x ∷ xs) ys =
      ap (λ rest. (server x).items ++ rest) (items_append xs ys)
      ∙ sym (append_assoc (server x).items _ _)

  abbrev asked_more : Replay D → Replay D
  asked_more s = record s { page_busy = true; requested = some (s.last_page + 1) }

  on_more_wanted-free : (s : Replay D) → s.page_busy ≡ false → on_more_wanted true s ≡ asked_more s
  unfolding on_more_wanted
  on_more_wanted-free s free = elim (Bool-cases s.page_busy) [
    | inl busy ↦ absurd (cc)
    | inr other ↦ rw other refl
  ]

  ended-reloaded :
      (s : Replay D)
      → s.dead_letters ≡ reloaded s
      → let after = on_more_ended (some (server (s.last_page + 1))) (asked_more s) in
        after.dead_letters ≡ reloaded after
  unfolding on_more_ended on_pages_loaded asked_pages
  ended-reloaded s same =
      let items = (server (s.last_page + 1)).items in
      let before = concat (map (λ p. p.items) (map server (from_length (s.last_page + 1)))) in
      ap (λ rows. distinct (λ e. e.id) (rows ++ items)) same
      ∙ distinct-append (λ e. e.id) before items
      ∙ ap (distinct (λ e. e.id)) (
          ap (λ rest. before ++ rest) (sym (append-nil items))
          ∙ sym (items_append (from_length (s.last_page + 1)) ((s.last_page + 1) ∷ []))
          ∙ ap (λ pages. concat (map (λ p. p.items) (map server pages)))
              (sym (from_length-suc (s.last_page + 1))))

  -- Online, and with no further page under way, where the list has distinct ids and is the one that a full
  -- load would show: the page after the last one is asked for. When it comes in, with distinct ids, no
  -- event is in the list twice, every event that was in it stays, with the new page's contents where
  -- both have it, the page is asked for by full loads too, and the list is again the one that a full load
  -- would show.
  pub on_more_ended_lem :
      (s : Replay D)
      → s.page_busy ≡ false
      → HasDistinctIds (λ e. e.id) s.dead_letters
      → HasDistinctIds (λ e. e.id) (server (s.last_page + 1)).items
      → s.dead_letters ≡ reloaded s
      → let next = s.last_page + 1 in
        let asked = on_more_wanted true s in
        let after = on_more_ended (some (server next)) asked in
        (asked.requested ≡ some next)
        × HasDistinctIds (λ e. e.id) after.dead_letters
        × ((k : JsString)
            → lookup (λ e. e.id) after.dead_letters k
              ≡ or_else
                  (lookup (λ e. e.id) (server next).items k)
                  (lookup (λ e. e.id) s.dead_letters k))
        × (asked_pages after ≡ asked_pages s ++ next ∷ [])
        × (after.dead_letters ≡ reloaded after)
  unfolding on_more_ended asked_pages
  on_more_ended_lem s free h k same = rw (on_more_wanted-free s free) (
    refl,
    distinct-HasDistinctIds (λ e. e.id) (s.dead_letters ++ items),
    λ id. lookup-distinct-append (λ e. e.id) s.dead_letters items id h k,
    from_length-suc (s.last_page + 1),
    ended-reloaded s same,
  )
    where
      items : List (DeadLetterEvent D)
      items = (server (s.last_page + 1)).items
