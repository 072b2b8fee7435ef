-- ===== src/Console/Paging/Complete.antt =====
-- The loops over pages of web/app/console/page.tsx, on a server with finitely many pages.
use logi_track.Base.{
  ℕ, suc, zero, ◌+◌, ◌≤◌, ◌≡◌, refl, sym, ◌∙◌, ap, true, false, List, [], ◌∷◌, ◌++◌, map, concat,
  length, arith, append_assoc, append-nil,
}
use logi_track.Js.Text.{JsString}
use logi_track.Js.Result.{Result, ok}
use logi_track.Console.Types.{PageResult}
use logi_track.Console.Rows.{distinct, HasDistinctIds, distinct-HasDistinctIds}
use logi_track.Console.Paging.{load_from, load_pages, load_distinct}

module _ {A : Type 0} (server : ℕ → Result (PageResult A)) where
  -- From this number on the server has just these pages: each but the last says that there are more.
  abbrev pub Serves : ℕ → List (PageResult A) → Type 0
  Serves n [] = true ≡ false
  Serves n (p ∷ []) = (server n ≡ ok p) × (p.has_more ≡ false)
  Serves n (p ∷ q ∷ pages) = (server n ≡ ok p) × (p.has_more ≡ true) × Serves (n + 1) (q ∷ pages)

  abbrev pub items_of : List (PageResult A) → List A
  items_of pages = concat (map (λ page. page.items) pages)

  load_from_lem :
      (fuel n : ℕ) (rows : List A) (pages : List (PageResult A))
      → Serves n pages
      → length pages ≤ fuel
      → load_from server fuel n rows ≡ ok (rows ++ items_of pages)
  unfolding load_from
  load_from_lem zero n rows [] h k = absurd (ground arith)
  load_from_lem (suc fuel) n rows [] h k = absurd (ground arith)
  load_from_lem zero n rows (p ∷ pages) h k = absurd (ground arith)
  load_from_lem (suc fuel) n rows (p ∷ []) h k =
      rw (load_from, h.0, h.1) (ap (λ l. ok (rows ++ l)) (sym (append-nil p.items)))
  load_from_lem (suc fuel) n rows (p ∷ q ∷ pages) h k =
      rw (load_from, h.0, h.1)
        (load_from_lem fuel (n + 1) (rows ++ p.items) (q ∷ pages) h.2 (ground arith)
          ∙ ap ok (append_assoc rows p.items (items_of (q ∷ pages))))

  -- Where the server has finitely many pages and each but the last announces another, fuel for their
  -- number is enough: the loop ends and gives the rows of all of them, in order, and the loaders of
  -- deliveries, alerts and orders give them with no id twice.
  pub load_pages_lem :
      (id : A → JsString) (fuel : ℕ) (pages : List (PageResult A))
      → Serves 0 pages
      → length pages ≤ fuel
      → (load_pages server fuel ≡ ok (items_of pages))
        × (load_distinct server id fuel ≡ ok (distinct id (items_of pages)))
        × HasDistinctIds id (distinct id (items_of pages))
  unfolding load_pages load_distinct
  load_pages_lem id fuel pages h k =
      let all_rows = load_from_lem fuel 0 [] pages h k in
      (all_rows, rw all_rows refl, distinct-HasDistinctIds id (items_of pages))
