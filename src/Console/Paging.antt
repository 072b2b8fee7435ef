-- ===== src/Console/Paging.antt =====
-- web/app/console/page.tsx: the loops that load every page, `loadPages`, `loadDeliveries`, `loadAlerts`
-- and `loadOrders`. The server is a function from page numbers to answers, or to a failed request. The
-- loop has no bound of its own: it runs on fuel here, for as many pages as are asked for at most.
pub mod Complete
use logi_track.Base.{ℕ, suc, zero, ◌+◌, Option, none, some, List, [], ◌++◌, if◌then◌else◌}
use logi_track.Js.Text.{JsString, js}
use logi_track.Js.Result.{Result, ok, thrown, ◌>>=◌}
use logi_track.Console.Types.{PageResult}
use logi_track.Console.Rows.{distinct}

module _ {A : Type 0} (server : ℕ → Result (PageResult A)) where
  unfoldable pub load_from : (fuel page : ℕ) → List A → Result (List A)
  load_from zero page rows = thrown (js "out of fuel")
  load_from (suc fuel) page rows = elim (server page) [
    | thrown e ↦ thrown e
    | ok result ↦
        let next = load_from fuel (page + 1) (rows ++ result.items) in
        if result.has_more then next else ok (rows ++ result.items)
  ]

  -- `loadPages`
  unfoldable pub load_pages : ℕ → Result (List A)
  load_pages fuel = load_from fuel 0 []

  -- `loadDeliveries`, `loadAlerts` and `loadOrders`: of two rows with an id the later one counts.
  unfoldable pub load_distinct : (id : A → JsString) → ℕ → Result (List A)
  load_distinct id fuel = load_from fuel 0 [] >>= λ rows. ok (distinct id rows)
