-- ===== src/Fleet/Chosen.antt =====
-- The deliveries that are drawn: `mapItems` of web/app/console/page.tsx on the map, `visibleDeliveries`
-- of FleetTelemetryPanel in the list, and the effect that keeps one of the visible deliveries selected.
pub mod Shown
pub mod Selection
use logi_track.Base.{
  ℕ, ◌-◌, Bool, true, false, Option, none, some, List, [], ◌∷◌, ◌==◌, nat_eq, list_eq, leb,
  if◌then◌else◌, any, take, length, max,
}
use logi_track.Js.Text.{JsString, truthy}
use logi_track.Console.Types.{Delivery, delivered, RouteSnapshot}
use logi_track.Console.Statuses.{delivery_status_eq}
use logi_track.Fleet.Lists.{FleetScope, all_scope}

abbrev pub map_delivery_limit : ℕ
map_delivery_limit = 50

-- `rows.find(p)`
abbrev pub find {ℓ} : {A : Type ℓ} → (A → Bool) → List A → Option A
find p [] = none
find p (x ∷ xs) = let rest = find p xs in if p x then some x else rest

-- What the reader has chosen to see
pub record View : Type 0 where
  pub fleet_scope : FleetScope
  pub fleet_query : JsString
  pub selected : Option JsString

module _ {D : Type 0} where
  -- `item.id === selected`
  abbrev pub is_selected : (selected : Option JsString) → Delivery D → Bool
  is_selected none item = false
  is_selected (some id) item = item.id == id

  unfoldable pub visible_deliveries :
      (visible_count : ℕ) → (selected : Option JsString) → List (Delivery D) → List (Delivery D)
  visible_deliveries visible_count selected deliveries =
      let first = take visible_count deliveries in
      elim (find (is_selected selected) deliveries) [
        | none ↦ first
        | some chosen ↦
            if any (λ item. item.id == chosen.id) first
            then first
            else chosen ∷ take (visible_count - 1) first
      ]

  unfoldable pub map_items : (selected : Option JsString) → List (Delivery D) → List (Delivery D)
  map_items selected visible =
      if leb (length visible) map_delivery_limit
      then visible
      else elim (find (is_selected selected) visible) [
        | none ↦ take map_delivery_limit visible
        | some chosen ↦
            if any (λ item. item.id == chosen.id) (take map_delivery_limit visible)
            then take map_delivery_limit visible
            else chosen ∷ take (map_delivery_limit - 1) (take map_delivery_limit visible)
      ]

  -- The effect: without a visible delivery the selection stays, and so does a visible one.
  unfoldable pub keep_selection :
      List (RouteSnapshot D) → (visible : List (Delivery D)) → Option JsString → Option JsString
  keep_selection routes [] selected = selected
  keep_selection routes (first ∷ rest) selected =
      if any (is_selected selected) (first ∷ rest)
      then selected
      else elim (find (λ item. any (λ route. route.delivery_id == item.id) routes) (first ∷ rest)) [
        | none ↦ some first.id
        | some item ↦ if truthy item.id then some item.id else some first.id
      ]

  unfoldable pub focus_delivery : (items : List (Delivery D)) (id : JsString) → View → View
  focus_delivery items id view = record {
    fleet_scope = elim (find (λ item. item.id == id) items) [
      | none ↦ view.fleet_scope
      | some item ↦ if item.status == delivered then all_scope else view.fleet_scope
    ];
    fleet_query = [];
    selected = some id;
  }
