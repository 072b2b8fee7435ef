-- ===== src/Fleet/Lists.antt =====
-- web/app/console/page.tsx: the lists of deliveries behind the fleet's scopes. `new Date(text).getTime()`
-- is the parameter `time`, `toLowerCase` the parameter `lower`; `now` and `freshness_now` are times
-- of the clock. A `Set` is the list of what was put into it.
pub mod Latest
pub mod Fresh
use Prim.Native.Nat.{Ordering}
use logi_track.Base.{
  ◌≡◌, Bool, true, false, not, ◌&&◌, Option, none, some, List, [], ◌∷◌, ◌++◌, map, ◌==◌, nat_eq,
  list_eq, if◌then◌else◌, any, keep_if,
}
use logi_track.Base.Int.{ℤ, pos, ◌-ℤ◌, ltb_ℤ, leb_ℤ}
use logi_track.Base.Sorting.{compare_ℤ, sort}
use logi_track.Js.Text.{JsString, truthy}
use logi_track.Js.Search.{searched}
use logi_track.Js.Dates.{or_zero}
use logi_track.Js.Dict.{Dict, get, set}
use logi_track.Auth.Cookies.{text_of}
use logi_track.Console.Types.{Delivery, delivered, TelemetryPoint, DeliveryAlert, active}
use logi_track.Console.Statuses.{delivery_status_eq, alert_status_eq}

pub data FleetScope : Type 0 where
  moving_scope live_scope attention_scope stale_scope all_scope : FleetScope

-- `ids.has(id)`
abbrev pub has_id : List JsString → JsString → Bool
has_id ids id = any (λ k. k == id) ids

-- The time of an optional date: NaN without one
unfoldable pub time_of : (time : JsString → Option ℤ) → Option JsString → Option ℤ
time_of time date = if truthy (text_of date) then time (text_of date) else none

-- `(latest.get(left.id) ?? -Infinity) - (latest.get(right.id) ?? -Infinity)`
unfoldable pub compare_latest : Option ℤ → Option ℤ → Ordering
compare_latest none none = Ordering.eq
compare_latest none (some b) = Ordering.lt
compare_latest (some a) none = Ordering.gt
compare_latest (some a) (some b) = compare_ℤ a b

module _ {D : Type 0} where
  unfoldable pub live_items : List (Delivery D) → List (Delivery D)
  live_items = keep_if λ item. not (item.status == delivered)

  unfoldable pub active_alerts : List (DeliveryAlert D) → List (DeliveryAlert D)
  active_alerts = keep_if λ alert. alert.status == active

  abbrev pub search_texts : Delivery D → List JsString
  search_texts item =
      item.vehicle_id ∷ item.order_number ∷ item.origin_name ∷ item.destination_name ∷ []

  module _ (time : JsString → Option ℤ) where
    -- A delivery whose expected arrival is a date that has passed
    unfoldable pub is_overdue : (now : ℤ) → Delivery D → Bool
    is_overdue now item = elim (time_of time item.eta) [ none ↦ false | some eta ↦ ltb_ℤ eta now ]

    unfoldable pub overdue_items : (now : ℤ) → List (Delivery D) → List (Delivery D)
    overdue_items now items = keep_if (is_overdue now) (live_items items)

    unfoldable pub attention_ids :
        (now : ℤ) → List (Delivery D) → List (DeliveryAlert D) → List JsString
    attention_ids now items alerts =
        map (λ alert. alert.delivery_id) (active_alerts alerts)
        ++ map (λ item. item.id) (overdue_items now items)

    -- `items.forEach(…)`
    unfoldable pub with_item : Dict JsString ℤ → Delivery D → Dict JsString ℤ
    with_item latest item = elim (time_of time item.last_telemetry_at) [
      | none ↦ latest
      | some occurred_at ↦ set latest item.id occurred_at
    ]

    unfoldable pub latest_of_items : Dict JsString ℤ → List (Delivery D) → Dict JsString ℤ
    latest_of_items latest [] = latest
    latest_of_items latest (item ∷ items) = latest_of_items (with_item latest item) items

    -- `telemetry.forEach(…)`
    unfoldable pub with_point : Dict JsString ℤ → TelemetryPoint D → Dict JsString ℤ
    with_point latest point = elim (time point.occurred_at) [
      | none ↦ latest
      | some occurred_at ↦
          if ltb_ℤ (or_zero (get latest point.delivery_id)) occurred_at
          then set latest point.delivery_id occurred_at
          else latest
    ]

    unfoldable pub latest_of_points : Dict JsString ℤ → List (TelemetryPoint D) → Dict JsString ℤ
    latest_of_points latest [] = latest
    latest_of_points latest (point ∷ points) = latest_of_points (with_point latest point) points

    unfoldable pub latest_telemetry_at :
        List (Delivery D) → List (TelemetryPoint D) → Dict JsString ℤ
    latest_telemetry_at items telemetry = latest_of_points (latest_of_items [] items) telemetry

  -- `freshnessNow - (latest.get(id) ?? 0) >= 300000`
  unfoldable pub is_stale : (freshness_now : ℤ) → Dict JsString ℤ → Delivery D → Bool
  is_stale freshness_now latest item =
      leb_ℤ (pos 300000) (freshness_now -ℤ or_zero (get latest item.id))

  unfoldable pub stale_ids :
      (freshness_now : ℤ) → Dict JsString ℤ → List (Delivery D) → List JsString
  stale_ids freshness_now latest items =
      map (λ item. item.id) (keep_if (is_stale freshness_now latest) (live_items items))

  unfoldable pub moving_items :
      (freshness_now : ℤ) → Dict JsString ℤ → List (Delivery D) → List (Delivery D)
  moving_items freshness_now latest items =
      let stale = stale_ids freshness_now latest items in
      keep_if (λ item. not (has_id stale item.id)) (live_items items)

  unfoldable pub by_latest : Dict JsString ℤ → Delivery D → Delivery D → Ordering
  by_latest latest left right = compare_latest (get latest left.id) (get latest right.id)

  unfoldable pub stale_items :
      (freshness_now : ℤ) → Dict JsString ℤ → List (Delivery D) → List (Delivery D)
  stale_items freshness_now latest items =
      let stale = stale_ids freshness_now latest items in
      sort (by_latest latest) (keep_if (λ item. has_id stale item.id) (live_items items))

  unfoldable pub scoped_items :
      FleetScope → (items live attention stale moving : List (Delivery D)) → List (Delivery D)
  scoped_items moving_scope items live attention stale moving = moving
  scoped_items live_scope items live attention stale moving = live
  scoped_items attention_scope items live attention stale moving = attention
  scoped_items stale_scope items live attention stale moving = stale
  scoped_items all_scope items live attention stale moving = items

  -- What the scope and the search leave of the page's rows
  unfoldable pub visible_items :
      (time : JsString → Option ℤ) (lower : JsString → JsString) (now freshness_now : ℤ)
      → FleetScope
      → (query : JsString) → List (Delivery D)
      → List (DeliveryAlert D)
      → List (TelemetryPoint D)
      → List (Delivery D)
  visible_items time lower now freshness_now scope query items alerts telemetry =
      let latest = latest_telemetry_at time items telemetry in
      let attention = attention_ids time now items alerts in
      searched lower search_texts query (
        scoped_items scope items (live_items items)
          (keep_if (λ item. has_id attention item.id) (live_items items))
          (stale_items freshness_now latest items) (moving_items freshness_now latest items))
