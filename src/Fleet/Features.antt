-- ===== src/Fleet/Features.antt =====
-- FleetMap: the GeoJSON features of the deliveries. What the source asks of numbers and of the clock is a
-- parameter: `time` is `new Date(text).getTime()`, `compare_text` the sign of `localeCompare`, and
-- `ceil_of progress n` is `Math.ceil(progress*n)`.
pub mod Reference
use Prim.Native.Nat.{Ordering}
use logi_track.Base.{
  ℕ, zero, suc, Bool, true, false, not, ◌&&◌, Option, none, some, List, [], ◌∷◌, ◌++◌, map, ◌==◌,
  nat_eq, list_eq, if◌then◌else◌, take, length,
}
use logi_track.Base.Int.{ℤ, pos, negsuc, pos_part, ◌-ℤ◌, leb_ℤ, sub_ℕ}
use logi_track.Base.Sorting.{sort}
use logi_track.Js.Text.{JsString}
use logi_track.Js.Dict.{Dict, get, has, set}
use logi_track.Console.Types.{Delivery, DeliveryStatus, delivered, RouteSnapshot, TelemetryPoint}
use logi_track.Console.Statuses.{delivery_status_eq}
use logi_track.Fleet.Lists.{is_overdue}

-- `a ?? b` and `a || b` of a list that may be missing
abbrev pub or_default {ℓ} : {A : Type ℓ} → A → Option A → A
or_default a none = a
or_default a (some b) = b

-- `xs.length > 0`
abbrev pub is_given {ℓ} : {A : Type ℓ} → List A → Bool
is_given [] = false
is_given (_ ∷ _) = true

pub data Kind : Type 0 where
  route_kind traveled_kind vehicle_kind origin_kind destination_kind : Kind

module _ (D : Type 0) where
  pub data Geometry : Type 0 where
    line_string : List (D × D) → Geometry
    point_at : D × D → Geometry

  -- A feature's properties that are not set are absent.
  pub record Feature : Type 0 where
    pub kind : Kind
    pub id : JsString
    pub status : Option DeliveryStatus
    pub actual : Option Bool
    pub label : Option JsString
    pub overdue : Option Bool
    pub geometry : Geometry

module _ {D : Type 0} where
  -- The first route of each delivery
  unfoldable pub index_route :
      Dict JsString (List (D × D)) → RouteSnapshot D → Dict JsString (List (D × D))
  index_route indexed route =
      if not (has indexed route.delivery_id)
      then set indexed route.delivery_id route.coordinates
      else indexed

  unfoldable pub index_routes :
      Dict JsString (List (D × D)) → List (RouteSnapshot D) → Dict JsString (List (D × D))
  index_routes indexed [] = indexed
  index_routes indexed (route ∷ routes) = index_routes (index_route indexed route) routes

  unfoldable pub route_index : List (RouteSnapshot D) → Dict JsString (List (D × D))
  route_index = index_routes []

  -- The points of each delivery, in their order
  unfoldable pub add_tracks :
      Dict JsString (List (TelemetryPoint D))
      → List (TelemetryPoint D)
      → Dict JsString (List (TelemetryPoint D))
  add_tracks tracks [] = tracks
  add_tracks tracks (point ∷ telemetry) =
      add_tracks
        (set tracks point.delivery_id
          (or_default [] (get tracks point.delivery_id) ++ (point ∷ [])))
        telemetry

  abbrev pub current_of : Delivery D → D × D
  current_of d = (or_default d.origin_lon d.current_lon, or_default d.origin_lat d.current_lat)

  abbrev pub origin_of : Delivery D → D × D
  origin_of d = (d.origin_lon, d.origin_lat)

  abbrev pub destination_of : Delivery D → D × D
  destination_of d = (d.destination_lon, d.destination_lat)

  module _ (ceil_of : D → ℤ → ℤ) where
    -- `Math.max(1, Math.ceil(progress*(route.length-1))+1)`
    unfoldable pub estimated_end : (route : List (D × D)) → (progress : D) → ℕ
    estimated_end route progress =
        let end = ceil_of progress (sub_ℕ (length route) 1) -ℤ negsuc 0 in
        if leb_ℤ (pos 1) end then pos_part end else 1

    unfoldable pub estimated_coordinates :
        (route : List (D × D)) → (progress : D) → (current : D × D) → List (D × D)
    estimated_coordinates route progress current =
        take (estimated_end route progress) route ++ (current ∷ [])

    module _ (time : JsString → Option ℤ) (compare_text : JsString → JsString → Ordering)
        (now : ℤ) where
      -- The five features of a delivery, with its planned route and the points of its track
      unfoldable pub features_of :
          (planned : Option (List (D × D)))
          → (track : List (TelemetryPoint D)) → Delivery D
          → List (Feature D)
      features_of planned track d =
          let plan = or_default (origin_of d ∷ destination_of d ∷ []) planned in
          let actual =
            map (λ p. (p.longitude, p.latitude))
              (sort (λ a b. compare_text a.occurred_at b.occurred_at) track) in
          record {
            kind = route_kind;
            id = d.id;
            status = some d.status;
            actual = none;
            label = none;
            overdue = none;
            geometry = line_string plan;
          }
          ∷ record {
            kind = traveled_kind;
            id = d.id;
            status = some d.status;
            actual = some (is_given actual);
            label = none;
            overdue = none;
            geometry = line_string (
                if is_given actual
                then origin_of d ∷ actual
                else estimated_coordinates plan d.progress (current_of d));
          }
          ∷ record {
            kind = vehicle_kind;
            id = d.id;
            status = some d.status;
            actual = none;
            label = some d.vehicle_id;
            overdue = some (not (d.status == delivered) && is_overdue time now d);
            geometry = point_at (current_of d);
          }
          ∷ record {
            kind = origin_kind;
            id = d.id;
            status = none;
            actual = none;
            label = some d.origin_name;
            overdue = none;
            geometry = point_at (origin_of d);
          }
          ∷ record {
            kind = destination_kind;
            id = d.id;
            status = none;
            actual = none;
            label = some d.destination_name;
            overdue = none;
            geometry = point_at (destination_of d);
          }
          ∷ []

      -- `for (const d of deliveries) …`
      unfoldable pub push_features :
          (indexed : Dict JsString (List (D × D)))
          (tracks : Dict JsString (List (TelemetryPoint D)))
          → List (Delivery D)
          → List (Feature D)
      push_features indexed tracks [] = []
      push_features indexed tracks (d ∷ deliveries) =
          features_of (get indexed d.id) (or_default [] (get tracks d.id)) d
          ++ push_features indexed tracks deliveries

      unfoldable pub features :
          List (Delivery D) → List (RouteSnapshot D) → List (TelemetryPoint D) → List (Feature D)
      features deliveries routes telemetry =
          push_features (route_index routes) (add_tracks [] telemetry) deliveries
