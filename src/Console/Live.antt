-- ===== src/Console/Live.antt =====
-- web/app/console/page.tsx: the rows that the console holds, and what the event stream, the loads and
-- an acknowledgement do to them. An updater that React is given acts at once. What the listeners start
-- or show beside the rows is left out: the map data of a new delivery, the messages, and the trace ids
-- of acknowledgements under way.
pub mod Invariant
pub mod Updates
use logi_track.Base.{
  ℕ, ◌+◌, Bool, Option, none, some, List, [], ◌∷◌, ◌++◌, map, ◌==◌, nat_eq, list_eq, if◌then◌else◌,
  any, take, keep_if, not,
}
use logi_track.Js.Text.{JsString, truthy}
use logi_track.Auth.Cookies.{text_of}
use logi_track.Console.Types.{RouteSnapshot, CustomerOrder, Delivery, TelemetryPoint, DeliveryAlert}
use logi_track.Console.Rows.{distinct, upsert, lookup}

abbrev pub telemetry_limit : ℕ
telemetry_limit = 5000

module _ (D : Type 0) where
  -- `items`, `alerts`, `telemetry`, `routes`, `orders`, the two stream versions and `knownDeliveryIds`
  pub record Live : Type 0 where
    pub items : List (Delivery D)
    pub alerts : List (DeliveryAlert D)
    pub telemetry : List (TelemetryPoint D)
    pub routes : List (RouteSnapshot D)
    pub orders : List (CustomerOrder D)
    pub delivery_version : ℕ
    pub alert_version : ℕ
    pub known_delivery_ids : List JsString

  -- What happens to the console. `loaded` is the end of `load`, with the versions that were read when
  -- it began and the rows of its pages; `map_loaded` is the end of `loadMapData`,
  -- with the ids that it asked for, and `orders_loaded` the end of `loadOrders`.
  pub data Event : Type 0 where
    delivery_update : Delivery D → Event
    telemetry_point : TelemetryPoint D → Event
    alert_update : DeliveryAlert D → Event
    loaded :
        (delivery_version alert_version : ℕ) → List (Delivery D) → List (DeliveryAlert D) → Event
    acknowledged : DeliveryAlert D → Event
    map_loaded : List JsString → List (RouteSnapshot D) → List (TelemetryPoint D) → Event
    orders_loaded : List (CustomerOrder D) → Event

-- `if (!known.has(id)) known.add(id)`
abbrev pub with_known : JsString → List JsString → List JsString
with_known id known = if any (λ k. k == id) known then known else id ∷ known

-- A snapshot replaces the rows, unless the stream has changed them since it was asked for.
unfoldable pub merged {ℓ} :
    {A : Type ℓ} → (id : A → JsString) → (is_current : Bool) → (snapshot old : List A) → List A
merged id is_current snapshot old = if is_current then snapshot else distinct id (snapshot ++ old)

module _ {D : Type 0} where
  abbrev pub no_rows : Live D
  no_rows = record {
    items = [];
    alerts = [];
    telemetry = [];
    routes = [];
    orders = [];
    delivery_version = 0;
    alert_version = 0;
    known_delivery_ids = [];
  }

  -- The listener of `delivery-update`
  unfoldable pub on_delivery : Delivery D → Live D → Live D
  on_delivery next s = record s {
    items = upsert (λ d. d.id) next s.items;
    delivery_version = s.delivery_version + 1;
    known_delivery_ids = with_known next.id s.known_delivery_ids;
  }

  -- The listener of `telemetry-point`
  unfoldable pub on_telemetry : TelemetryPoint D → Live D → Live D
  on_telemetry next s = record s {
    telemetry =
        if any (λ t. t.event_id == next.event_id) s.telemetry
        then s.telemetry
        else take telemetry_limit (next ∷ s.telemetry);
  }

  -- The listener of `alert-update`
  unfoldable pub on_alert : DeliveryAlert D → Live D → Live D
  on_alert next s = record s {
    alerts = upsert (λ a. a.id) next s.alerts;
    alert_version = s.alert_version + 1;
  }

  -- The end of `load`, after `loadDeliveries` and `loadAlerts`
  unfoldable pub on_loaded :
      (delivery_version alert_version : ℕ)
      → List (Delivery D)
      → List (DeliveryAlert D)
      → Live D
      → Live D
  on_loaded dv av delivery_rows alert_rows s =
      let next =
        merged (λ d. d.id) (s.delivery_version == dv) (distinct (λ d. d.id) delivery_rows)
          s.items in
      record s {
        items = next;
        alerts =
            merged (λ a. a.id) (s.alert_version == av) (distinct (λ a. a.id) alert_rows) s.alerts;
        known_delivery_ids = map (λ d. d.id) next;
      }

  -- `current ? { ...current, … } : next`: an acknowledgement that is there stays.
  unfoldable pub acknowledge : Option (DeliveryAlert D) → DeliveryAlert D → DeliveryAlert D
  acknowledge none next = next
  acknowledge (some current) next = record current {
    acknowledged_at =
        if truthy (text_of current.acknowledged_at)
        then current.acknowledged_at
        else next.acknowledged_at;
    acknowledged_by =
        if truthy (text_of current.acknowledged_at)
        then current.acknowledged_by
        else next.acknowledged_by;
  }

  -- `acknowledgeAlert`, when the API has answered with the alert
  unfoldable pub on_acknowledged : DeliveryAlert D → Live D → Live D
  on_acknowledged next s = record s {
    alerts =
        acknowledge (lookup (λ a. a.id) s.alerts next.id) next
        ∷ keep_if (λ a. not (a.id == next.id)) s.alerts;
    alert_version = s.alert_version + 1;
  }

  -- The end of `loadMapData` for the deliveries with these ids: their routes replace the old ones.
  unfoldable pub on_map_loaded :
      List JsString → List (RouteSnapshot D) → List (TelemetryPoint D) → Live D → Live D
  on_map_loaded ids routes points s = record s {
    routes = routes ++ keep_if (λ r. not (any (λ id. id == r.delivery_id) ids)) s.routes;
    telemetry = take telemetry_limit (distinct (λ t. t.event_id) (points ++ s.telemetry));
  }

  -- The end of `loadOrders`, with the rows of its pages
  unfoldable pub on_orders_loaded : List (CustomerOrder D) → Live D → Live D
  on_orders_loaded rows s = record s { orders = distinct (λ o. o.id) rows }

  unfoldable pub react : Event D → Live D → Live D
  react (delivery_update next) s = on_delivery next s
  react (telemetry_point next) s = on_telemetry next s
  react (alert_update next) s = on_alert next s
  react (loaded dv av delivery_rows alert_rows) s = on_loaded dv av delivery_rows alert_rows s
  react (acknowledged next) s = on_acknowledged next s
  react (map_loaded ids routes points) s = on_map_loaded ids routes points s
  react (orders_loaded rows) s = on_orders_loaded rows s

  unfoldable pub react_all : List (Event D) → Live D → Live D
  react_all [] s = s
  react_all (e ∷ es) s = react_all es (react e s)
