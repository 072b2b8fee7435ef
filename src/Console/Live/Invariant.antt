-- ===== src/Console/Live/Invariant.antt =====
-- web/app/console/page.tsx: the ids of the rows, and the number of telemetry points.
use logi_track.Base.{
  ◌≤◌, ◌≡◌, refl, Bool, true, false, Option, none, some, List, [], ◌∷◌, ◌++◌, arith, ◌==◌, nat_eq,
  list_eq, any, length, length-take, Bool-cases, eq_iff, inl, inr,
}
use logi_track.Js.Text.{JsString}
use logi_track.Js.Dict.{get, has}
use logi_track.Console.Types.{TelemetryPoint, DeliveryAlert}
use logi_track.Console.Rows.{
  entries, distinct, lookup, HasDistinctIds, distinct-HasDistinctIds, upsert-HasDistinctIds,
  replace-HasDistinctIds, take-HasDistinctIds,
}
use logi_track.Console.Live.{
  orders_loaded, on_orders_loaded, Live, Event, delivery_update, telemetry_point, alert_update,
  loaded, acknowledged, map_loaded, no_rows, telemetry_limit, on_delivery, on_telemetry, on_alert,
  merged, on_loaded, acknowledge, on_acknowledged, on_map_loaded, react, react_all,
}

merged-HasDistinctIds :
    {A : Type 0} (id : A → JsString) (is_current : Bool) (snapshot old : List A)
    → HasDistinctIds id snapshot
    → HasDistinctIds id (merged id is_current snapshot old)
unfolding merged
merged-HasDistinctIds id true snapshot old h = h
merged-HasDistinctIds id false snapshot old h = distinct-HasDistinctIds id (snapshot ++ old)

module _ {D : Type 0} where
  pub record IsWellFormed (s : Live D) : Type 0 where
    pub items : HasDistinctIds (λ d. d.id) s.items
    pub alerts : HasDistinctIds (λ a. a.id) s.alerts
    pub orders : HasDistinctIds (λ o. o.id) s.orders
    pub telemetry : HasDistinctIds (λ t. t.event_id) s.telemetry
    pub bounded : length s.telemetry ≤ 5000

  pub no_rows-IsWellFormed : IsWellFormed no_rows
  no_rows-IsWellFormed = record {
    items = tt;
    alerts = tt;
    orders = tt;
    telemetry = tt;
    bounded = ground arith;
  }

  has-entries :
      (next : TelemetryPoint D) (old : List (TelemetryPoint D))
      → any (λ t. t.event_id == next.event_id) old ≡ false
      → has (entries (λ t. t.event_id) old) next.event_id ≡ false
  unfolding has
  has-entries next [] h = refl
  has-entries next (t ∷ old) h = ground (arith, has-entries next old)

  pub acknowledge-id :
      (o : Option (DeliveryAlert D)) (next : DeliveryAlert D)
      → ((a : DeliveryAlert D) → o ≡ some a → a.id ≡ next.id)
      → (acknowledge o next).id ≡ next.id
  unfolding acknowledge
  acknowledge-id none next h = refl
  acknowledge-id (some a) next h = h a refl

  pub lookup-id :
      (rows : List (DeliveryAlert D)) (k : JsString) (a : DeliveryAlert D)
      → lookup (λ a. a.id) rows k ≡ some a
      → a.id ≡ k
  unfolding get
  lookup-id [] k a h = cc
  lookup-id (b ∷ rows) k a h = elim (Bool-cases (b.id == k)) [
    | inl same ↦ let hit : b ≡ a = cc (rw same at h) in rw (← hit) ((eq_iff b.id k).0 same)
    | inr differs ↦ lookup-id rows k a (rw differs at h)
  ]

  telemetry-IsWellFormed :
      (next : TelemetryPoint D) (s : Live D) → IsWellFormed s → IsWellFormed (on_telemetry next s)
  unfolding on_telemetry
  telemetry-IsWellFormed next s v =
      elim (Bool-cases (any (λ t. t.event_id == next.event_id) s.telemetry)) [
        | inl old ↦ record {
          items = v.items;
          alerts = v.alerts;
          orders = v.orders;
          telemetry = rw old v.telemetry;
          bounded = rw old v.bounded;
        }
        | inr new ↦ record {
          items = v.items;
          alerts = v.alerts;
          orders = v.orders;
          telemetry = rw new (
              take-HasDistinctIds (λ t. t.event_id) telemetry_limit (next ∷ s.telemetry)
                (has-entries next s.telemetry new, v.telemetry));
          bounded = rw new (ground (arith, length-take telemetry_limit (next ∷ s.telemetry)));
        }
      ]

  on_acknowledged-alerts :
      (next : DeliveryAlert D) (s : Live D)
      → HasDistinctIds (λ a. a.id) s.alerts
      → HasDistinctIds (λ a. a.id) (on_acknowledged next s).alerts
  unfolding on_acknowledged
  on_acknowledged-alerts next s v =
      let found = lookup (λ a. a.id) s.alerts next.id in
      let same_id : (acknowledge found next).id ≡ next.id =
        acknowledge-id found next (lookup-id s.alerts next.id) in
      replace-HasDistinctIds (λ a. a.id) (acknowledge found next) next.id s.alerts same_id v

  react-IsWellFormed : (e : Event D) (s : Live D) → IsWellFormed s → IsWellFormed (react e s)
  unfolding react on_delivery on_alert on_loaded on_acknowledged on_map_loaded on_orders_loaded
  react-IsWellFormed (delivery_update next) s v = record {
    items = upsert-HasDistinctIds (λ d. d.id) next s.items v.items;
    alerts = v.alerts;
    orders = v.orders;
    telemetry = v.telemetry;
    bounded = v.bounded;
  }
  react-IsWellFormed (telemetry_point next) s v = telemetry-IsWellFormed next s v
  react-IsWellFormed (alert_update next) s v = record {
    items = v.items;
    alerts = upsert-HasDistinctIds (λ a. a.id) next s.alerts v.alerts;
    orders = v.orders;
    telemetry = v.telemetry;
    bounded = v.bounded;
  }
  react-IsWellFormed (loaded dv av delivery_rows alert_rows) s v = record {
    items =
        merged-HasDistinctIds (λ d. d.id) (s.delivery_version == dv) _ s.items
          (distinct-HasDistinctIds (λ d. d.id) delivery_rows);
    alerts =
        merged-HasDistinctIds (λ a. a.id) (s.alert_version == av) _ s.alerts
          (distinct-HasDistinctIds (λ a. a.id) alert_rows);
    orders = v.orders;
    telemetry = v.telemetry;
    bounded = v.bounded;
  }
  react-IsWellFormed (acknowledged next) s v = record {
    items = v.items;
    alerts = on_acknowledged-alerts next s v.alerts;
    orders = v.orders;
    telemetry = v.telemetry;
    bounded = v.bounded;
  }
  react-IsWellFormed (map_loaded ids routes points) s v =
      let all_points = distinct (λ t. t.event_id) (points ++ s.telemetry) in
      record {
        items = v.items;
        alerts = v.alerts;
        orders = v.orders;
        telemetry =
            take-HasDistinctIds (λ t. t.event_id) telemetry_limit all_points
              (distinct-HasDistinctIds (λ t. t.event_id) (points ++ s.telemetry));
        bounded = ground (arith, length-take telemetry_limit all_points);
      }
  react-IsWellFormed (orders_loaded rows) s v = record {
    items = v.items;
    alerts = v.alerts;
    orders = distinct-HasDistinctIds (λ o. o.id) rows;
    telemetry = v.telemetry;
    bounded = v.bounded;
  }

  -- Whatever the stream, the loads and the acknowledgements bring, and in whatever order, neither
  -- the deliveries, the alerts, the orders nor the telemetry hold two rows with the same id, and at
  -- most 5,000 telemetry points are kept.
  pub react_all-IsWellFormed :
      (es : List (Event D)) (s : Live D) → IsWellFormed s → IsWellFormed (react_all es s)
  unfolding react_all
  react_all-IsWellFormed [] s v = v
  react_all-IsWellFormed (e ∷ es) s v =
      react_all-IsWellFormed es (react e s) (react-IsWellFormed e s v)
