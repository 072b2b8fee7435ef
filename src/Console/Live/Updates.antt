-- ===== src/Console/Live/Updates.antt =====
-- web/app/console/page.tsx: updates against loads, and acknowledgements.
use logi_track.Base.{
  ℕ, ◌≤◌, ◌≡◌, refl, ◌∙◌, true, false, some, List, [], ◌∷◌, arith, ◌==◌, nat_eq, list_eq,
  Bool-cases, eq_iff, inl, inr,
}
use logi_track.Js.Text.{JsString, truthy}
use logi_track.Auth.Cookies.{text_of}
use logi_track.Console.Types.{Delivery, DeliveryAlert}
use logi_track.Console.Maps.{or_else}
use logi_track.Console.Rows.{
  distinct, lookup, distinct-HasDistinctIds, lookup-distinct-append, lookup-replace,
}
use logi_track.Console.Live.{
  orders_loaded, on_orders_loaded, Live, Event, delivery_update, telemetry_point, alert_update,
  loaded, acknowledged, map_loaded, on_delivery, on_telemetry, on_alert, merged, on_loaded,
  acknowledge, on_acknowledged, on_map_loaded, react, react_all,
}
use logi_track.Console.Live.Invariant.{
  IsWellFormed, react_all-IsWellFormed, acknowledge-id, lookup-id,
}

module _ {D : Type 0} where
  react-version : (e : Event D) (s : Live D) → s.delivery_version ≤ (react e s).delivery_version
  unfolding react on_delivery on_telemetry on_alert on_loaded on_acknowledged on_map_loaded
      on_orders_loaded
  react-version (delivery_update next) s = omega arith
  react-version (telemetry_point next) s = omega arith
  react-version (alert_update next) s = omega arith
  react-version (loaded dv av delivery_rows alert_rows) s = omega arith
  react-version (acknowledged next) s = omega arith
  react-version (map_loaded ids routes points) s = omega arith
  react-version (orders_loaded rows) s = omega arith

  react_all-version :
      (es : List (Event D)) (s : Live D) → s.delivery_version ≤ (react_all es s).delivery_version
  unfolding react_all
  react_all-version [] s = omega arith
  react_all-version (e ∷ es) s = omega (arith, react-version e s, react_all-version es (react e s))

  -- Where the rows' ids are distinct, a load that began before a delivery update came in leaves
  -- every delivery on the screen as it is, whatever rows it brings and whatever else has happened
  -- since: the rows of the load only add the deliveries that are not there.
  pub load_keeps_updates :
      (dv av : ℕ) (delivery_rows : List (Delivery D)) (alert_rows : List (DeliveryAlert D))
      (next : Delivery D) (s : Live D) (es : List (Event D)) (k : JsString)
      → IsWellFormed s
      → dv ≤ s.delivery_version
      → let now = react_all (delivery_update next ∷ es) s in
        lookup (λ d. d.id) (react (loaded dv av delivery_rows alert_rows) now).items k
        ≡ or_else
            (lookup (λ d. d.id) now.items k)
            (lookup (λ d. d.id) (distinct (λ d. d.id) delivery_rows) k)
  unfolding react react_all on_loaded merged on_delivery
  load_keeps_updates dv av delivery_rows alert_rows next s es k v old =
      let now = react_all (delivery_update next ∷ es) s in
      let v1 = react_all-IsWellFormed (delivery_update next ∷ es) s v in
      let later : (now.delivery_version == dv) ≡ false =
        ground (arith, react_all-version es (on_delivery next s)) in
      rw later (
        lookup-distinct-append (λ d. d.id) (distinct (λ d. d.id) delivery_rows) now.items k
          (distinct-HasDistinctIds (λ d. d.id) delivery_rows) v1.items)

  acknowledge-stays :
      (a next : DeliveryAlert D)
      → truthy (text_of a.acknowledged_at) ≡ true
      → ((acknowledge (some a) next).acknowledged_at ≡ a.acknowledged_at)
        × ((acknowledge (some a) next).acknowledged_by ≡ a.acknowledged_by)
  unfolding acknowledge
  acknowledge-stays a next h = (rw h refl, rw h refl)

  -- An alert that the console knows to be acknowledged keeps the time and the operator of that
  -- acknowledgement when the answer to another one comes in.
  pub acknowledgement_stays :
      (next : DeliveryAlert D) (s : Live D) (k : JsString) (a : DeliveryAlert D)
      → lookup (λ b. b.id) s.alerts k ≡ some a
      → truthy (text_of a.acknowledged_at) ≡ true
      → (b : DeliveryAlert D) × (lookup (λ b. b.id) (on_acknowledged next s).alerts k ≡ some b)
        × (b.acknowledged_at ≡ a.acknowledged_at)
        × (b.acknowledged_by ≡ a.acknowledged_by)
  unfolding on_acknowledged
  acknowledgement_stays next s k a there given =
      let found = lookup (λ b. b.id) s.alerts next.id in
      let same_id : (acknowledge found next).id ≡ next.id =
        acknowledge-id found next (lookup-id s.alerts next.id) in
      let after = lookup-replace (λ b. b.id) (acknowledge found next) next.id s.alerts k same_id in
      elim (Bool-cases (next.id == k)) [
        | inr differs ↦ (a, after ∙ rw differs there, refl, refl)
        | inl same ↦
            let hit : found ≡ some a = rw ((eq_iff next.id k).0 same) there in
            let (at, by) = acknowledge-stays a next given in
            (acknowledge (some a) next, after ∙ rw (same, hit) refl, at, by)
      ]
