-- ===== src/Panels/Alerts.antt =====
-- AlertOperationsPanel: the alerts that its filters and its search leave, and their order. Numbers are
-- the parameter `D` with the operations that the code uses; `time` is `new Date(text).getTime()` and
-- `lower` is `toLowerCase`. The Korean labels are the source's.
pub mod Keys
pub mod Order
use Prim.Native.Nat.{Ordering}
use logi_track.Base.{
  ℕ, Bool, true, false, not, ◌&&◌, ◌||◌, Option, none, some, List, [], ◌∷◌, ◌==◌, nat_eq, list_eq,
  keep_if, if◌then◌else◌,
}
use logi_track.Base.Int.{ℤ, pos, ◌-ℤ◌}
use logi_track.Base.Sorting.{compare_ℤ, sort}
use logi_track.Js.Text.{JsString, js, truthy}
use logi_track.Js.Search.{is_match}
use logi_track.Js.Dates.{compare_times}
use logi_track.Auth.Cookies.{text_of}
use logi_track.Console.Types.{
  Delivery, DeliveryAlert, AlertType, delay, route_deviation, Severity, warning, critical,
  AlertStatus, active, resolved,
}
use logi_track.Console.Statuses.{alert_status_eq, severity_eq, alert_type_eq}
use logi_track.Panels.Scopes.{Scope, in_scope}
use logi_track.Fleet.Chosen.{find}

unfoldable pub alert_status_label : AlertStatus → JsString
alert_status_label active = js "대응 필요"
alert_status_label resolved = js "해결됨"

unfoldable pub alert_type_label : AlertType → JsString
alert_type_label delay = js "도착 지연"
alert_type_label route_deviation = js "경로 이탈"

unfoldable pub alert_severity_label : Severity → JsString
alert_severity_label warning = js "주의"
alert_severity_label critical = js "긴급"

-- What the panel does with numbers; `compare_numbers a b` is the sign of `a - b`.
pub record Numbers (D : Type 0) : Type 0 where
  pub nought : D
  pub one : D
  pub is_greater : D → D → Bool
  pub minus : D → D → D
  pub over : D → D → D
  pub larger : D → D → D
  pub compare_numbers : D → D → Ordering

pub data AlertSort : Type 0 where
  priority recent longest frequent exceedance : AlertSort

pub data Acknowledgement : Type 0 where
  any_alert unacknowledged acknowledged : Acknowledgement

-- What the reader has chosen
pub record AlertFilter : Type 0 where
  pub all_alerts : Bool
  pub severity_scope : Scope Severity
  pub type_scope : Scope AlertType
  pub acknowledgement : Acknowledgement
  pub repeated_only : Bool
  pub query : JsString

-- `if (order) return order; …`
abbrev pub then_by : Ordering → Ordering → Ordering
then_by Ordering.lt next = Ordering.lt
then_by Ordering.eq next = next
then_by Ordering.gt next = Ordering.gt

-- `last - first`
abbrev pub duration : Option ℤ → Option ℤ → Option ℤ
duration (some first) (some last) = some (last -ℤ first)
duration _ _ = none

-- `if (right !== left) return right - left; …`: NaN differs from all, and is returned.
abbrev pub unless_same : (left right : Option ℤ) → Ordering → Ordering
unless_same (some a) (some b) next = then_by (compare_ℤ b a) next
unless_same _ _ next = Ordering.eq

-- `Number(b)`
abbrev pub number_of : Bool → ℤ
number_of true = pos 1
number_of false = pos 0

module _ {D : Type 0} where
  -- `Boolean(alert.acknowledgedAt)`
  abbrev pub is_acknowledged : DeliveryAlert D → Bool
  is_acknowledged alert = truthy (text_of alert.acknowledged_at)

  -- `alert.resolvedAt || alert.lastObservedAt`
  abbrev pub resolved_or_last : DeliveryAlert D → JsString
  resolved_or_last alert =
      if truthy (text_of alert.resolved_at)
      then text_of alert.resolved_at
      else alert.last_observed_at

  -- A field of the delivery, or no text without one
  abbrev pub delivery_text : (Delivery D → JsString) → Option (Delivery D) → JsString
  delivery_text field none = []
  delivery_text field (some d) = field d

  unfoldable pub matches_acknowledgement : Acknowledgement → DeliveryAlert D → Bool
  matches_acknowledgement any_alert alert = true
  matches_acknowledgement acknowledged alert = is_acknowledged alert
  matches_acknowledgement unacknowledged alert = not (is_acknowledged alert)

  module _ (time : JsString → Option ℤ) where
    -- The comparison from the acknowledgement on
    unfoldable pub by_acknowledgement : DeliveryAlert D → DeliveryAlert D → Ordering
    by_acknowledgement left right =
        then_by (compare_ℤ (number_of (is_acknowledged left)) (number_of (is_acknowledged right))) (
          then_by
            (if is_acknowledged left && is_acknowledged right
              then compare_times (time (text_of right.acknowledged_at))
                  (time (text_of left.acknowledged_at))
              else Ordering.eq)
            (then_by
              (compare_ℤ (number_of (not (left.severity == critical)))
                (number_of (not (right.severity == critical))))
              (compare_times (time right.last_observed_at) (time left.last_observed_at))))

    -- The comparison from the status on
    unfoldable pub by_priority : DeliveryAlert D → DeliveryAlert D → Ordering
    by_priority left right =
        then_by
          (compare_ℤ (number_of (not (left.status == active)))
            (number_of (not (right.status == active))))
          (then_by
            (if left.status == resolved && right.status == resolved
              then compare_times (time (resolved_or_last right)) (time (resolved_or_last left))
              else Ordering.eq)
            (by_acknowledgement left right))

  module _ (numbers : Numbers D) where
    unfoldable pub alert_exceedance_ratio : DeliveryAlert D → D
    alert_exceedance_ratio alert =
        if numbers.is_greater alert.threshold_value numbers.nought
        then numbers.larger numbers.nought (
            numbers.over (numbers.minus alert.observed_value alert.threshold_value)
              alert.threshold_value)
        else numbers.nought

    -- `alert.occurrenceCount > 1`
    abbrev pub is_repeated : DeliveryAlert D → Bool
    is_repeated alert = numbers.is_greater alert.occurrence_count numbers.one

    -- `searchableValues`
    unfoldable pub alert_texts : List (Delivery D) → DeliveryAlert D → List JsString
    alert_texts deliveries alert =
        let delivery = find (λ item. item.id == alert.delivery_id) deliveries in
        delivery_text (λ d. d.vehicle_id) delivery
        ∷ delivery_text (λ d. d.order_number) delivery
        ∷ delivery_text (λ d. d.origin_name) delivery
        ∷ delivery_text (λ d. d.destination_name) delivery
        ∷ alert.message
        ∷ alert_type_label alert.alert_type
        ∷ alert_severity_label alert.severity
        ∷ alert_status_label alert.status
        ∷ (if is_acknowledged alert then js "확인 완료" else js "미확인")
        ∷ (if is_repeated alert then js "반복 감지" else js "단일 감지")
        ∷ text_of alert.acknowledged_by
        ∷ []

    unfoldable pub passes :
        (lower : JsString → JsString) → AlertFilter → List (Delivery D) → DeliveryAlert D → Bool
    passes lower filter deliveries alert =
        (filter.all_alerts || alert.status == active)
        && in_scope filter.severity_scope alert.severity
        && in_scope filter.type_scope alert.alert_type
        && matches_acknowledgement filter.acknowledgement alert
        && (not filter.repeated_only || is_repeated alert)
        && is_match lower filter.query (alert_texts deliveries alert)

    module _ (time : JsString → Option ℤ) where
      unfoldable pub alert_order : AlertSort → DeliveryAlert D → DeliveryAlert D → Ordering
      alert_order priority left right = by_priority time left right
      alert_order recent left right =
          compare_times (time right.last_observed_at) (time left.last_observed_at)
      alert_order frequent left right =
          then_by (numbers.compare_numbers right.occurrence_count left.occurrence_count)
            (by_priority time left right)
      alert_order exceedance left right =
          then_by
            (numbers.compare_numbers (alert_exceedance_ratio right) (alert_exceedance_ratio left))
            (by_priority time left right)
      alert_order longest left right =
          unless_same (duration (time left.first_observed_at) (time left.last_observed_at))
            (duration (time right.first_observed_at) (time right.last_observed_at))
            (by_priority time left right)

      -- `scopedAlerts`
      unfoldable pub scoped_alerts :
          (lower : JsString → JsString)
          → AlertFilter
          → AlertSort
          → List (Delivery D)
          → List (DeliveryAlert D)
          → List (DeliveryAlert D)
      scoped_alerts lower filter order deliveries alerts =
          sort (alert_order order) (keep_if (passes lower filter deliveries) alerts)
