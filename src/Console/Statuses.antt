-- ===== src/Console/Statuses.antt =====
-- `===` on the statuses and kinds of web/app/types.ts, which are unions of texts.
use logi_track.Base.{ℕ, zero, suc, ◌≡◌, refl, Eq, enum_eq}
use logi_track.Console.Types.{
  DeliveryStatus, created, in_transit, delayed, delivered, OrderStatus, ready, dispatched,
  fulfilled, DeadLetterStatus, pending, replayed, discarded, AlertStatus, active, resolved,
  Severity, warning, critical, AlertType, delay, route_deviation,
}

abbrev pub delivery_status_place : DeliveryStatus → ℕ
delivery_status_place created = 0
delivery_status_place in_transit = 1
delivery_status_place delayed = 2
delivery_status_place delivered = 3

abbrev pub delivery_status_at : ℕ → DeliveryStatus
delivery_status_at zero = created
delivery_status_at (suc zero) = in_transit
delivery_status_at (suc (suc zero)) = delayed
delivery_status_at _ = delivered

pub delivery_status_back : (s : DeliveryStatus) → delivery_status_at (delivery_status_place s) ≡ s
delivery_status_back created = refl
delivery_status_back in_transit = refl
delivery_status_back delayed = refl
delivery_status_back delivered = refl

instance abbrev pub delivery_status_eq : Eq DeliveryStatus
delivery_status_eq = enum_eq delivery_status_place delivery_status_at delivery_status_back

abbrev pub order_status_place : OrderStatus → ℕ
order_status_place ready = 0
order_status_place dispatched = 1
order_status_place fulfilled = 2

abbrev pub order_status_at : ℕ → OrderStatus
order_status_at zero = ready
order_status_at (suc zero) = dispatched
order_status_at _ = fulfilled

pub order_status_back : (s : OrderStatus) → order_status_at (order_status_place s) ≡ s
order_status_back ready = refl
order_status_back dispatched = refl
order_status_back fulfilled = refl

instance abbrev pub order_status_eq : Eq OrderStatus
order_status_eq = enum_eq order_status_place order_status_at order_status_back

abbrev pub dead_letter_status_place : DeadLetterStatus → ℕ
dead_letter_status_place pending = 0
dead_letter_status_place replayed = 1
dead_letter_status_place discarded = 2

abbrev pub dead_letter_status_at : ℕ → DeadLetterStatus
dead_letter_status_at zero = pending
dead_letter_status_at (suc zero) = replayed
dead_letter_status_at _ = discarded

pub dead_letter_status_back :
    (s : DeadLetterStatus) → dead_letter_status_at (dead_letter_status_place s) ≡ s
dead_letter_status_back pending = refl
dead_letter_status_back replayed = refl
dead_letter_status_back discarded = refl

instance abbrev pub dead_letter_status_eq : Eq DeadLetterStatus
dead_letter_status_eq =
    enum_eq dead_letter_status_place dead_letter_status_at dead_letter_status_back

abbrev pub alert_status_place : AlertStatus → ℕ
alert_status_place active = 0
alert_status_place resolved = 1

abbrev pub alert_status_at : ℕ → AlertStatus
alert_status_at zero = active
alert_status_at _ = resolved

pub alert_status_back : (s : AlertStatus) → alert_status_at (alert_status_place s) ≡ s
alert_status_back active = refl
alert_status_back resolved = refl

instance abbrev pub alert_status_eq : Eq AlertStatus
alert_status_eq = enum_eq alert_status_place alert_status_at alert_status_back

abbrev pub severity_place : Severity → ℕ
severity_place warning = 0
severity_place critical = 1

abbrev pub severity_at : ℕ → Severity
severity_at zero = warning
severity_at _ = critical

pub severity_back : (s : Severity) → severity_at (severity_place s) ≡ s
severity_back warning = refl
severity_back critical = refl

instance abbrev pub severity_eq : Eq Severity
severity_eq = enum_eq severity_place severity_at severity_back

abbrev pub alert_type_place : AlertType → ℕ
alert_type_place delay = 0
alert_type_place route_deviation = 1

abbrev pub alert_type_at : ℕ → AlertType
alert_type_at zero = delay
alert_type_at _ = route_deviation

pub alert_type_back : (s : AlertType) → alert_type_at (alert_type_place s) ≡ s
alert_type_back delay = refl
alert_type_back route_deviation = refl

instance abbrev pub alert_type_eq : Eq AlertType
alert_type_eq = enum_eq alert_type_place alert_type_at alert_type_back
