-- ===== src/Fleet/Freshness.antt =====
-- How old the last position of a delivery is: `selectedTelemetryFreshness` of FleetMap, over all points,
-- and `latestTelemetry` with `telemetryFreshness` of FleetTelemetryPanel. `new Date(text).getTime()` is
-- the parameter `time`; a date that is made of a valid time is valid.
pub mod Agree
use logi_track.Base.{
  ℕ, zero, suc, ◌+◌, ◌-◌, ◌/◌, ◌%◌, Bool, true, false, Option, none, some, List, [], ◌∷◌, ◌++◌, map,
  keep_if, ltb, leb, ◌==◌, nat_eq, list_eq, if◌then◌else◌,
}
use logi_track.Base.Int.{ℤ, pos_part, ◌-ℤ◌, ltb_ℤ}
use logi_track.Js.Text.{JsString, js}
use logi_track.Js.Dict.{Dict, get, set}
use logi_track.Console.Types.{Delivery, TelemetryPoint}
use logi_track.Fleet.Lists.{time_of}

-- The decimal digits of a number, on fuel: a number has at most as many digits as itself and one.
unfoldable pub digits : (fuel n : ℕ) → JsString
digits zero n = []
digits (suc fuel) n =
    let front = digits fuel (n / 10) in (if ltb n 10 then [] else front) ++ ((b'0' + n % 10) ∷ [])

-- `${n}`
unfoldable pub print : ℕ → JsString
print n = digits (suc n) n

pub record Freshness : Type 0 where
  pub label : JsString
  pub stale : Bool

-- `Math.max` of two times, the first of equal ones
abbrev pub later_of : Option ℤ → Option ℤ → Option ℤ
later_of none b = b
later_of (some a) none = some a
later_of (some a) (some b) = if ltb_ℤ a b then some b else some a

-- `Math.max(...timestamps)`, `none` where there are none
unfoldable pub latest_of : List ℤ → Option ℤ
latest_of [] = none
latest_of (t ∷ ts) = later_of (some t) (latest_of ts)

-- `Math.max(0, Math.floor((Date.now() - occurredAt) / 60000))`
unfoldable pub age_minutes : (now occurred_at : ℤ) → ℕ
age_minutes now occurred_at = pos_part (now -ℤ occurred_at) / 60000

unfoldable pub freshness_at : (now : ℤ) → Option ℤ → Freshness
freshness_at now none = record { label = js "위치 이벤트 없음"; stale = true }
freshness_at now (some occurred_at) =
    let minutes = age_minutes now occurred_at in
    if ltb minutes 1 then record { label = js "위치 방금 수신"; stale = false } else record {
      label =
          js "위치 "
          ++ (if ltb minutes 60 then print minutes ++ js "분" else print (minutes / 60) ++ js "시간")
          ++ js " 전 수신";
      stale = leb 5 minutes;
    }

-- `new Date(a).getTime() > new Date(b).getTime()`
abbrev pub is_later : Option ℤ → Option ℤ → Bool
is_later (some a) (some b) = ltb_ℤ b a
is_later _ _ = false

module _ (time : JsString → Option ℤ) where
  -- The dates that are given, as times, without those that are NaN
  unfoldable pub timestamps : List (Option JsString) → List ℤ
  timestamps [] = []
  timestamps (date ∷ dates) =
      let rest = timestamps dates in elim (time_of time date) [ none ↦ rest | some t ↦ t ∷ rest ]

  module _ {D : Type 0} where
    unfoldable pub selected_telemetry_freshness :
        (now : ℤ) → Delivery D → List (TelemetryPoint D) → Freshness
    selected_telemetry_freshness now delivery telemetry = freshness_at now (
        latest_of (
          timestamps (
            delivery.last_telemetry_at
            ∷ map (λ p. some p.occurred_at)
                (keep_if (λ p. p.delivery_id == delivery.id) telemetry))))

    unfoldable pub keep_latest :
        Dict JsString (TelemetryPoint D) → TelemetryPoint D → Dict JsString (TelemetryPoint D)
    keep_latest latest point = elim (get latest point.delivery_id) [
      | none ↦ set latest point.delivery_id point
      | some current ↦
          if is_later (time point.occurred_at) (time current.occurred_at)
          then set latest point.delivery_id point
          else latest
    ]

    unfoldable pub latest_telemetry :
        Dict JsString (TelemetryPoint D)
        → List (TelemetryPoint D)
        → Dict JsString (TelemetryPoint D)
    latest_telemetry latest [] = latest
    latest_telemetry latest (point ∷ points) = latest_telemetry (keep_latest latest point) points

    unfoldable pub telemetry_freshness :
        (now : ℤ) → Delivery D → Option (TelemetryPoint D) → Freshness
    telemetry_freshness now delivery point = freshness_at now (
        latest_of (
          timestamps (
            delivery.last_telemetry_at
            ∷ elim point [ none ↦ none | some p ↦ some p.occurred_at ]
            ∷ [])))
