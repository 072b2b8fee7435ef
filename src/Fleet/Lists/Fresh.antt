-- ===== src/Fleet/Lists/Fresh.antt =====
-- Which live deliveries are moving and which are stale.
use mathlib.Core.List.{Perm}
use mathlib.Core.List.Perm
use logi_track.Base.{
  ◌≡◌, refl, sym, ap, ◌∙◌, ◌↔◌, inl, inr, Bool, true, false, not, Option, List, [], ◌∷◌, map, ◌==◌,
  nat_eq, list_eq, eq_iff, any, arith, In, In-keep_if, keep_if, any_iff, Option-cases,
}
use logi_track.Base.Int.{ℤ, pos, ◌≤ℤ◌, ◌<ℤ◌, ◌-ℤ◌, -ℤ_parts, leb_ℤ}
use logi_track.Js.Text.{JsString}
use logi_track.Js.Dates.{or_zero}
use logi_track.Js.Dict.{Dict, get}
use logi_track.Console.Types.{Delivery, TelemetryPoint}
use logi_track.Console.Statuses.{delivery_status_eq}
use logi_track.Console.Rows.{HasDistinctIds}
use logi_track.Fleet.Lists.{
  has_id, live_items, is_stale, stale_ids, moving_items, latest_telemetry_at,
}
use logi_track.Fleet.Lists.Latest.{IsDateOf, latest-IsDateOf, latest-Reaches}

module _ {A : Type 0} where
  keep_if-agree :
      (p q : A → Bool) (xs : List A) → ((x : A) → In x xs → p x ≡ q x) → keep_if p xs ≡ keep_if q xs
  keep_if-agree p q [] h = refl
  keep_if-agree p q (x ∷ xs) h = rw (h x (inl refl), keep_if-agree p q xs (λ y m. h y (inr m))) refl

  any-map :
      {B : Type 0} (p : B → Bool) (f : A → B) (xs : List A)
      → any p (map f xs) ≡ any (λ x. p (f x)) xs
  any-map p f [] = refl
  any-map p f (x ∷ xs) = rw (any-map p f xs) refl

  has_id_iff :
      (id : A → JsString) (rows : List A) (k : JsString)
      → (has_id (map id rows) k ≡ true) ↔ ((x : A) × In x rows × (id x ≡ k))
  has_id_iff id rows k = rw (any-map (λ j. j == k) id rows) (
    λ h. let (x, m, t) = (any_iff (λ x. id x == k) rows).0 h in (x, m, (eq_iff (id x) k).0 t),
    λ (x, m, e). (any_iff (λ x. id x == k) rows).1 (x, m, (eq_iff (id x) k).1 e),
  )

bool_ext : (a b : Bool) → (a ≡ true → b ≡ true) → (b ≡ true → a ≡ true) → a ≡ b
bool_ext true b h g = sym (h refl)
bool_ext false true h g = g refl
bool_ext false false h g = refl

module _ {D : Type 0} (freshness_now : ℤ) (latest : Dict JsString ℤ) where
  same_id :
      (x d : Delivery D)
      → x.id ≡ d.id
      → is_stale freshness_now latest x ≡ is_stale freshness_now latest d
  unfolding is_stale
  same_id x d e = ap (λ k. leb_ℤ (pos 300000) (freshness_now -ℤ or_zero (get latest k))) e

  -- Staleness goes by the id.
  has-stale_ids :
      (items : List (Delivery D)) (d : Delivery D)
      → In d (live_items items)
      → has_id (stale_ids freshness_now latest items) d.id ≡ is_stale freshness_now latest d
  unfolding stale_ids
  has-stale_ids items d m =
      let found =
        has_id_iff (λ x. x.id) (keep_if (is_stale freshness_now latest) (live_items items)) d.id in
      let kept = In-keep_if (is_stale freshness_now latest) (live_items items) in
      bool_ext _ _ (λ h. let (x, n, e) = found.0 h in sym (same_id x d e) ∙ ((kept x).0 n).1)
        (λ h. found.1 (d, (kept d).1 (m, h), refl))

  moving-eq :
      (items : List (Delivery D))
      → moving_items freshness_now latest items
        ≡ keep_if (λ d. not (is_stale freshness_now latest d)) (live_items items)
  unfolding moving_items
  moving-eq items = keep_if-agree _ _ (live_items items) (λ d m. ap not (has-stale_ids items d m))

module _ (freshness_now : ℤ) where
  -- Less than five minutes before the clock, or after it
  abbrev pub IsRecent : ℤ → Type 0
  IsRecent t = (freshness_now -ℤ t) <ℤ pos 300000

  IsRecent-mono : (t b : ℤ) → t ≤ℤ b → IsRecent t → IsRecent b
  IsRecent-mono t b h r = omega (arith, -ℤ_parts freshness_now t, -ℤ_parts freshness_now b)

  recent_positive : (t : ℤ) → pos 300000 ≤ℤ freshness_now → IsRecent t → pos 0 <ℤ t
  recent_positive t c r = omega (arith, -ℤ_parts freshness_now t)

  zero-not-IsRecent : pos 300000 ≤ℤ freshness_now → ¬ IsRecent (pos 0)
  zero-not-IsRecent c r = omega (arith, -ℤ_parts freshness_now (pos 0))

  module _ {D : Type 0} (time : JsString → Option ℤ) where
    not-stale_iff :
        (latest : Dict JsString ℤ) (d : Delivery D)
        → (not (is_stale freshness_now latest d) ≡ true) ↔ IsRecent (or_zero (get latest d.id))
    unfolding is_stale
    not-stale_iff latest d = (λ h. ground arith, λ h. ground arith)

    module _ (items : List (Delivery D)) (telemetry : List (TelemetryPoint D)) (k : JsString)
        (c : pos 300000 ≤ℤ freshness_now) where
      held_date :
          IsRecent (or_zero (get (latest_telemetry_at time items telemetry) k))
          → (t : ℤ) × IsDateOf time items telemetry k t × IsRecent t
      held_date r = elim (Option-cases (get (latest_telemetry_at time items telemetry) k)) [
        | inl none' ↦ absurd (zero-not-IsRecent c (rw none' at r))
        | inr (b, e) ↦ (b, latest-IsDateOf time items telemetry k b e, rw e at r)
      ]

      date_held :
          HasDistinctIds (λ x. x.id) items
          → (t : ℤ) → IsDateOf time items telemetry k t
          → IsRecent t
          → IsRecent (or_zero (get (latest_telemetry_at time items telemetry) k))
      date_held h t date r =
          let (b, e, l) = latest-Reaches time items telemetry k t h (recent_positive t c r) date in
          rw e (IsRecent-mono t b l r)

    -- Where no two deliveries have one id and the clock stands five minutes or more after 1970: a
    -- delivery is moving exactly if it is live and one of its dates, that of its row or of one of
    -- the telemetry points, is less than five minutes old.
    pub moving_items_iff :
        (items : List (Delivery D)) (telemetry : List (TelemetryPoint D)) (d : Delivery D)
        → pos 300000 ≤ℤ freshness_now
        → HasDistinctIds (λ x. x.id) items
        → In d (moving_items freshness_now (latest_telemetry_at time items telemetry) items) ↔ (
            In d (live_items items) × ((t : ℤ) × IsDateOf time items telemetry d.id t × IsRecent t))
    moving_items_iff items telemetry d c h =
        let latest = latest_telemetry_at time items telemetry in
        let kept = In-keep_if (λ x. not (is_stale freshness_now latest x)) (live_items items) d in
        rw (moving-eq freshness_now latest items) (
          λ m.
              let (l, s) = kept.0 m in
              (l, held_date items telemetry d.id c ((not-stale_iff latest d).0 s)),
          λ (l, (t, date, r)).
              kept.1 (l, (not-stale_iff latest d).1 (date_held items telemetry d.id c h t date r)),
        )
