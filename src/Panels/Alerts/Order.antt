-- ===== src/Panels/Alerts/Order.antt =====
-- Which alerts the panel lists, and in which order.
use mathlib.Core.List.{Pairwise}
use mathlib.Core.Path.{ap₂}
use logi_track.Base.{
  ◌≡◌, refl, sym, ap, subst, ◌∙◌, ◌≢◌, ◌⊎◌, inl, inr, ◌↔◌, Bool, true, false, not, ◌||◌, Option,
  none, some, List, [], ◌∷◌, ◌==◌, eq_iff, arith, All, In, In-keep_if, keep_if,
}
use logi_track.Base.Int.{ℤ, ◌-ℤ◌}
use logi_track.Base.Sorting.{
  compare_ℤ, compare_keys, is_after, sort-agree, sort-Pairwise, by_keys-IsOrder, In-sort_iff,
}
use logi_track.Js.Text.{JsString}
use logi_track.Js.Search.{is_match_iff, IsFound}
use logi_track.Js.Dates.{or_zero}
use logi_track.Console.Types.{Delivery, DeliveryAlert, active}
use logi_track.Console.Statuses.{alert_status_eq, severity_eq, alert_type_eq}
use logi_track.Panels.Scopes.{in_scope_iff, InScope}
use logi_track.Panels.Alerts.{
  Numbers, AlertSort, priority, recent, longest, frequent, exceedance, AlertFilter, then_by,
  is_repeated, alert_exceedance_ratio, by_priority, duration, unless_same, alert_order, alert_texts,
  matches_acknowledgement, passes, scoped_alerts,
}
use logi_track.Panels.Alerts.Keys.{
  neg, compare_ℤ-neg, compare_keys-cons, compare_keys-one, compare_times_valid, HasDates,
  priority_key, by_priority-eq-compare_keys,
}

either : {P : Type 0} (b c : Bool) → (b || c) ≡ true → (c ≡ true → P) → (b ≡ true) ⊎ P
either true c h f = inl refl
either false c h f = inr (f h)

unless : (b c : Bool) → (not b || c) ≡ true → (b ≡ false) ⊎ (c ≡ true)
unless false c h = inl refl
unless true c h = inr h

module _ {D : Type 0} (numbers : Numbers D) (time : JsString → Option ℤ) (rank : D → ℤ)
    (ranks : (x y : D) → numbers.compare_numbers x y ≡ compare_ℤ (rank x) (rank y)) where
  -- What the chosen order looks at, the first first; greater ones count before smaller ones.
  pub order_key : AlertSort → DeliveryAlert D → List ℤ
  order_key priority a = priority_key time a
  order_key recent a = neg (or_zero (time a.last_observed_at)) ∷ []
  order_key frequent a = neg (rank a.occurrence_count) ∷ priority_key time a
  order_key exceedance a = neg (rank (alert_exceedance_ratio numbers a)) ∷ priority_key time a
  order_key longest a =
      neg (or_zero (time a.last_observed_at) -ℤ or_zero (time a.first_observed_at))
      ∷ priority_key time a

  then_priority :
      (x y : ℤ) (l r : DeliveryAlert D)
      → HasDates time l
      → HasDates time r
      → then_by (compare_ℤ y x) (by_priority time l r)
        ≡ compare_keys (neg x ∷ priority_key time l) (neg y ∷ priority_key time r)
  then_priority x y l r h g =
      ap (λ c. then_by c (by_priority time l r)) (sym (compare_ℤ-neg x y))
      ∙ ap (then_by (compare_ℤ (neg x) (neg y))) (by_priority-eq-compare_keys time l r h g)
      ∙ sym (compare_keys-cons (neg x) (neg y) (priority_key time l) (priority_key time r))

  valid : (t : Option ℤ) → t ≢ none → t ≡ some (or_zero t)
  valid none h = absurd (h refl)
  valid (some t) h = refl

  alert_order-eq-compare_keys :
      (order : AlertSort) (l r : DeliveryAlert D)
      → HasDates time l
      → HasDates time r
      → alert_order numbers time order l r ≡ compare_keys (order_key order l) (order_key order r)
  unfolding alert_order order_key
  alert_order-eq-compare_keys priority l r h g = by_priority-eq-compare_keys time l r h g
  alert_order-eq-compare_keys recent l r h g =
      compare_times_valid (time l.last_observed_at) (time r.last_observed_at) h.last g.last
      ∙ sym (compare_keys-one _ _)
  alert_order-eq-compare_keys frequent l r h g =
      ap (λ c. then_by c (by_priority time l r)) (ranks r.occurrence_count l.occurrence_count)
      ∙ then_priority (rank l.occurrence_count) (rank r.occurrence_count) l r h g
  alert_order-eq-compare_keys exceedance l r h g =
      ap (λ c. then_by c (by_priority time l r)) (ranks _ _)
      ∙ then_priority (rank (alert_exceedance_ratio numbers l))
          (rank (alert_exceedance_ratio numbers r)) l r h g
  alert_order-eq-compare_keys longest l r h g =
      ap₂ (λ a b. unless_same a b (by_priority time l r))
        (ap₂ duration (valid _ h.first) (valid _ h.last))
        (ap₂ duration (valid _ g.first) (valid _ g.last))
      ∙ then_priority (or_zero (time l.last_observed_at) -ℤ or_zero (time l.first_observed_at))
          (or_zero (time r.last_observed_at) -ℤ or_zero (time r.first_observed_at)) l r h g

  HasDates-of_All :
      (alerts : List (DeliveryAlert D)) (a : DeliveryAlert D)
      → All (HasDates time) alerts
      → In a alerts
      → HasDates time a
  HasDates-of_All (x ∷ alerts) a h (inl e) = subst (HasDates time) e h.0
  HasDates-of_All (x ∷ alerts) a h (inr m) = HasDates-of_All alerts a h.1 m
  HasDates-of_All [] a h m = elim m [ ]

  -- `x` may stand in front of `y` in the chosen order.
  abbrev pub IsNotBehind : AlertSort → DeliveryAlert D → DeliveryAlert D → Type 0
  IsNotBehind order x y = is_after (compare_keys (order_key order x) (order_key order y)) ≡ false

  scoped_alerts-Pairwise :
      (lower : JsString → JsString) (filter : AlertFilter) (order : AlertSort)
      (deliveries : List (Delivery D)) (alerts : List (DeliveryAlert D))
      → All (HasDates time) alerts
      → Pairwise
          (IsNotBehind order)
          (scoped_alerts numbers time lower filter order deliveries alerts)
  unfolding scoped_alerts
  scoped_alerts-Pairwise lower filter order deliveries alerts h =
      let like = λ (x y : DeliveryAlert D). compare_keys (order_key order x) (order_key order y) in
      let kept = keep_if (passes numbers lower filter deliveries) alerts in
      let dated : (x : DeliveryAlert D) → In x kept → HasDates time x =
        λ x m. HasDates-of_All alerts x h ((In-keep_if _ alerts x).0 m).0 in
      subst (Pairwise (IsNotBehind order))
        (sym (
          sort-agree (alert_order numbers time order) like kept
            λ x y m n. alert_order-eq-compare_keys order x y (dated x m) (dated y n)))
        (sort-Pairwise like (by_keys-IsOrder (order_key order) like (λ x y. refl)) kept)

  -- What the filters ask of an alert, the search included
  pub record Passes (lower : JsString → JsString) (filter : AlertFilter)
      (deliveries : List (Delivery D)) (a : DeliveryAlert D) : Type 0 where
    pub in_scope_of_status : (filter.all_alerts ≡ true) ⊎ (a.status ≡ active)
    pub in_scope_of_severity : InScope filter.severity_scope a.severity
    pub in_scope_of_type : InScope filter.type_scope a.alert_type
    pub acknowledgement_fits : matches_acknowledgement filter.acknowledgement a ≡ true
    pub repeated_enough : (filter.repeated_only ≡ false) ⊎ (is_repeated numbers a ≡ true)
    pub is_found : IsFound lower filter.query (alert_texts numbers deliveries a)

  passes_iff :
      (lower : JsString → JsString) (filter : AlertFilter) (deliveries : List (Delivery D))
      (a : DeliveryAlert D)
      → (passes numbers lower filter deliveries a ≡ true) ↔ Passes lower filter deliveries a
  unfolding passes
  passes_iff lower filter deliveries a = (
    λ h. record {
      in_scope_of_status =
          either filter.all_alerts (a.status == active) (ground arith)
            (λ t. (eq_iff a.status active).0 t);
      in_scope_of_severity = (in_scope_iff filter.severity_scope a.severity).0 (ground arith);
      in_scope_of_type = (in_scope_iff filter.type_scope a.alert_type).0 (ground arith);
      acknowledgement_fits = ground arith;
      repeated_enough = unless filter.repeated_only (is_repeated numbers a) (ground arith);
      is_found =
          (is_match_iff lower filter.query (alert_texts numbers deliveries a)).0 (ground arith);
    },
    λ p.
        let status_fits : (filter.all_alerts || a.status == active) ≡ true =
          elim p.in_scope_of_status [
            | inl e ↦ rw e refl
            | inr e ↦ let t = (eq_iff a.status active).1 e in ground arith
          ] in
        let repeated_fits : (not filter.repeated_only || is_repeated numbers a) ≡ true =
          elim p.repeated_enough [ inl e ↦ rw e refl | inr e ↦ ground arith ] in
        let severity_fits =
          (in_scope_iff filter.severity_scope a.severity).1 p.in_scope_of_severity in
        let type_fits = (in_scope_iff filter.type_scope a.alert_type).1 p.in_scope_of_type in
        let found =
          (is_match_iff lower filter.query (alert_texts numbers deliveries a)).1 p.is_found in
        rw (status_fits, severity_fits, type_fits, p.acknowledgement_fits, repeated_fits, found)
          refl,
  )

  -- Where the dates that count are valid, and numbers compare by their rank: the panel lists
  -- exactly the alerts that pass its scopes, its choices and its search, and no alert stands behind
  -- one that the chosen order puts after it. The order is by the list of integers `order_key`: the
  -- chosen measure, the greatest first, and then, but for the order by recency, the priority.
  pub scoped_alerts_lem :
      (lower : JsString → JsString) (filter : AlertFilter) (order : AlertSort)
      (deliveries : List (Delivery D)) (alerts : List (DeliveryAlert D)) (a : DeliveryAlert D)
      → All (HasDates time) alerts
      → (In a (scoped_alerts numbers time lower filter order deliveries alerts)
          ↔ (In a alerts × Passes lower filter deliveries a))
        × Pairwise
            (IsNotBehind order)
            (scoped_alerts numbers time lower filter order deliveries alerts)
  unfolding scoped_alerts
  scoped_alerts_lem lower filter order deliveries alerts a h =
      let sorted = In-sort_iff (alert_order numbers time order) _ a in
      let kept = In-keep_if (passes numbers lower filter deliveries) alerts a in
      let fits = passes_iff lower filter deliveries a in
      (
        (
          λ m. let (k, t) = kept.0 (sorted.0 m) in (k, fits.0 t),
          λ (k, t). sorted.1 (kept.1 (k, fits.1 t)),
        ),
        scoped_alerts-Pairwise lower filter order deliveries alerts h,
      )
