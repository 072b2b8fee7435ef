-- ===== src/Fleet/Freshness/Agree.antt =====
-- The map and the list tell the same age of a delivery's last position.
use logi_track.Base.{
  ◌≡◌, refl, sym, ap, ◌∙◌, subst, ◌≢◌, Bool, true, false, Option, none, some, List, [], ◌∷◌, map,
  keep_if, ◌==◌, nat_eq, list_eq, eq_iff, if◌then◌else◌, arith, Bool-cases, Option-cases, inl, inr,
  ◌⊎◌,
}
use logi_track.Base.Int.{ℤ, ltb_ℤ}
use logi_track.Js.Text.{JsString}
use logi_track.Js.Dates.{IsDated}
use logi_track.Js.Dict.{Dict, get, set, get-set}
use logi_track.Console.Types.{Delivery, TelemetryPoint}
use logi_track.Fleet.Lists.{time_of}
use logi_track.Fleet.Freshness.{
  later_of, latest_of, freshness_at, timestamps, selected_telemetry_freshness, keep_latest,
  latest_telemetry, telemetry_freshness,
}

later_of_assoc : (a b c : Option ℤ) → later_of (later_of a b) c ≡ later_of a (later_of b c)
later_of_assoc none b c = refl
later_of_assoc (some a) none c = refl
later_of_assoc (some a) (some b) none = ground arith
later_of_assoc (some a) (some b) (some c) = ground arith

later_of-none : (a : Option ℤ) → later_of a none ≡ a
later_of-none none = refl
later_of-none (some a) = refl

module _ (time : JsString → Option ℤ) (empty : time [] ≡ none) where
  time_of-some : (s : JsString) → time_of time (some s) ≡ time s
  unfolding time_of
  time_of-some [] = sym empty
  time_of-some (u ∷ s) = refl

  time_of-none : time_of time none ≡ none
  unfolding time_of
  time_of-none = refl

  latest-timestamps :
      (date : Option JsString) (dates : List (Option JsString))
      → latest_of (timestamps time (date ∷ dates))
        ≡ later_of (time_of time date) (latest_of (timestamps time dates))
  unfolding timestamps latest_of
  latest-timestamps date dates = elim (Option-cases (time_of time date)) [
    | inl none' ↦ rw (timestamps, none') refl
    | inr (t, e) ↦ rw (timestamps, e) refl
  ]

  module _ {D : Type 0} where
    -- The time of the point that is held for a delivery
    abbrev held : Option (TelemetryPoint D) → Option ℤ
    held none = none
    held (some p) = time p.occurred_at

    newest : List (TelemetryPoint D) → JsString → Option ℤ
    newest points id = latest_of (
        timestamps time (map (λ p. some p.occurred_at) (keep_if (λ p. p.delivery_id == id) points)))

    AreDated : Dict JsString (TelemetryPoint D) → Type 0
    AreDated latest =
        (k : JsString) (p : TelemetryPoint D) → get latest k ≡ some p → time p.occurred_at ≢ none

    set-AreDated :
        (latest : Dict JsString (TelemetryPoint D)) (p : TelemetryPoint D)
        → AreDated latest
        → time p.occurred_at ≢ none
        → AreDated (set latest p.delivery_id p)
    unfolding AreDated
    set-AreDated latest p h d k q e = elim (Bool-cases (p.delivery_id == k)) [
      | inl same ↦
          let e' : p ≡ q = cc (rw (get-set latest p.delivery_id k p, same) at e) in
          subst (λ x. time x.occurred_at ≢ none) e' d
      | inr differs ↦ h k q (rw (get-set latest p.delivery_id k p, differs) at e)
    ]

    -- A point takes the place of the one that is held, or leaves it.
    taken :
        (latest : Dict JsString (TelemetryPoint D)) (p : TelemetryPoint D)
        → AreDated latest
        → time p.occurred_at ≢ none
        → ((keep_latest time latest p ≡ set latest p.delivery_id p)
            × (later_of (held (get latest p.delivery_id)) (time p.occurred_at)
                ≡ time p.occurred_at))
          ⊎ ((keep_latest time latest p ≡ latest)
              × (later_of (held (get latest p.delivery_id)) (time p.occurred_at)
                  ≡ held (get latest p.delivery_id)))
    unfolding keep_latest AreDated
    taken latest p h d = elim (Option-cases (get latest p.delivery_id)) [
      | inl none' ↦ inl (rw (keep_latest, none') refl, rw none' refl)
      | inr (c, e) ↦ (elim (Option-cases (time c.occurred_at)) [
        | inl undated ↦ absurd (h p.delivery_id c e undated)
        | inr (tc, ec) ↦ (elim (Option-cases (time p.occurred_at)) [
          | inl undated ↦ absurd (d undated)
          | inr (tp, ep) ↦ (elim (Bool-cases (ltb_ℤ tc tp)) [
            | inl later ↦ inl (rw (keep_latest, e, ep, ec, later) refl, rw (e, ep, ec, later) refl)
            | inr earlier ↦
                inr (rw (keep_latest, e, ep, ec, earlier) refl, rw (e, ep, ec, earlier) refl)
          ])
        ])
      ])
    ]

    keep_latest-AreDated :
        (latest : Dict JsString (TelemetryPoint D)) (p : TelemetryPoint D)
        → AreDated latest
        → time p.occurred_at ≢ none
        → AreDated (keep_latest time latest p)
    keep_latest-AreDated latest p h d = elim (taken latest p h d) [
      | inl (e, _) ↦ subst AreDated (sym e) (set-AreDated latest p h d)
      | inr (e, _) ↦ subst AreDated (sym e) h
    ]

    held-set :
        (latest : Dict JsString (TelemetryPoint D)) (p : TelemetryPoint D) (id : JsString)
        → held (get (set latest p.delivery_id p) id)
          ≡ (if p.delivery_id == id then time p.occurred_at else held (get latest id))
    held-set latest p id = elim (Bool-cases (p.delivery_id == id)) [
      | inl same ↦ rw (get-set latest p.delivery_id id p, same) refl
      | inr differs ↦ rw (get-set latest p.delivery_id id p, differs) refl
    ]

    at_same :
        (p : TelemetryPoint D) (id : JsString) (before after : JsString → Option ℤ)
        (other : Option ℤ)
        → before p.delivery_id ≡ after p.delivery_id
        → (if p.delivery_id == id then before id else other)
          ≡ (if p.delivery_id == id then after id else other)
    at_same p id before after other e = elim (Bool-cases (p.delivery_id == id)) [
      | inl same ↦ rw same (subst (λ k. before k ≡ after k) ((eq_iff p.delivery_id id).0 same) e)
      | inr differs ↦ rw differs refl
    ]

    at_own :
        (p : TelemetryPoint D) (id : JsString) (before after : JsString → Option ℤ)
        → before p.delivery_id ≡ after p.delivery_id
        → (if p.delivery_id == id then before id else after id) ≡ after id
    at_own p id before after e =
        at_same p id before after (after id) e ∙ if_both (p.delivery_id == id) (after id)
      where
        if_both : (test : Bool) (o : Option ℤ) → (if test then o else o) ≡ o
        if_both true o = refl
        if_both false o = refl

    held-keep_latest :
        (latest : Dict JsString (TelemetryPoint D)) (p : TelemetryPoint D) (id : JsString)
        → AreDated latest
        → time p.occurred_at ≢ none
        → held (get (keep_latest time latest p) id) ≡ (
            if p.delivery_id == id
            then later_of (held (get latest id)) (time p.occurred_at)
            else held (get latest id))
    held-keep_latest latest p id h d = elim (taken latest p h d) [
      | inl (e, l) ↦
          ap (λ m. held (get m id)) e
          ∙ held-set latest p id
          ∙ sym (
              at_same p id (λ k. later_of (held (get latest k)) (time p.occurred_at))
                (λ _. time p.occurred_at) (held (get latest id)) l)
      | inr (e, l) ↦
          ap (λ m. held (get m id)) e
          ∙ sym (
              at_own p id (λ k. later_of (held (get latest k)) (time p.occurred_at))
                (λ k. held (get latest k)) l)
    ]

    newest-cons :
        (p : TelemetryPoint D) (points : List (TelemetryPoint D)) (id : JsString)
        → newest (p ∷ points) id ≡ (
            if p.delivery_id == id
            then later_of (time p.occurred_at) (newest points id)
            else newest points id)
    unfolding newest
    newest-cons p points id = elim (Bool-cases (p.delivery_id == id)) [
      | inl same ↦ rw same (
          latest-timestamps (some p.occurred_at) _
          ∙ ap (λ t. later_of t (newest points id)) (time_of-some p.occurred_at))
      | inr differs ↦ rw differs refl
    ]

    -- A map of dated points, and the points that are still to come
    held-latest_telemetry :
        (latest : Dict JsString (TelemetryPoint D)) (points : List (TelemetryPoint D))
        (id : JsString)
        → AreDated latest
        → IsDated (λ p. time p.occurred_at) points
        → held (get (latest_telemetry time latest points) id)
          ≡ later_of (held (get latest id)) (newest points id)
    unfolding latest_telemetry newest timestamps latest_of
    held-latest_telemetry latest [] id h d = sym (later_of-none (held (get latest id)))
    held-latest_telemetry latest (p ∷ points) id h d =
        held-latest_telemetry (keep_latest time latest p) points id
          (keep_latest-AreDated latest p h d.0) d.1
        ∙ ap (λ t. later_of t (newest points id)) (held-keep_latest latest p id h d.0)
        ∙ joined (p.delivery_id == id)
        ∙ ap (later_of (held (get latest id))) (sym (newest-cons p points id))
      where
        joined :
            (test : Bool)
            → later_of
                (if test
                  then later_of (held (get latest id)) (time p.occurred_at)
                  else held (get latest id))
                (newest points id)
              ≡ later_of (held (get latest id)) (
                  if test
                  then later_of (time p.occurred_at) (newest points id)
                  else newest points id)
        joined true = later_of_assoc (held (get latest id)) (time p.occurred_at) (newest points id)
        joined false = refl

    latest-one :
        (point : Option (TelemetryPoint D))
        → latest_of
            (timestamps time (elim point [ none ↦ none | some p ↦ some p.occurred_at ] ∷ []))
          ≡ held point
    unfolding latest_of timestamps
    latest-one none = latest-timestamps none [] ∙ later_of-none (time_of time none) ∙ time_of-none
    latest-one (some p) =
        latest-timestamps (some p.occurred_at) []
        ∙ later_of-none (time_of time (some p.occurred_at))
        ∙ time_of-some p.occurred_at

    -- Where every point's date is valid, and the empty text is no date, the age that the map tells for
    -- the selected delivery, from all its points, and the age that the list tells, from the latest
    -- point that it has kept for the delivery, have one label and one staleness at every time.
    pub freshness_agrees :
        (now : ℤ) (delivery : Delivery D) (telemetry : List (TelemetryPoint D))
        → IsDated (λ p. time p.occurred_at) telemetry
        → selected_telemetry_freshness time now delivery telemetry
          ≡ telemetry_freshness time now delivery
              (get (latest_telemetry time [] telemetry) delivery.id)
    unfolding selected_telemetry_freshness telemetry_freshness newest get AreDated
    freshness_agrees now delivery telemetry d = ap (freshness_at now) (
        latest-timestamps delivery.last_telemetry_at _
        ∙ ap (later_of (time_of time delivery.last_telemetry_at)) (
            sym (held-latest_telemetry [] telemetry delivery.id (λ k p e. absurd (cc)) d)
            ∙ sym (latest-one (get (latest_telemetry time [] telemetry) delivery.id)))
        ∙ sym (latest-timestamps delivery.last_telemetry_at _))
