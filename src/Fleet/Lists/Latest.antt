-- ===== src/Fleet/Lists/Latest.antt =====
-- The times that `latestTelemetryAt` holds.
use logi_track.Base.{
  ◌≡◌, refl, ap, ◌∙◌, subst, inl, inr, false, Option, some, List, [], ◌∷◌, ◌==◌, nat_eq, list_eq,
  eq_iff, eq_refl, arith, In, Bool-cases, Option-cases,
}
use logi_track.Base.Int.{ℤ, pos, ◌≤ℤ◌, ◌<ℤ◌, ltb_ℤ}
use logi_track.Js.Text.{JsString}
use logi_track.Js.Dates.{or_zero}
use logi_track.Js.Dict.{Dict, get, set, has, get-set}
use logi_track.Console.Types.{Delivery, TelemetryPoint}
use logi_track.Console.Rows.{entries, HasDistinctIds}
use logi_track.Fleet.Lists.{
  time_of, with_item, with_point, latest_of_items, latest_of_points, latest_telemetry_at,
}

-- What a map holds for a key has a property.
abbrev pub HoldsAt : (ℤ → Type 0) → Dict JsString ℤ → JsString → Type 0
HoldsAt P latest k = (b : ℤ) → get latest k ≡ some b → P b

-- It holds a time for the key, `t` or later.
abbrev pub Reaches : Dict JsString ℤ → JsString → ℤ → Type 0
Reaches latest k t = (b : ℤ) × (get latest k ≡ some b) × (t ≤ℤ b)

set-HoldsAt :
    (P : ℤ → Type 0) (latest : Dict JsString ℤ) (j k : JsString) (t : ℤ)
    → HoldsAt P latest k
    → (j ≡ k → P t)
    → HoldsAt P (set latest j t) k
set-HoldsAt P latest j k t h p b e = elim (Bool-cases (j == k)) [
  | inl same ↦
      let e' : t ≡ b = cc (rw (get-set latest j k t, same) at e) in
      subst P e' (p ((eq_iff j k).0 same))
  | inr differs ↦ h b (rw (get-set latest j k t, differs) at e)
]

set-Reaches :
    (latest : Dict JsString ℤ) (j k : JsString) (t u : ℤ)
    → Reaches latest k t
    → or_zero (get latest j) <ℤ u
    → Reaches (set latest j u) k t
set-Reaches latest j k t u (b, e, h) l = elim (Bool-cases (j == k)) [
  | inl same ↦
      let l' : or_zero (get latest k) <ℤ u =
        subst (λ i. or_zero (get latest i) <ℤ u) ((eq_iff j k).0 same) l in
      let l'' : b <ℤ u = rw e at l' in (u, get-set latest j k u ∙ rw same refl, omega arith)
  | inr differs ↦ (b, get-set latest j k u ∙ rw differs e, h)
]

set-at : (latest : Dict JsString ℤ) (k : JsString) (t : ℤ) → Reaches (set latest k t) k t
set-at latest k t = (t, get-set latest k k t ∙ rw (eq_refl k) refl, omega arith)

held :
    (latest : Dict JsString ℤ) (k : JsString) (t : ℤ)
    → pos 0 <ℤ t
    → ltb_ℤ (or_zero (get latest k)) t ≡ false
    → Reaches latest k t
held latest k t h earlier = elim (Option-cases (get latest k)) [
  | inl none' ↦ absurd (ground (arith, rw none' at earlier))
  | inr (b, e) ↦ (b, e, ground (arith, rw e at earlier))
]

module _ {D : Type 0} (time : JsString → Option ℤ) where
  -- A date of the delivery with this id: that of its row or of one of its points.
  pub data IsDateOf (items : List (Delivery D)) (telemetry : List (TelemetryPoint D)) (k : JsString)
      (t : ℤ) : Type 0 where
    by_item :
        (d : Delivery D)
        → In d items
        → d.id ≡ k
        → time_of time d.last_telemetry_at ≡ some t
        → IsDateOf items telemetry k t
    by_point :
        (p : TelemetryPoint D)
        → In p telemetry
        → p.delivery_id ≡ k
        → time p.occurred_at ≡ some t
        → IsDateOf items telemetry k t

  items-HoldsAt :
      (P : ℤ → Type 0) (latest : Dict JsString ℤ) (items : List (Delivery D)) (k : JsString)
      → HoldsAt P latest k
      → ((d : Delivery D) (t : ℤ)
          → In d items
          → d.id ≡ k
          → time_of time d.last_telemetry_at ≡ some t
          → P t)
      → HoldsAt P (latest_of_items time latest items) k
  unfolding latest_of_items with_item
  items-HoldsAt P latest [] k h p = h
  items-HoldsAt P latest (item ∷ items) k h p =
      elim (Option-cases (time_of time item.last_telemetry_at)) [
        | inl undated ↦
            rw (with_item, undated) (items-HoldsAt P latest items k h (λ d t m. p d t (inr m)))
        | inr (t, e) ↦
            rw (with_item, e)
              (items-HoldsAt P (set latest item.id t) items k
                (set-HoldsAt P latest item.id k t h (λ i. p item t (inl refl) i e))
                (λ d t m. p d t (inr m)))
      ]

  points-HoldsAt :
      (P : ℤ → Type 0) (latest : Dict JsString ℤ) (points : List (TelemetryPoint D)) (k : JsString)
      → HoldsAt P latest k
      → ((x : TelemetryPoint D) (t : ℤ)
          → In x points
          → x.delivery_id ≡ k
          → time x.occurred_at ≡ some t
          → P t)
      → HoldsAt P (latest_of_points time latest points) k
  unfolding latest_of_points with_point
  points-HoldsAt P latest [] k h p = h
  points-HoldsAt P latest (point ∷ points) k h p = elim (Option-cases (time point.occurred_at)) [
    | inl undated ↦
        rw (with_point, undated) (points-HoldsAt P latest points k h (λ x t m. p x t (inr m)))
    | inr (t, e) ↦ (elim (Bool-cases (ltb_ℤ (or_zero (get latest point.delivery_id)) t)) [
      | inl later ↦
          rw (with_point, e, later)
            (points-HoldsAt P (set latest point.delivery_id t) points k
              (set-HoldsAt P latest point.delivery_id k t h (λ i. p point t (inl refl) i e))
              (λ x t m. p x t (inr m)))
      | inr earlier ↦
          rw (with_point, e, earlier) (points-HoldsAt P latest points k h (λ x t m. p x t (inr m)))
    ])
  ]

  -- A time that is held is a date of the delivery.
  pub latest-IsDateOf :
      (items : List (Delivery D)) (telemetry : List (TelemetryPoint D)) (k : JsString) (b : ℤ)
      → get (latest_telemetry_at time items telemetry) k ≡ some b
      → IsDateOf items telemetry k b
  unfolding latest_telemetry_at get
  latest-IsDateOf items telemetry k =
      points-HoldsAt (IsDateOf items telemetry k) _ telemetry k
        (items-HoldsAt (IsDateOf items telemetry k) [] items k (λ b e. absurd (cc))
          (λ d t m i e. by_item d m i e))
        (λ x t m i e. by_point x m i e)

  points-Reaches :
      (latest : Dict JsString ℤ) (points : List (TelemetryPoint D)) (k : JsString) (t : ℤ)
      → Reaches latest k t
      → Reaches (latest_of_points time latest points) k t
  unfolding latest_of_points with_point
  points-Reaches latest [] k t h = h
  points-Reaches latest (point ∷ points) k t h = elim (Option-cases (time point.occurred_at)) [
    | inl undated ↦ rw (with_point, undated) (points-Reaches latest points k t h)
    | inr (u, e) ↦ (elim (Bool-cases (ltb_ℤ (or_zero (get latest point.delivery_id)) u)) [
      | inl later ↦
          rw (with_point, e, later)
            (points-Reaches (set latest point.delivery_id u) points k t
              (set-Reaches latest point.delivery_id k t u h (ground arith)))
      | inr earlier ↦ rw (with_point, e, earlier) (points-Reaches latest points k t h)
    ])
  ]

  point-Reaches :
      (latest : Dict JsString ℤ) (points : List (TelemetryPoint D)) (p : TelemetryPoint D) (t : ℤ)
      → In p points
      → time p.occurred_at ≡ some t
      → pos 0 <ℤ t
      → Reaches (latest_of_points time latest points) p.delivery_id t
  unfolding latest_of_points with_point
  point-Reaches latest [] p t m e h = elim m [ ]
  point-Reaches latest (point ∷ points) p t (inr m) e h =
      point-Reaches (with_point time latest point) points p t m e h
  point-Reaches latest (point ∷ points) p t (inl i) e h =
      let e' : time point.occurred_at ≡ some t = ap (λ x. time x.occurred_at) i ∙ e in
      subst (λ k. Reaches (latest_of_points time latest (point ∷ points)) k t)
        (ap (λ x. x.delivery_id) i) (here e')
    where
      here :
          time point.occurred_at ≡ some t
          → Reaches (latest_of_points time latest (point ∷ points)) point.delivery_id t
      here e' = elim (Bool-cases (ltb_ℤ (or_zero (get latest point.delivery_id)) t)) [
        | inl later ↦
            rw (with_point, e', later)
              (points-Reaches _ points point.delivery_id t (set-at latest point.delivery_id t))
        | inr earlier ↦
            rw (with_point, e', earlier)
              (points-Reaches latest points point.delivery_id t
                (held latest point.delivery_id t h earlier))
      ]

  items-kept :
      (latest : Dict JsString ℤ) (items : List (Delivery D)) (k : JsString)
      → has (entries (λ d. d.id) items) k ≡ false
      → get (latest_of_items time latest items) k ≡ get latest k
  unfolding latest_of_items with_item has
  items-kept latest [] k h = refl
  items-kept latest (item ∷ items) k h = elim (Option-cases (time_of time item.last_telemetry_at)) [
    | inl undated ↦ rw (with_item, undated) (items-kept latest items k (ground arith))
    | inr (t, e) ↦
        let differs : (item.id == k) ≡ false = ground arith in
        rw (with_item, e)
          (items-kept (set latest item.id t) items k (ground arith)
            ∙ get-set latest item.id k t
            ∙ rw differs refl)
  ]

  item-Reaches :
      (latest : Dict JsString ℤ) (items : List (Delivery D)) (d : Delivery D) (t : ℤ)
      → HasDistinctIds (λ d. d.id) items
      → In d items
      → time_of time d.last_telemetry_at ≡ some t
      → Reaches (latest_of_items time latest items) d.id t
  unfolding latest_of_items with_item
  item-Reaches latest [] d t h m e = elim m [ ]
  item-Reaches latest (item ∷ items) d t h (inr m) e =
      item-Reaches (with_item time latest item) items d t h.1 m e
  item-Reaches latest (item ∷ items) d t h (inl i) e =
      let e' : time_of time item.last_telemetry_at ≡ some t =
        ap (λ x. time_of time x.last_telemetry_at) i ∙ e in
      subst (λ k. Reaches (latest_of_items time latest (item ∷ items)) k t) (ap (λ x. x.id) i)
        (rw (with_item, e')
          (
            t,
            items-kept (set latest item.id t) items item.id h.0
                ∙ get-set latest item.id item.id t
                ∙ rw (eq_refl item.id) refl,
            omega arith,
          ))

  -- Every date of a delivery after 1970 is reached by the time that is held.
  pub latest-Reaches :
      (items : List (Delivery D)) (telemetry : List (TelemetryPoint D)) (k : JsString) (t : ℤ)
      → HasDistinctIds (λ d. d.id) items
      → pos 0 <ℤ t
      → IsDateOf items telemetry k t
      → Reaches (latest_telemetry_at time items telemetry) k t
  unfolding latest_telemetry_at
  latest-Reaches items telemetry k t h later (by_item d m i e) =
      subst (λ j. Reaches (latest_telemetry_at time items telemetry) j t) i
        (points-Reaches _ telemetry d.id t (item-Reaches [] items d t h m e))
  latest-Reaches items telemetry k t h later (by_point p m i e) =
      subst (λ j. Reaches (latest_telemetry_at time items telemetry) j t) i
        (point-Reaches _ telemetry p t m e later)
