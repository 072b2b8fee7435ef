-- ===== src/Fleet/Features/Reference.antt =====
-- The features of the map by plain look-ups in the lists.
use Prim.Native.Nat.{Ordering}
use logi_track.Base.{
  ◌≡◌, refl, sym, ap, ◌∙◌, Bool, true, false, Option, none, some, List, [], ◌∷◌, ◌++◌, append_assoc,
  append-nil, ◌==◌, nat_eq, list_eq, eq_iff, if◌then◌else◌, arith, keep_if, Bool-cases, inl, inr,
}
use logi_track.Base.Int.{ℤ}
use logi_track.Js.Text.{JsString}
use logi_track.Js.Dict.{Dict, get, has, set, get-set}
use logi_track.Console.Types.{Delivery, RouteSnapshot, TelemetryPoint}
use logi_track.Console.Maps.{or_else, get-of-not-has}
use logi_track.Fleet.Features.{
  or_default, Feature, index_route, index_routes, route_index, add_tracks, features_of,
  push_features, features,
}

get-has :
    {V : Type 0} (d : Dict JsString V) (k : JsString)
    → has d k ≡ true
    → (v : V) × (get d k ≡ some v)
unfolding get has
get-has [] k h = absurd (cc)
get-has ((j, v) ∷ d) k h = elim (Bool-cases (j == k)) [
  | inl same ↦ (v, rw same refl)
  | inr differs ↦ let (w, e) = get-has d k (ground arith) in (w, rw differs e)
]

or_else-none : {V : Type 0} (o : Option V) → o ≡ or_else o none
or_else-none none = refl
or_else-none (some v) = refl

module _ {D : Type 0} where
  -- The coordinates of the first route that was planned for a delivery
  abbrev pub first_route : List (RouteSnapshot D) → JsString → Option (List (D × D))
  first_route [] id = none
  first_route (r ∷ routes) id =
      let rest = first_route routes id in if r.delivery_id == id then some r.coordinates else rest

  -- The points of a delivery
  abbrev pub track_of : List (TelemetryPoint D) → JsString → List (TelemetryPoint D)
  track_of telemetry id = keep_if (λ p. p.delivery_id == id) telemetry

  get-index_route :
      (indexed : Dict JsString (List (D × D))) (r : RouteSnapshot D) (id : JsString)
      → get (index_route indexed r) id
        ≡ or_else (get indexed id) (if r.delivery_id == id then some r.coordinates else none)
  unfolding index_route
  get-index_route indexed r id = elim (Bool-cases (has indexed r.delivery_id)) [
    | inl there ↦ (elim (Bool-cases (r.delivery_id == id)) [
      | inl same ↦
          let (v, e) = get-has indexed r.delivery_id there in
          let e' : get indexed id ≡ some v =
            ap (get indexed) (sym ((eq_iff r.delivery_id id).0 same)) ∙ e in
          rw (there, same, e') refl
      | inr differs ↦ rw (there, differs) (or_else-none (get indexed id))
    ])
    | inr absent ↦ (elim (Bool-cases (r.delivery_id == id)) [
      | inl same ↦
          let e : get indexed id ≡ none =
            ap (get indexed) (sym ((eq_iff r.delivery_id id).0 same))
            ∙ get-of-not-has indexed r.delivery_id absent in
          rw (absent, get-set indexed r.delivery_id id r.coordinates, same, e) refl
      | inr differs ↦
          rw (absent, get-set indexed r.delivery_id id r.coordinates, differs)
            (or_else-none (get indexed id))
    ])
  ]

  or_else-if :
      (held : Option (List (D × D))) (test : Bool) (c : List (D × D)) (rest : Option (List (D × D)))
      → or_else (or_else held (if test then some c else none)) rest
        ≡ or_else held (if test then some c else rest)
  or_else-if none true c rest = refl
  or_else-if none false c rest = refl
  or_else-if (some held) test c rest = refl

  get-index_routes :
      (indexed : Dict JsString (List (D × D))) (routes : List (RouteSnapshot D)) (id : JsString)
      → get (index_routes indexed routes) id ≡ or_else (get indexed id) (first_route routes id)
  unfolding index_routes
  get-index_routes indexed [] id = or_else-none (get indexed id)
  get-index_routes indexed (r ∷ routes) id =
      get-index_routes (index_route indexed r) routes id
      ∙ ap (λ held. or_else held (first_route routes id)) (get-index_route indexed r id)
      ∙ or_else-if (get indexed id) (r.delivery_id == id) r.coordinates (first_route routes id)

  get-add_tracks :
      (tracks : Dict JsString (List (TelemetryPoint D))) (telemetry : List (TelemetryPoint D))
      (id : JsString)
      → or_default [] (get (add_tracks tracks telemetry) id)
        ≡ or_default [] (get tracks id) ++ track_of telemetry id
  unfolding add_tracks
  get-add_tracks tracks [] id = sym (append-nil _)
  get-add_tracks tracks (p ∷ telemetry) id =
      let longer = or_default [] (get tracks p.delivery_id) ++ (p ∷ []) in
      get-add_tracks (set tracks p.delivery_id longer) telemetry id
      ∙ ap (λ held. or_default [] held ++ track_of telemetry id)
          (get-set tracks p.delivery_id id longer)
      ∙ added (p.delivery_id == id) (λ same. (eq_iff p.delivery_id id).0 same)
    where
      added :
          (test : Bool)
          → (test ≡ true → p.delivery_id ≡ id)
          → or_default [] (
                if test
                then some (or_default [] (get tracks p.delivery_id) ++ (p ∷ []))
                else get tracks id)
              ++ track_of telemetry id
            ≡ or_default [] (get tracks id)
              ++ (if test then p ∷ track_of telemetry id else track_of telemetry id)
      added true same =
          ap (λ k. (or_default [] (get tracks k) ++ (p ∷ [])) ++ track_of telemetry id) (same refl)
          ∙ append_assoc (or_default [] (get tracks id)) (p ∷ []) (track_of telemetry id)
      added false same = refl

  module _ (ceil_of : D → ℤ → ℤ) (time : JsString → Option ℤ)
      (compare_text : JsString → JsString → Ordering) (now : ℤ) where
    -- The features of each delivery from its own first route and its own points
    abbrev pub plain_features :
        List (Delivery D) → List (RouteSnapshot D) → List (TelemetryPoint D) → List (Feature D)
    plain_features [] routes telemetry = []
    plain_features (d ∷ deliveries) routes telemetry =
        features_of ceil_of time compare_text now (first_route routes d.id)
          (track_of telemetry d.id) d
        ++ plain_features deliveries routes telemetry

    push_features-eq :
        (deliveries : List (Delivery D)) (routes : List (RouteSnapshot D))
        (telemetry : List (TelemetryPoint D))
        → push_features ceil_of time compare_text now
            (route_index routes)
            (add_tracks [] telemetry)
            deliveries
          ≡ plain_features deliveries routes telemetry
    unfolding push_features route_index get
    push_features-eq [] routes telemetry = refl
    push_features-eq (d ∷ deliveries) routes telemetry =
        rw
          (
            get-index_routes [] routes d.id,
            get-add_tracks [] telemetry d.id,
            push_features-eq deliveries routes telemetry,
          )
          refl

    -- The features that are built through the two maps, of routes and of tracks, are those that each
    -- delivery has by itself: its plan is the first route with its id, its track the points with
    -- its id in their order.
    pub features-eq-plain_features :
        (deliveries : List (Delivery D)) (routes : List (RouteSnapshot D))
        (telemetry : List (TelemetryPoint D))
        → features ceil_of time compare_text now deliveries routes telemetry
          ≡ plain_features deliveries routes telemetry
    unfolding features
    features-eq-plain_features = push_features-eq
