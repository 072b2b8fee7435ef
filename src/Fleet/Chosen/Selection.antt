-- ===== src/Fleet/Chosen/Selection.antt =====
-- The effect that keeps one of the visible deliveries selected.
use logi_track.Base.{
  ◌≡◌, refl, sym, subst, ◌⊎◌, inl, inr, Bool, true, false, Option, some, List, ◌∷◌, ◌==◌, nat_eq,
  list_eq, eq_refl, any, In, Bool-cases, Option-cases, any_iff,
}
use logi_track.Js.Text.{JsString, truthy}
use logi_track.Console.Types.{Delivery, RouteSnapshot}
use logi_track.Fleet.Chosen.{find, is_selected, keep_selection}
use logi_track.Fleet.Chosen.Shown.{find-In}

module _ {D : Type 0} (routes : List (RouteSnapshot D)) where
  has_route : Delivery D → Bool
  has_route item = any (λ route. route.delivery_id == item.id) routes

  kept :
      (first : Delivery D) (rest : List (Delivery D)) (selected : Option JsString)
      → any (is_selected selected) (first ∷ rest) ≡ true
      → keep_selection routes (first ∷ rest) selected ≡ selected
  unfolding keep_selection
  kept first rest selected there = rw (keep_selection, there) refl

  replaced :
      (first : Delivery D) (rest : List (Delivery D)) (selected : Option JsString)
      → any (is_selected selected) (first ∷ rest) ≡ false
      → (d : Delivery D) × In d (first ∷ rest)
        × (keep_selection routes (first ∷ rest) selected ≡ some d.id)
  unfolding keep_selection has_route
  replaced first rest selected absent = elim (Option-cases (find has_route (first ∷ rest))) [
    | inl none' ↦ (first, inl refl, rw (keep_selection, absent, none') refl)
    | inr (d, e) ↦ (elim (Bool-cases (truthy d.id)) [
      | inl named ↦
          (d, (find-In has_route (first ∷ rest) d e).0, rw (keep_selection, absent, e, named) refl)
      | inr unnamed ↦ (first, inl refl, rw (keep_selection, absent, e, unnamed) refl)
    ])
  ]

  keep_selection_visible :
      (first : Delivery D) (rest : List (Delivery D)) (selected : Option JsString)
      → any (is_selected (keep_selection routes (first ∷ rest) selected)) (first ∷ rest) ≡ true
  keep_selection_visible first rest selected =
      elim (Bool-cases (any (is_selected selected) (first ∷ rest))) [
        | inl there ↦
            subst (λ s. any (is_selected s) (first ∷ rest) ≡ true)
              (sym (kept first rest selected there)) there
        | inr absent ↦
            let (d, m, e) = replaced first rest selected absent in
            subst (λ s. any (is_selected s) (first ∷ rest) ≡ true) (sym e)
              ((any_iff (is_selected (some d.id)) (first ∷ rest)).1 (d, m, eq_refl d.id))
      ]

  -- Where a delivery is visible, the effect leaves the id of a visible one selected, does not change a
  -- selection that is visible already, and has nothing left to do when it runs again.
  pub keep_selection_settles :
      (first : Delivery D) (rest : List (Delivery D)) (selected : Option JsString)
      → let visible = first ∷ rest in
        let next = keep_selection routes visible selected in
        (any (is_selected next) visible ≡ true)
        × ((any (is_selected selected) visible ≡ false) ⊎ (next ≡ selected))
        × (keep_selection routes visible next ≡ next)
  keep_selection_settles first rest selected = (
    keep_selection_visible first rest selected,
    elim (Bool-cases (any (is_selected selected) (first ∷ rest))) [
      | inl there ↦ inr (kept first rest selected there)
      | inr absent ↦ inl absent
    ],
    kept first rest _ (keep_selection_visible first rest selected),
  )
