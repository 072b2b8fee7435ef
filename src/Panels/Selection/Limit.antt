-- ===== src/Panels/Selection/Limit.antt =====
-- The selection's bounds.
use logi_track.Base.{
  ◌≤◌, ◌<◌, ◌≡◌, refl, sym, subst, inl, inr, ◌↔◌, true, not, List, [], ◌∷◌, ◌++◌, ◌==◌, nat_eq,
  list_eq, eq_iff, eq_refl, any_iff, length, length-append, length-keep_if-le, keep_if, ltb, arith,
  In, In-keep_if, IsOnce, keep_if-IsOnce, append-IsOnce, Bool-cases,
}
use logi_track.Js.Text.{JsString}
use logi_track.Console.Types.{DeadLetterEvent}
use logi_track.Panels.Selection.{
  max_selected, includes_id, toggle, is_pending, keep_pending, SelectionEvent, toggled, new_events,
  selection_reset, Selection, select, select_all, first_selection,
}

-- As many ids as the limit at most, and none twice
abbrev pub IsWithinLimit : List JsString → Type 0
IsWithinLimit ids = (length ids ≤ max_selected) × IsOnce ids

includes_id_iff : (ids : List JsString) (id : JsString) → (includes_id ids id ≡ true) ↔ In id ids
includes_id_iff ids id = (
  λ found.
      let (x, m, same) = (any_iff (λ value. value == id) ids).0 found in
      subst (λ y. In y ids) ((eq_iff x id).0 same) m,
  λ m. (any_iff (λ value. value == id) ids).1 (id, m, eq_refl id),
)

in_append_left : (xs ys : List JsString) (a : JsString) → In a ys → In a (xs ++ ys)
in_append_left [] ys a h = h
in_append_left (x ∷ xs) ys a h = inr (in_append_left xs ys a h)

toggle-IsWithinLimit :
    (id : JsString) (ids : List JsString) → IsWithinLimit ids → IsWithinLimit (toggle id ids)
unfolding toggle
toggle-IsWithinLimit id ids valid = elim (Bool-cases (includes_id ids id)) [
  | inl on ↦
      let shorter = length-keep_if-le (λ value. not (value == id)) ids in
      rw on (
        let bounded : length (keep_if (λ value. not (value == id)) ids) ≤ 20 = omega arith in
        (bounded, keep_if-IsOnce (λ value. not (value == id)) ids valid.1))
  | inr off ↦ (elim (Bool-cases (ltb (length ids) max_selected)) [
    | inl room ↦
        let longer = length-append ids (id ∷ []) in
        let free : length ids ≤ 19 = ground arith in
        let bounded : length (ids ++ id ∷ []) ≤ 20 = omega arith in
        rw (off, room)
          (
            bounded,
            append-IsOnce ids (id ∷ []) valid.1 ((λ h. elim h [ ]), tt)
                (λ a m other. elim other [
                  | inl same ↦
                      let on = (includes_id_iff ids id).1 (subst (λ y. In y ids) (sym same) m) in
                      absurd (cc)
                  | inr none' ↦ elim none' [ ]
                ]),
          )
    | inr full ↦ rw (off, full) valid
  ])
]

toggle_iff :
    (id : JsString) (ids : List JsString)
    → In id (toggle id ids) ↔ ((¬ In id ids) × (length ids < max_selected))
unfolding toggle
toggle_iff id ids = elim (Bool-cases (includes_id ids id)) [
  | inl on ↦ rw on (
    λ m.
        let other = ((In-keep_if (λ value. not (value == id)) ids id).0 m).1 in
        let itself = eq_refl id in absurd (ground arith),
    λ h. absurd (h.0 ((includes_id_iff ids id).0 on)),
  )
  | inr off ↦
      let out : ¬ In id ids = (λ m. let on = (includes_id_iff ids id).1 m in absurd (cc)) in
      (elim (Bool-cases (ltb (length ids) max_selected)) [
        | inl room ↦
            rw (off, room)
              (λ m. (out, ground arith), λ h. in_append_left ids (id ∷ []) id (inl refl))
        | inr full ↦ rw (off, full) (λ m. absurd (out m), λ h. absurd (ground arith))
      ])
]

module _ {D : Type 0} where
  select-IsWithinLimit :
      (event : SelectionEvent D) (s : Selection D)
      → IsWithinLimit s.selected_ids
      → IsWithinLimit (select event s).selected_ids
  unfolding select keep_pending
  select-IsWithinLimit (toggled id) s valid = toggle-IsWithinLimit id s.selected_ids valid
  select-IsWithinLimit (new_events rows) s valid =
      let shorter = length-keep_if-le (is_pending rows) s.selected_ids in
      (omega arith, keep_if-IsOnce (is_pending rows) s.selected_ids valid.1)
  select-IsWithinLimit selection_reset s valid = (omega arith, tt)

  select_all-IsWithinLimit :
      (events : List (SelectionEvent D)) (s : Selection D)
      → IsWithinLimit s.selected_ids
      → IsWithinLimit (select_all events s).selected_ids
  unfolding select_all
  select_all-IsWithinLimit [] s valid = valid
  select_all-IsWithinLimit (event ∷ rest) s valid =
      select_all-IsWithinLimit rest (select event s) (select-IsWithinLimit event s valid)

  -- Whatever boxes are ticked, events come in and resets happen: at most 20 ids are selected, and none
  -- twice. The next events leave selected exactly those that were selected and are pending among them;
  -- a tick of any id selects it exactly if it was not selected and fewer than 20 were.
  pub ticks_are_limited :
      (changes : List (SelectionEvent D)) (first rows : List (DeadLetterEvent D)) (id : JsString)
      → let s = select_all changes (first_selection first) in
        IsWithinLimit s.selected_ids
        × (In id (select (new_events rows) s).selected_ids
            ↔ (In id s.selected_ids × (is_pending rows id ≡ true)))
        × (In id (select (toggled id) s).selected_ids
            ↔ ((¬ In id s.selected_ids) × (length s.selected_ids < max_selected)))
  unfolding select keep_pending
  ticks_are_limited changes first rows id =
      let s = select_all changes (first_selection first) in
      (
        select_all-IsWithinLimit changes (first_selection first) (omega arith, tt),
        In-keep_if (is_pending rows) s.selected_ids id,
        toggle_iff id s.selected_ids,
      )
