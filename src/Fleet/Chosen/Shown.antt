-- ===== src/Fleet/Chosen/Shown.antt =====
-- The selected delivery is among those that are drawn.
use logi_track.Base.{
  ℕ, zero, suc, ◌-◌, ◌≤◌, ◌<◌, ◌≡◌, refl, sym, ap, ◌∙◌, inl, inr, Bool, true, false, Option, none,
  some, List, [], ◌∷◌, ◌==◌, nat_eq, list_eq, eq_iff, eq_refl, leb, any, take, length, length-take,
  min, arith, In, In-take, Bool-cases, Option-cases, any_iff, All, subst,
}
use logi_track.Js.Text.{JsString}
use logi_track.Console.Types.{Delivery}
use logi_track.Js.Dict.{has}
use logi_track.Console.Rows.{entries, HasDistinctIds, has-take, take-HasDistinctIds}
use logi_track.Fleet.Chosen.{find, is_selected, visible_deliveries, map_items, map_delivery_limit}

module _ {D : Type 0} where
  pub find-In :
      (p : Delivery D → Bool) (rows : List (Delivery D)) (d : Delivery D)
      → find p rows ≡ some d
      → In d rows × (p d ≡ true)
  find-In p [] d h = absurd (cc)
  find-In p (row ∷ rows) d h = elim (Bool-cases (p row)) [
    | inl here ↦ let e : row ≡ d = ground arith in (inl e, ground arith)
    | inr later ↦ let (m, t) = find-In p rows d (ground arith) in (inr m, t)
  ]

  find-none :
      (p : Delivery D → Bool) (rows : List (Delivery D)) → find p rows ≡ none → any p rows ≡ false
  find-none p [] h = refl
  find-none p (row ∷ rows) h = ground (arith, find-none p rows)

  take_all : (n : ℕ) (rows : List (Delivery D)) → length rows ≤ n → take n rows ≡ rows
  take_all zero [] h = refl
  take_all (suc n) [] h = refl
  take_all zero (row ∷ rows) h = absurd (omega arith)
  take_all (suc n) (row ∷ rows) h = ap (row ∷◌) (take_all n rows (omega arith))

  In-has :
      (rows : List (Delivery D)) (d : Delivery D)
      → In d rows
      → any (λ item. item.id == d.id) rows ≡ true
  In-has rows d m = (any_iff (λ item. item.id == d.id) rows).1 (d, m, eq_refl d.id)

  -- The map draws the deliveries that the list shows at a count of 50, for every selection.
  pub map_items-eq-visible_deliveries :
      (selected : Option JsString) (visible : List (Delivery D))
      → map_items selected visible ≡ visible_deliveries map_delivery_limit selected visible
  unfolding map_items visible_deliveries
  map_items-eq-visible_deliveries selected visible =
      elim (Option-cases (find (is_selected selected) visible)) [
        | inl absent ↦ (elim (Bool-cases (leb (length visible) 50)) [
          | inl few ↦ rw (few, visible_deliveries, absent, take_all 50 visible (ground arith)) refl
          | inr many ↦ rw (many, visible_deliveries, absent) refl
        ])
        | inr (d, e) ↦ (elim (Bool-cases (leb (length visible) 50)) [
          | inl few ↦
              rw
                (
                  few,
                  visible_deliveries,
                  e,
                  take_all 50 visible (ground arith),
                  In-has visible d (find-In _ visible d e).0,
                )
                refl
          | inr many ↦ rw (many, visible_deliveries, e) refl
        ])
      ]

  any-false :
      (p : Delivery D → Bool) (rows : List (Delivery D)) (d : Delivery D)
      → any p rows ≡ false
      → In d rows
      → p d ≡ false
  any-false p (row ∷ rows) d h (inl e) = subst (λ x. p x ≡ false) e (ground arith)
  any-false p (row ∷ rows) d h (inr m) = any-false p rows d (ground arith) m
  any-false p [] d h m = elim m [ ]

  All-of_In :
      (rows all_rows : List (Delivery D))
      → ((d : Delivery D) → In d rows → In d all_rows)
      → All (λ d. In d all_rows) rows
  All-of_In [] all_rows h = tt
  All-of_In (row ∷ rows) all_rows h =
      (h row (inl refl), All-of_In rows all_rows (λ d m. h d (inr m)))

  has-any :
      (rows : List (Delivery D)) (k : JsString)
      → has (entries (λ d. d.id) rows) k ≡ any (λ item. item.id == k) rows
  unfolding has
  has-any [] k = refl
  has-any (row ∷ rows) k = ground (arith, has-any rows k)

  any-take :
      (p : Delivery D → Bool) (n : ℕ) (rows : List (Delivery D))
      → any p rows ≡ false
      → any p (take n rows) ≡ false
  any-take p zero rows h = refl
  any-take p (suc n) [] h = refl
  any-take p (suc n) (row ∷ rows) h = ground (arith, any-take p n rows)

  -- What the list shows of the deliveries: as many as it may, each of them one of the deliveries, none
  -- twice, and the selected one if it is there.
  pub record IsShownOf (count : ℕ) (selected : Option JsString)
      (deliveries shown : List (Delivery D)) : Type 0 where
    pub size : length shown ≡ min count (length deliveries)
    pub from : All (λ d. In d deliveries) shown
    pub distinct_ids : HasDistinctIds (λ d. d.id) shown
    pub has_selected : any (is_selected selected) shown ≡ any (is_selected selected) deliveries

  any-true :
      (p : Delivery D → Bool) (rows : List (Delivery D)) (d : Delivery D)
      → In d rows
      → p d ≡ true
      → any p rows ≡ true
  any-true p rows d m t = (any_iff p rows).1 (d, m, t)

  -- The selected delivery takes the place of the last.
  chosen_first :
      (count : ℕ) (selected : Option JsString) (deliveries : List (Delivery D)) (d : Delivery D)
      → 1 ≤ count
      → HasDistinctIds (λ d. d.id) deliveries
      → find (is_selected selected) deliveries ≡ some d
      → any (λ item. item.id == d.id) (take count deliveries) ≡ false
      → IsShownOf count selected deliveries (d ∷ take (count - 1) (take count deliveries))
  chosen_first count selected deliveries d c h e absent =
      let (m, chosen) = find-In (is_selected selected) deliveries d e in
      let long : count < length deliveries = elim (Bool-cases (leb (length deliveries) count)) [
        | inl few ↦
            let here = In-has deliveries d m in
            absurd (cc (rw (take_all count deliveries (ground arith)) at absent))
        | inr many ↦ ground arith
      ] in
      record {
        size = omega (
          arith,
          long,
          length-take (count - 1) (take count deliveries),
          length-take count deliveries,
        );
        from = (
          m,
          All-of_In _ deliveries
              λ x k. In-take count deliveries x (In-take (count - 1) (take count deliveries) x k),
        );
        distinct_ids = (
          has-take (λ d. d.id) (count - 1) (take count deliveries) d.id
              (has-any (take count deliveries) d.id ∙ absent),
          take-HasDistinctIds (λ d. d.id) (count - 1) _
              (take-HasDistinctIds (λ d. d.id) count deliveries h),
        );
        has_selected = rw (chosen, any-true (is_selected selected) deliveries d m chosen) refl;
      }

  in_first :
      (count : ℕ) (selected : Option JsString) (deliveries : List (Delivery D))
      → HasDistinctIds (λ d. d.id) deliveries
      → any (is_selected selected) (take count deliveries) ≡ any (is_selected selected) deliveries
      → IsShownOf count selected deliveries (take count deliveries)
  in_first count selected deliveries h e = record {
    size = length-take count deliveries;
    from = All-of_In _ deliveries (λ x k. In-take count deliveries x k);
    distinct_ids = take-HasDistinctIds (λ d. d.id) count deliveries h;
    has_selected = e;
  }

  same_id :
      (selected : Option JsString) (x d : Delivery D)
      → x.id ≡ d.id
      → is_selected selected d ≡ true
      → is_selected selected x ≡ true
  same_id none x d e h = cc
  same_id (some id) x d e h = rw e h

  -- At a count of one at least, and where no two deliveries have one id: the list shows as many
  -- deliveries as the count says, or all; each is one of the deliveries, none has the id of another, and
  -- the selected one is shown exactly if it is there at all.
  pub visible_deliveries-IsShownOf :
      (count : ℕ) (selected : Option JsString) (deliveries : List (Delivery D))
      → 1 ≤ count
      → HasDistinctIds (λ d. d.id) deliveries
      → IsShownOf count selected deliveries (visible_deliveries count selected deliveries)
  unfolding visible_deliveries
  visible_deliveries-IsShownOf count selected deliveries c h =
      elim (Option-cases (find (is_selected selected) deliveries)) [
        | inl none' ↦
            let nowhere = find-none (is_selected selected) deliveries none' in
            rw (visible_deliveries, none')
              (in_first count selected deliveries h
                (any-take (is_selected selected) count deliveries nowhere ∙ sym nowhere))
        | inr (d, e) ↦ (elim (Bool-cases (any (λ item. item.id == d.id) (take count deliveries))) [
          | inl there ↦
              let (m, chosen) = find-In (is_selected selected) deliveries d e in
              let (x, k, t) = (any_iff (λ item. item.id == d.id) (take count deliveries)).0 there in
              rw (visible_deliveries, e, there)
                (in_first count selected deliveries h (
                  any-true (is_selected selected) (take count deliveries) x k
                    (same_id selected x d ((eq_iff x.id d.id).0 t) chosen)
                  ∙ sym (any-true (is_selected selected) deliveries d m chosen)))
          | inr absent ↦
              rw (visible_deliveries, e, absent)
                (chosen_first count selected deliveries d c h e absent)
        ])
      ]
