-- ===== src/Js/Dates.antt =====
-- `new Date(text).getTime()`: milliseconds, an integer, or NaN, which is `none`. The difference of two
-- of them, as a comparator of `sort` gives it.
use Prim.Native.Nat.{Ordering}
use mathlib.Core.List.{Pairwise}
use mathlib.Core.List.Pairwise
use logi_track.Base.{
  ◌≡◌, refl, subst, sym, ap, ◌≢◌, false, Option, none, some, List, [], ◌∷◌, arith, All, In,
  Option-cases, inl, inr,
}
use logi_track.Base.Int.{ℤ, pos, ◌≤ℤ◌}
use logi_track.Base.Sorting.{
  compare_ℤ, is_after, sort, sort-agree, sort-Pairwise, compare_keys, by_keys-IsOrder, IsOrder,
}

-- The sign of `a - b`; that of NaN counts as zero.
unfoldable pub compare_times : Option ℤ → Option ℤ → Ordering
compare_times (some a) (some b) = compare_ℤ a b
compare_times _ _ = Ordering.eq

-- The sign of `-1 * (a - b)`
unfoldable pub reversed : Ordering → Ordering
reversed Ordering.lt = Ordering.gt
reversed Ordering.eq = Ordering.eq
reversed Ordering.gt = Ordering.lt

-- `a ?? 0`
abbrev pub or_zero : Option ℤ → ℤ
or_zero (some a) = a
or_zero none = pos 0

module _ {A : Type 0} (at : A → Option ℤ) where
  -- The date of `x` is not after that of `y`.
  abbrev pub IsNotAfter : A → A → Type 0
  IsNotAfter x y = (a b : ℤ) → at x ≡ some a → at y ≡ some b → a ≤ℤ b

  abbrev pub IsDated : List A → Type 0
  IsDated = All λ row. at row ≢ none

  dated : (rows : List A) (x : A) → IsDated rows → In x rows → at x ≡ some (or_zero (at x))
  dated [] x h m = elim m [ ]
  dated (row ∷ rows) x h (inl e) = elim (Option-cases (at row)) [
    | inl absent ↦ absurd (h.0 absent)
    | inr (a, e') ↦ subst (λ z. at z ≡ some (or_zero (at z))) e (rw e' refl)
  ]
  dated (row ∷ rows) x h (inr later) = dated rows x h.1 later

  by_date : A → A → Ordering
  by_date x y = compare_ℤ (or_zero (at x)) (or_zero (at y))

  by_date-IsOrder : IsOrder by_date
  unfolding by_date compare_keys
  by_date-IsOrder = by_keys-IsOrder (λ x. or_zero (at x) ∷ []) _ (λ x y. ground arith)

  by_date_reversed-IsOrder : IsOrder (λ x y. reversed (by_date x y))
  unfolding by_date reversed
  by_date_reversed-IsOrder = record {
    total = λ x y h. ground arith;
    trans = λ x y z h g. ground arith;
  }

  as_by_date :
      (rows : List A)
      → IsDated rows
      → (x y : A) → In x rows
      → In y rows
      → compare_times (at x) (at y) ≡ by_date x y
  unfolding compare_times by_date
  as_by_date rows h x y m n = rw (dated rows x h m, dated rows y h n) refl

  by_date_lem : (x y : A) → is_after (by_date x y) ≡ false → IsNotAfter x y
  unfolding by_date
  by_date_lem x y h a b p q = ground (arith, ap or_zero p, ap or_zero q)

  by_date_reversed_lem : (x y : A) → is_after (reversed (by_date x y)) ≡ false → IsNotAfter y x
  unfolding by_date reversed
  by_date_reversed_lem x y h b a q p = ground (arith, ap or_zero p, ap or_zero q)

  -- Rows with valid dates are sorted by them, the oldest first.
  pub oldest_first-Pairwise :
      (rows : List A)
      → IsDated rows
      → Pairwise IsNotAfter (sort (λ x y. compare_times (at x) (at y)) rows)
  oldest_first-Pairwise rows h =
      let agree =
        sort-agree (λ x y. compare_times (at x) (at y)) by_date rows (as_by_date rows h) in
      subst (Pairwise IsNotAfter) (sym agree)
        (Pairwise.imp by_date_lem (sort-Pairwise by_date by_date-IsOrder rows))

  -- Rows with valid dates are sorted by them, the newest first.
  pub newest_first-Pairwise :
      (rows : List A)
      → IsDated rows
      → Pairwise (λ x y. IsNotAfter y x) (sort (λ x y. reversed (compare_times (at x) (at y))) rows)
  newest_first-Pairwise rows h =
      let agree =
        sort-agree (λ x y. reversed (compare_times (at x) (at y))) (λ x y. reversed (by_date x y))
          rows (λ x y m n. ap reversed (as_by_date rows h x y m n)) in
      subst (Pairwise (λ x y. IsNotAfter y x)) (sym agree) (
        Pairwise.imp by_date_reversed_lem
          (sort-Pairwise (λ x y. reversed (by_date x y)) by_date_reversed-IsOrder rows))
