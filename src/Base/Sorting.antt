-- ===== src/Base/Sorting.antt =====
-- `Array.prototype.sort` with a comparator: stable, so that it is an insertion sort for every comparator
-- that orders the items. A comparator gives the sign of its number, and NaN counts as zero.
use Prim.Native.Nat.{compare, Ordering, ◌+◌}
use mathlib.Core.Path.{◌≡◌, refl}
use mathlib.Core.Logic.{◌↔◌, inl, inr}
use mathlib.Core.Bool.{Bool, true, false}
use mathlib.Core.List.{
  List, [], ◌∷◌, Perm, Pairwise, Mem, Pairwise-singleton, forall_mem-cons, Sublistᴰ,
}
use mathlib.Core.List.Perm
use mathlib.Core.List.Pairwise
use native.Mathlib.Omega.{arith}
use logi_track.Base.Tests.{if◌then◌else◌, Bool-cases}
use logi_track.Base.Lists.{keep_if}
use logi_track.Base.Members.{In}
use logi_track.Base.Int.{ℤ, pos_part, neg_part}

-- The sign is positive.
abbrev pub is_after : Ordering → Bool
is_after Ordering.gt = true
is_after _ = false

-- How two integers compare: the sign of their difference.
abbrev pub compare_ℤ : ℤ → ℤ → Ordering
compare_ℤ a b = compare (pos_part a + neg_part b) (pos_part b + neg_part a)

module _ {A : Type 0} (order : A → A → Ordering) where
  unfoldable pub insert_sorted : A → List A → List A
  insert_sorted x [] = x ∷ []
  insert_sorted x (y ∷ ys) =
      let rest = insert_sorted x ys in if is_after (order x y) then y ∷ rest else x ∷ y ∷ ys

  unfoldable pub sort : List A → List A
  sort [] = []
  sort (x ∷ xs) = insert_sorted x (sort xs)

  insert_sorted-perm : (x : A) (ys : List A) → Perm (insert_sorted x ys) (x ∷ ys)
  unfolding insert_sorted
  insert_sorted-perm x [] = Perm.rfl
  insert_sorted-perm x (y ∷ ys) = elim (Bool-cases (is_after (order x y))) [
    | inl later ↦ rw later (Perm.trans (Perm.cons y (insert_sorted-perm x ys)) (Perm.swap x y ys))
    | inr here ↦ rw here Perm.rfl
  ]

  pub sort-perm : (xs : List A) → Perm (sort xs) xs
  unfolding sort
  sort-perm [] = Perm.rfl
  sort-perm (x ∷ xs) = Perm.trans (insert_sorted-perm x (sort xs)) (Perm.cons x (sort-perm xs))

  -- `x` may stand in front of `y`.
  abbrev pub Before : A → A → Type 0
  Before x y = is_after (order x y) ≡ false

  -- Items that the comparator takes for equal, whatever else it does, keep their places.
  insert_sorted-keep_if :
      (p : A → Bool) (x : A) (ys : List A)
      → ((y : A) → p x ≡ true → p y ≡ true → Before x y)
      → keep_if p (insert_sorted x ys) ≡ keep_if p (x ∷ ys)
  unfolding insert_sorted
  insert_sorted-keep_if p x [] h = refl
  insert_sorted-keep_if p x (y ∷ ys) h = ground (arith, insert_sorted-keep_if p x ys h, h y)

  pub sort-keep_if :
      (p : A → Bool) (xs : List A)
      → ((x y : A) → p x ≡ true → p y ≡ true → Before x y)
      → keep_if p (sort xs) ≡ keep_if p xs
  unfolding sort
  sort-keep_if p [] h = refl
  sort-keep_if p (x ∷ xs) h =
      ground (arith, insert_sorted-keep_if p x (sort xs) (h x), sort-keep_if p xs h)

  -- The comparator orders the items: of two, one may stand in front, and it is transitive.
  pub record IsOrder : Type 0 where
    pub total : (x y : A) → is_after (order x y) ≡ true → Before y x
    pub trans : (x y z : A) → Before x y → Before y z → Before x z

  module _ (o : IsOrder) where
    below-cons :
        (z x : A) (ys : List A)
        → Before z x
        → ((a : A) → Mem a ys → Before z a)
        → (a : A) → Mem a (x ∷ ys)
        → Before z a
    below-cons z x ys h k = (forall_mem-cons (λ a. (hlevel))).1 (h, k)

    insert_sorted-Pairwise :
        (x : A) {ys : List A} → Pairwise Before ys → Pairwise Before (insert_sorted x ys)
    unfolding insert_sorted
    insert_sorted-Pairwise x Pairwise.nil = Pairwise-singleton _ x
    insert_sorted-Pairwise x (Pairwise.cons {a = y} {l = ys} below s) =
        elim (Bool-cases (is_after (order x y))) [
          | inl later ↦ rw later (
              Pairwise.cons
                (λ a m.
                  below-cons y x ys (o.total x y later) below a
                    ((Perm.mem_iff (insert_sorted-perm x ys)).0 m))
                (insert_sorted-Pairwise x s))
          | inr here ↦ rw here (
              Pairwise.cons (below-cons x y ys here (λ a m. o.trans x y a here (below a m)))
                (Pairwise.cons below s))
        ]

    pub sort-Pairwise : (xs : List A) → Pairwise Before (sort xs)
    unfolding sort
    sort-Pairwise [] = Pairwise.nil
    sort-Pairwise (x ∷ xs) = insert_sorted-Pairwise x (sort-Pairwise xs)

-- Comparing by a list of integers, the first that differ decide.
unfoldable pub compare_keys : List ℤ → List ℤ → Ordering
compare_keys (a ∷ k) (b ∷ l) = elim (compare_ℤ a b) [
  | Ordering.eq ↦ compare_keys k l
  | Ordering.lt ↦ Ordering.lt
  | Ordering.gt ↦ Ordering.gt
]
compare_keys (a ∷ k) [] = Ordering.gt
compare_keys [] (b ∷ l) = Ordering.lt
compare_keys [] [] = Ordering.eq

compare_keys-total :
    (k l : List ℤ) → is_after (compare_keys k l) ≡ true → is_after (compare_keys l k) ≡ false
unfolding compare_keys
compare_keys-total (a ∷ k) (b ∷ l) h = ground (arith, compare_keys-total k l)
compare_keys-total (a ∷ k) [] h = refl
compare_keys-total [] (b ∷ l) h = absurd (cc)
compare_keys-total [] [] h = absurd (cc)

compare_keys_trans :
    (k l m : List ℤ)
    → is_after (compare_keys k l) ≡ false
    → is_after (compare_keys l m) ≡ false
    → is_after (compare_keys k m) ≡ false
unfolding compare_keys
compare_keys_trans (a ∷ k) (b ∷ l) (c ∷ m) h g = ground (arith, compare_keys_trans k l m)
compare_keys_trans (a ∷ k) (b ∷ l) [] h g = cc
compare_keys_trans (a ∷ k) [] m h g = cc
compare_keys_trans [] l (c ∷ m) h g = refl
compare_keys_trans [] (b ∷ l) [] h g = cc
compare_keys_trans [] [] [] h g = refl

-- A comparator that goes by keys orders the items.
pub by_keys-IsOrder :
    {A : Type 0} (key : A → List ℤ) (order : A → A → Ordering)
    → ((x y : A) → order x y ≡ compare_keys (key x) (key y))
    → IsOrder order
by_keys-IsOrder key order h = record {
  total = λ x y t. rw (h y x) (compare_keys-total (key x) (key y) (rw (h x y) at t));
  trans = λ x y z s t.
      rw (h x z) (compare_keys_trans (key x) (key y) (key z) (rw (h x y) at s) (rw (h y z) at t));
}

module _ {A : Type 0} where
  In-insert_sorted :
      (order : A → A → Ordering) (x : A) (ys : List A) (a : A)
      → In a (insert_sorted order x ys)
      → In a (x ∷ ys)
  unfolding insert_sorted
  In-insert_sorted order x [] a m = m
  In-insert_sorted order x (y ∷ ys) a m = elim (Bool-cases (is_after (order x y))) [
    | inl later ↦
        (let m' = rw later at m in
          elim m' [
            | inl e ↦ inr (inl e)
            | inr n ↦ elim (In-insert_sorted order x ys a n) [ inl e ↦ inl e | inr k ↦ inr (inr k) ]
          ])
    | inr here ↦ rw here at m
  ]

  pub In-sort : (order : A → A → Ordering) (xs : List A) (a : A) → In a (sort order xs) → In a xs
  unfolding sort
  In-sort order [] a m = m
  In-sort order (x ∷ xs) a m = elim (In-insert_sorted order x (sort order xs) a m) [
    | inl e ↦ inl e
    | inr k ↦ inr (In-sort order xs a k)
  ]

  insert_sorted-agree :
      (order like : A → A → Ordering) (x : A) (ys : List A)
      → ((y : A) → In y ys → order x y ≡ like x y)
      → insert_sorted order x ys ≡ insert_sorted like x ys
  unfolding insert_sorted
  insert_sorted-agree order like x [] h = refl
  insert_sorted-agree order like x (y ∷ ys) h =
      rw (h y (inl refl), insert_sorted-agree order like x ys (λ z m. h z (inr m))) refl

  -- A sort compares no other items than its own.
  pub sort-agree :
      (order like : A → A → Ordering) (xs : List A)
      → ((x y : A) → In x xs → In y xs → order x y ≡ like x y)
      → sort order xs ≡ sort like xs
  unfolding sort
  sort-agree order like [] h = refl
  sort-agree order like (x ∷ xs) h =
      rw (sort-agree order like xs (λ y z m n. h y z (inr m) (inr n))) (
        insert_sorted-agree order like x (sort like xs)
          λ y m. h x y (inl refl) (inr (In-sort like xs y m)))

  In-insert_sorted_of_In :
      (order : A → A → Ordering) (x : A) (ys : List A) (a : A)
      → In a (x ∷ ys)
      → In a (insert_sorted order x ys)
  unfolding insert_sorted
  In-insert_sorted_of_In order x [] a m = m
  In-insert_sorted_of_In order x (y ∷ ys) a m = elim (Bool-cases (is_after (order x y))) [
    | inl later ↦ rw later (elim m [
      | inl e ↦ inr (In-insert_sorted_of_In order x ys a (inl e))
      | inr rest ↦ elim rest [
        | inl e ↦ inl e
        | inr k ↦ inr (In-insert_sorted_of_In order x ys a (inr k))
      ]
    ])
    | inr here ↦ rw here m
  ]

  In-sort_of_In : (order : A → A → Ordering) (xs : List A) (a : A) → In a xs → In a (sort order xs)
  unfolding sort
  In-sort_of_In order (x ∷ xs) a (inl e) = In-insert_sorted_of_In order x (sort order xs) a (inl e)
  In-sort_of_In order (x ∷ xs) a (inr m) =
      In-insert_sorted_of_In order x (sort order xs) a (inr (In-sort_of_In order xs a m))
  In-sort_of_In order [] a m = elim m [ ]

  pub In-sort_iff :
      (order : A → A → Ordering) (xs : List A) (a : A) → In a (sort order xs) ↔ In a xs
  In-sort_iff order xs a = (In-sort order xs a, In-sort_of_In order xs a)

  keep_if-Sublist : (p : A → Bool) (xs : List A) → Sublistᴰ (keep_if p xs) xs
  keep_if-Sublist p [] = Sublistᴰ.slnil
  keep_if-Sublist p (x ∷ xs) = elim (Bool-cases (p x)) [
    | inl kept ↦ rw kept (Sublistᴰ.cons-cons refl (keep_if-Sublist p xs))
    | inr left ↦ rw left (Sublistᴰ.cons (keep_if-Sublist p xs))
  ]

  -- A filter keeps the order.
  pub keep_if-Pairwise :
      (R : A → A → Type 0) (p : A → Bool) (xs : List A) → Pairwise R xs → Pairwise R (keep_if p xs)
  keep_if-Pairwise R p xs h = Pairwise.sublistᴰ (keep_if-Sublist p xs) h
