-- ===== src/Console/Rows.antt =====
-- Lists of rows with an id, and the ways in which web/app/console/page.tsx brings rows together.
use logi_track.Base.{
  ℕ, suc, zero, ◌≡◌, refl, ◌∙◌, sym, ap, Bool, false, not, Option, none, some, List, [], ◌∷◌, ◌++◌,
  map, arith, ◌==◌, nat_eq, list_eq, eq_iff, if◌then◌else◌, Bool-cases, keep_if, take, inl, inr,
}
use logi_track.Js.Text.{JsString}
use logi_track.Js.Dict.{Dict, get, has, set, add_entries, values}
use logi_track.Console.Maps.{
  or_else, IsMap, add_entries-IsMap, add_entries-append, add_entries-fresh, get-add_entries,
}

module _ {ℓ} {A : Type ℓ} (id : A → JsString) where
  abbrev pub entries : List A → Dict JsString A
  entries rows = map (λ a. (id a, a)) rows

  -- `[...new Map(rows.map(item => [item.id, item])).values()]`
  unfoldable pub distinct : List A → List A
  distinct rows = values (add_entries [] (entries rows))

  -- `[next, ...old.filter(x => x.id !== next.id)]`
  unfoldable pub upsert : A → List A → List A
  upsert next old = next ∷ keep_if (λ a. not (id a == id next)) old

  -- The row with an id.
  abbrev pub lookup : List A → JsString → Option A
  lookup rows k = get (entries rows) k

  abbrev pub HasDistinctIds : List A → Type 0
  HasDistinctIds rows = IsMap (entries rows)

  abbrev IsKeyed : Dict JsString A → Type 0
  IsKeyed [] = Unit {0}
  IsKeyed ((k, a) ∷ d) = (id a ≡ k) × IsKeyed d

  set-IsKeyed : (d : Dict JsString A) (a : A) → IsKeyed d → IsKeyed (set d (id a) a)
  unfolding set
  set-IsKeyed [] a h = (refl, tt)
  set-IsKeyed ((j, w) ∷ d) a h = elim (Bool-cases (j == id a)) [
    | inl same ↦ rw same (refl, h.1)
    | inr differs ↦ rw differs (h.0, set-IsKeyed d a h.1)
  ]

  add_entries-IsKeyed :
      (d : Dict JsString A) (rows : List A) → IsKeyed d → IsKeyed (add_entries d (entries rows))
  unfolding add_entries
  add_entries-IsKeyed d [] h = h
  add_entries-IsKeyed d (a ∷ rows) h = add_entries-IsKeyed (set d (id a) a) rows (set-IsKeyed d a h)

  entries-values : (d : Dict JsString A) → IsKeyed d → entries (values d) ≡ d
  entries-values [] h = refl
  entries-values ((k, a) ∷ d) h = rw (h.0, entries-values d h.1) refl

  entries-distinct : (rows : List A) → entries (distinct rows) ≡ add_entries [] (entries rows)
  unfolding distinct
  entries-distinct rows = entries-values _ (add_entries-IsKeyed [] rows tt)

  pub distinct-HasDistinctIds : (rows : List A) → HasDistinctIds (distinct rows)
  distinct-HasDistinctIds rows = rw (entries-distinct rows) (add_entries-IsMap [] (entries rows) tt)

  entries-append : (xs ys : List A) → entries (xs ++ ys) ≡ entries xs ++ entries ys
  entries-append [] ys = refl
  entries-append (x ∷ xs) ys = ap ((id x, x) ∷◌) (entries-append xs ys)

  -- Rows that are told apart already can be told apart again with what follows them.
  pub distinct-append : (xs ys : List A) → distinct (distinct xs ++ ys) ≡ distinct (xs ++ ys)
  unfolding distinct
  distinct-append xs ys =
      let told = add_entries [] (entries xs) in
      let again : add_entries [] told ≡ told =
        add_entries-fresh [] told (add_entries-IsMap [] (entries xs) tt) in
      ap values (
        ap (add_entries [])
          (entries-append (distinct xs) ys ∙ ap (λ d. d ++ entries ys) (entries-distinct xs))
        ∙ add_entries-append [] told (entries ys)
        ∙ ap (λ d. add_entries d (entries ys)) again
        ∙ sym (
            ap (add_entries []) (entries-append xs ys)
            ∙ add_entries-append [] (entries xs) (entries ys)))

  -- Of two lists with distinct ids, the second overrides the first.
  pub lookup-distinct-append :
      (xs ys : List A) (k : JsString)
      → HasDistinctIds xs
      → HasDistinctIds ys
      → lookup (distinct (xs ++ ys)) k ≡ or_else (lookup ys k) (lookup xs k)
  unfolding get
  lookup-distinct-append xs ys k h1 h2 =
      ap (λ d. get d k)
        (entries-distinct (xs ++ ys)
          ∙ ap (add_entries []) (entries-append xs ys)
          ∙ add_entries-append [] (entries xs) (entries ys))
      ∙ get-add_entries (add_entries [] (entries xs)) (entries ys) k h2
      ∙ ap (or_else (lookup ys k))
          (get-add_entries [] (entries xs) k h1 ∙ or_else-none (lookup xs k))
    where
      or_else-none : (o : Option A) → or_else o none ≡ o
      or_else-none none = refl
      or_else-none (some a) = refl

  has-keep_if :
      (p : A → Bool) (rows : List A) (k : JsString)
      → has (entries rows) k ≡ false
      → has (entries (keep_if p rows)) k ≡ false
  unfolding has
  has-keep_if p [] k h = refl
  has-keep_if p (a ∷ rows) k h = ground (arith, has-keep_if p rows k)

  keep_if-HasDistinctIds :
      (p : A → Bool) (rows : List A) → HasDistinctIds rows → HasDistinctIds (keep_if p rows)
  keep_if-HasDistinctIds p [] h = tt
  keep_if-HasDistinctIds p (a ∷ rows) h = elim (Bool-cases (p a)) [
    | inl kept ↦ rw kept (has-keep_if p rows (id a) h.0, keep_if-HasDistinctIds p rows h.1)
    | inr left ↦ rw left (keep_if-HasDistinctIds p rows h.1)
  ]

  has-others :
      (rows : List A) (k : JsString) → has (entries (keep_if (λ a. not (id a == k)) rows)) k ≡ false
  unfolding has
  has-others [] k = refl
  has-others (a ∷ rows) k = ground (arith, has-others rows k)

  get-others :
      (rows : List A) (k j : JsString)
      → (k == j) ≡ false
      → lookup (keep_if (λ a. not (id a == k)) rows) j ≡ lookup rows j
  unfolding get
  get-others [] k j h = refl
  get-others (a ∷ rows) k j h =
      ground (arith, get-others rows k j h, eq_iff (id a) k, eq_iff (id a) j, eq_iff k j)

  -- A row in front of those with another id.
  pub replace-HasDistinctIds :
      (next : A) (k : JsString) (old : List A)
      → id next ≡ k
      → HasDistinctIds old
      → HasDistinctIds (next ∷ keep_if (λ a. not (id a == k)) old)
  replace-HasDistinctIds next k old e h = (rw e (has-others old k), keep_if-HasDistinctIds _ old h)

  pub upsert-HasDistinctIds :
      (next : A) (old : List A) → HasDistinctIds old → HasDistinctIds (upsert next old)
  unfolding upsert
  upsert-HasDistinctIds next old h = replace-HasDistinctIds next (id next) old refl h

  pub lookup-replace :
      (next : A) (k : JsString) (old : List A) (j : JsString)
      → id next ≡ k
      → lookup (next ∷ keep_if (λ a. not (id a == k)) old) j
        ≡ (if k == j then some next else lookup old j)
  unfolding get
  lookup-replace next k old j e = elim (Bool-cases (k == j)) [
    | inl same ↦ rw (e, same) refl
    | inr differs ↦ rw (e, differs) (get-others old k j differs)
  ]

  pub has-take :
      (n : ℕ) (rows : List A) (k : JsString)
      → has (entries rows) k ≡ false
      → has (entries (take n rows)) k ≡ false
  unfolding has
  has-take zero rows k h = refl
  has-take (suc n) [] k h = refl
  has-take (suc n) (a ∷ rows) k h = ground (arith, has-take n rows k)

  pub take-HasDistinctIds :
      (n : ℕ) (rows : List A) → HasDistinctIds rows → HasDistinctIds (take n rows)
  take-HasDistinctIds zero rows h = tt
  take-HasDistinctIds (suc n) [] h = tt
  take-HasDistinctIds (suc n) (a ∷ rows) h =
      (has-take n rows (id a) h.0, take-HasDistinctIds n rows h.1)
