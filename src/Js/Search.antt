-- ===== src/Js/Search.antt =====
-- `includes` of texts, and the search that the panels of the console share: a query is trimmed and
-- taken to lower case, and a row is found by it if one of its texts includes it. `toLowerCase` of the
-- whole of Unicode is the parameter `lower`.
use logi_track.Base.{
  ◌≡◌, refl, ap, Bool, true, not, ◌||◌, List, [], ◌∷◌, ◌++◌, arith, nat_eq, eq_iff, any, keep_if,
  ◌↔◌, ◌⊎◌, inl, inr, Bool-cases, eq_refl, subst, sym, In, any_iff, if◌then◌else◌, In-keep_if,
}
use logi_track.Js.Text.{JsString, truthy, starts_with, trim}

-- `s.includes(p)`
unfoldable pub includes : JsString → JsString → Bool
includes [] p = starts_with [] p
includes (u ∷ s) p = starts_with (u ∷ s) p || includes s p

-- `p` stands somewhere in `s`.
abbrev pub Contains : JsString → JsString → Type 0
Contains s p = (before : JsString) × (after : JsString) × (s ≡ before ++ (p ++ after))

starts_with_sound :
    (s p : JsString) → starts_with s p ≡ true → (after : JsString) × (s ≡ p ++ after)
unfolding starts_with
starts_with_sound s [] h = (s, refl)
starts_with_sound [] (v ∷ p) h = absurd (cc)
starts_with_sound (u ∷ s) (v ∷ p) h =
    let (after, e) = starts_with_sound s p (ground arith) in (after, ground (arith, eq_iff u v, e))

starts_with-append : (p after : JsString) → starts_with (p ++ after) p ≡ true
unfolding starts_with
starts_with-append [] [] = refl
starts_with-append [] (u ∷ after) = refl
starts_with-append (v ∷ p) after = ground (arith, eq_refl v, starts_with-append p after)

includes_sound : (s p : JsString) → includes s p ≡ true → Contains s p
unfolding includes
includes_sound [] p h = let (after, e) = starts_with_sound [] p h in ([], after, e)
includes_sound (u ∷ s) p h = elim (Bool-cases (starts_with (u ∷ s) p)) [
  | inl here ↦ let (after, e) = starts_with_sound (u ∷ s) p here in ([], after, e)
  | inr later ↦
      let (before, after, e) = includes_sound s p (ground arith) in (u ∷ before, after, ap (u ∷◌) e)
]

includes_prefix : (p after : JsString) → includes (p ++ after) p ≡ true
unfolding includes
includes_prefix [] [] = starts_with-append [] []
includes_prefix [] (u ∷ after) = rw (starts_with-append [] (u ∷ after)) refl
includes_prefix (v ∷ p) after = rw (starts_with-append (v ∷ p) after) refl

includes-append : (before p after : JsString) → includes (before ++ (p ++ after)) p ≡ true
unfolding includes
includes-append [] p after = includes_prefix p after
includes-append (u ∷ before) p after = ground (arith, includes-append before p after)

-- `includes` finds exactly the texts that stand in the other one.
pub includes_iff : (s p : JsString) → (includes s p ≡ true) ↔ Contains s p
includes_iff s p = (
  includes_sound s p,
  λ (before, after, e). subst (λ t. includes t p ≡ true) (sym e) (includes-append before p after),
)

module _ (lower : JsString → JsString) where
  -- `query.trim().toLowerCase()`
  unfoldable pub normalized : JsString → JsString
  normalized query = lower (trim query)

  -- `values.some(value => value.toLowerCase().includes(q))`
  unfoldable pub some_includes : (q : JsString) → List JsString → Bool
  some_includes q values = any (λ value. includes (lower value) q) values

  -- One of the texts has the query in it, both in lower case; a blank query is in every row.
  abbrev pub IsFound : (query : JsString) → List JsString → Type 0
  IsFound query values =
      (lower (trim query) ≡ [])
      ⊎ ((value : JsString) × In value values × Contains (lower value) (lower (trim query)))

  -- `!q || values.some(…)`
  unfoldable pub is_match : (query : JsString) → List JsString → Bool
  is_match query values = not (truthy (normalized query)) || some_includes (normalized query) values

  some_includes_iff :
      (q : JsString) (values : List JsString)
      → (some_includes q values ≡ true)
        ↔ ((value : JsString) × In value values × Contains (lower value) q)
  unfolding some_includes
  some_includes_iff q values = (
    λ h.
        let (value, m, t) = (any_iff _ values).0 h in
        (value, m, (includes_iff (lower value) q).0 t),
    λ (value, m, c). (any_iff _ values).1 (value, m, (includes_iff (lower value) q).1 c),
  )

  text-cases : (s : JsString) → (s ≡ []) ⊎ (truthy s ≡ true)
  text-cases [] = inl refl
  text-cases (u ∷ s) = inr refl

  pub is_match_iff :
      (query : JsString) (values : List JsString)
      → (is_match query values ≡ true) ↔ IsFound query values
  unfolding is_match normalized
  is_match_iff query values = elim (text-cases (lower (trim query))) [
    | inl blank ↦ (λ _. inl blank, λ _. rw blank refl)
    | inr given ↦ (λ h. inr ((some_includes_iff _ values).0 (there given h)), λ h. back given h)
  ]
    where
      there :
          truthy (lower (trim query)) ≡ true
          → (not (truthy (lower (trim query))) || some_includes (lower (trim query)) values) ≡ true
          → some_includes (lower (trim query)) values ≡ true
      there given h = ground arith

      back :
          truthy (lower (trim query)) ≡ true
          → IsFound query values
          → (not (truthy (lower (trim query))) || some_includes (lower (trim query)) values) ≡ true
      back given (inl blank) = absurd (cc (rw blank at given))
      back given (inr found) = let h = (some_includes_iff _ values).1 found in ground arith

  -- `q ? rows.filter(row => texts(row).some(…)) : rows`
  unfoldable pub searched :
      {A : Type 0} → (texts : A → List JsString) → (query : JsString) → List A → List A
  searched texts query rows =
      if truthy (normalized query)
      then keep_if (λ row. some_includes (normalized query) (texts row)) rows
      else rows

  keep_all : {A : Type 0} (rows : List A) → keep_if (λ _. true) rows ≡ rows
  keep_all [] = refl
  keep_all (row ∷ rows) = ap (row ∷◌) (keep_all rows)

  pub searched-eq-keep_if :
      {A : Type 0} (texts : A → List JsString) (query : JsString) (rows : List A)
      → searched texts query rows ≡ keep_if (λ row. is_match query (texts row)) rows
  unfolding searched is_match
  searched-eq-keep_if texts query rows = elim (Bool-cases (truthy (normalized query))) [
    | inl given ↦ rw given refl
    | inr blank ↦ rw blank (sym (keep_all rows))
  ]

  pub In-searched :
      {A : Type 0} (texts : A → List JsString) (query : JsString) (rows : List A) (row : A)
      → In row (searched texts query rows) ↔ (In row rows × IsFound query (texts row))
  In-searched texts query rows row = rw (searched-eq-keep_if texts query rows) (
    λ h. let (m, t) = (In-keep_if _ rows row).0 h in (m, (is_match_iff query (texts row)).0 t),
    λ (m, t). (In-keep_if _ rows row).1 (m, (is_match_iff query (texts row)).1 t),
  )
