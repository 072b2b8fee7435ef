-- ===== src/Console/Maps.antt =====
-- Maps from ids without a key twice: lemmas for the rows of web/app/console/page.tsx.
use logi_track.Base.{
  ◌≡◌, refl, sym, subst, append_assoc, append-nil, eq_refl, true, ◌∙◌, ap, false, Option, none,
  some, [], ◌∷◌, ◌++◌, arith, ◌==◌, nat_eq, list_eq, eq_iff, Bool-cases, inl, inr,
}
use logi_track.Js.Text.{JsString}
use logi_track.Js.Dict.{Dict, get, has, set, add_entries, get-set, has-set}

-- The first of two that is there.
abbrev pub or_else {ℓ} : {A : Type ℓ} → Option A → Option A → Option A
or_else (some a) b = some a
or_else none b = b

-- No key twice.
abbrev pub IsMap {ℓ} : {A : Type ℓ} → Dict JsString A → Type 0
IsMap [] = Unit {0}
IsMap ((k, v) ∷ d) = (has d k ≡ false) × IsMap d

module _ {ℓ} {A : Type ℓ} where
  pub get-of-not-has : (d : Dict JsString A) (k : JsString) → has d k ≡ false → get d k ≡ none
  unfolding get has
  get-of-not-has [] k h = refl
  get-of-not-has ((j, v) ∷ d) k h = ground (arith, get-of-not-has d k)

  pub set-IsMap : (d : Dict JsString A) (k : JsString) (v : A) → IsMap d → IsMap (set d k v)
  unfolding set has
  set-IsMap [] k v h = (refl, tt)
  set-IsMap ((j, w) ∷ d) k v h = elim (Bool-cases (j == k)) [
    | inl same ↦ rw same (rw ((eq_iff j k).0 same) at h.0, h.1)
    | inr differs ↦
        rw differs
          (ground (arith, has-set d k j v, h.0, eq_iff j k, eq_iff k j), set-IsMap d k v h.1)
  ]

  pub add_entries-IsMap : (d es : Dict JsString A) → IsMap d → IsMap (add_entries d es)
  unfolding add_entries
  add_entries-IsMap d [] h = h
  add_entries-IsMap d ((k, v) ∷ es) h = add_entries-IsMap (set d k v) es (set-IsMap d k v h)

  pub add_entries-append :
      (d es fs : Dict JsString A) → add_entries d (es ++ fs) ≡ add_entries (add_entries d es) fs
  unfolding add_entries
  add_entries-append d [] fs = refl
  add_entries-append d ((k, v) ∷ es) fs = add_entries-append (set d k v) es fs

  -- Entries without a key twice override what is there.
  pub get-add_entries :
      (d es : Dict JsString A) (k : JsString)
      → IsMap es
      → get (add_entries d es) k ≡ or_else (get es k) (get d k)
  unfolding add_entries get
  get-add_entries d [] k h = refl
  get-add_entries d ((j, v) ∷ es) k h = elim (Bool-cases (j == k)) [
    | inl same ↦
        let absent : get es k ≡ none = get-of-not-has es k (rw (← (eq_iff j k).0 same) h.0) in
        rw same (
          get-add_entries (set d j v) es k h.1
          ∙ ap (λ o. or_else o (get (set d j v) k)) absent
          ∙ get-set d j k v
          ∙ rw same refl)
    | inr differs ↦ rw differs (
        get-add_entries (set d j v) es k h.1
        ∙ ap (or_else (get es k)) (get-set d j k v ∙ rw differs refl))
  ]

  has-appended : (d es : Dict JsString A) (k : JsString) (v : A) → has (d ++ (k, v) ∷ es) k ≡ true
  unfolding has
  has-appended [] es k v = rw (eq_refl k) refl
  has-appended ((j, w) ∷ d) es k v = ground (arith, has-appended d es k v)

  -- Setting a key that is missing adds it at the end.
  set-fresh :
      (d es : Dict JsString A) (k : JsString) (v : A)
      → IsMap (d ++ (k, v) ∷ es)
      → set d k v ≡ d ++ (k, v) ∷ []
  unfolding set
  set-fresh [] es k v h = refl
  set-fresh ((j, w) ∷ d) es k v h = elim (Bool-cases (j == k)) [
    | inl same ↦
        (let there = has-appended d es k v in
          let absent = subst (λ i. has (d ++ (k, v) ∷ es) i ≡ false) ((eq_iff j k).0 same) h.0 in
          absurd (cc))
    | inr differs ↦ rw differs (ap ((j, w) ∷◌) (set-fresh d es k v h.1))
  ]

  -- The entries of a map, added to another whose keys it does not have, follow it.
  pub add_entries-fresh : (d es : Dict JsString A) → IsMap (d ++ es) → add_entries d es ≡ d ++ es
  unfolding add_entries
  add_entries-fresh d [] h = sym (append-nil d)
  add_entries-fresh d ((k, v) ∷ es) h =
      let whole = append_assoc d ((k, v) ∷ []) es in
      rw (set-fresh d es k v h)
        (add_entries-fresh (d ++ (k, v) ∷ []) es (subst IsMap (sym whole) h) ∙ whole)
