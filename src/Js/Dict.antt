-- ===== src/Js/Dict.antt =====
-- JavaScript's `Map`: entries in order of insertion, the last value set for a key wins.
use logi_track.Base.{
  ◌≡◌, refl, Bool, true, false, Option, none, some, List, [], ◌∷◌, map, arith, Eq, ◌==◌, eq_iff,
  if◌then◌else◌,
}

abbrev pub Dict {ℓ κ} : Type ℓ → Type κ → Type (ℓ ⊔ κ)
Dict K V = List (K × V)

module _ {ℓ κ} {K : Type ℓ} {V : Type κ} ⦃e : Eq K⦄ where
  unfoldable pub get : Dict K V → K → Option V
  get [] k = none
  get ((j, v) ∷ d) k = if j == k then some v else get d k

  unfoldable pub has : Dict K V → K → Bool
  has [] k = false
  has ((j, v) ∷ d) k = if j == k then true else has d k

  -- A key that is there keeps its place.
  unfoldable pub set : Dict K V → K → V → Dict K V
  set [] k v = (k, v) ∷ []
  set ((j, w) ∷ d) k v = let rest = (j, w) ∷ set d k v in if j == k then (k, v) ∷ d else rest

  unfoldable pub delete : Dict K V → K → Dict K V
  delete [] k = []
  delete ((j, w) ∷ d) k = let rest = (j, w) ∷ delete d k in if j == k then d else rest

  -- `new Map(entries)`, from a map that holds the entries so far
  unfoldable pub add_entries : Dict K V → List (K × V) → Dict K V
  add_entries d [] = d
  add_entries d ((k, v) ∷ es) = add_entries (set d k v) es

  pub get-set :
      (d : Dict K V) (k j : K) (v : V) → get (set d k v) j ≡ (if k == j then some v else get d j)
  unfolding get set
  get-set [] k j v = refl
  get-set ((i, w) ∷ d) k j v = ground (arith, eq_iff i k, eq_iff i j, eq_iff k j, get-set d k j v)

  pub has-set :
      (d : Dict K V) (k j : K) (v : V) → has (set d k v) j ≡ (if k == j then true else has d j)
  unfolding has set
  has-set [] k j v = refl
  has-set ((i, w) ∷ d) k j v = ground (arith, eq_iff i k, eq_iff i j, eq_iff k j, has-set d k j v)

abbrev pub keys {ℓ κ} : {K : Type ℓ} {V : Type κ} → Dict K V → List K
keys d = map (λ p. p.0) d

abbrev pub values {ℓ κ} : {K : Type ℓ} {V : Type κ} → Dict K V → List V
values d = map (λ p. p.1) d
