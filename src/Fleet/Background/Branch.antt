-- ===== src/Fleet/Background/Branch.antt =====
-- The elements behind the enlarged map: each is passed once, and none is around the map.
use logi_track.Base.{
  ℕ, ◌≡◌, refl, sym, ap, ◌∙◌, subst, inl, inr, List, [], ◌∷◌, ◌++◌, ◌<◌, ◌==◌, nat_eq, eq_iff,
  if◌then◌else◌, arith, In, IsOnce, in_append, keep_if-IsOnce, append-IsOnce, In-keep_if,
  Bool-cases,
}
use logi_track.Fleet.Background.{Tree, Background, disable, disable_all, siblings, climb}

-- A tree: no parent has a child twice, no child has two parents, and a parent is higher than its children.
abbrev pub IsTree : (ℕ → ℕ) → (ℕ → List ℕ) → Type 0
IsTree height children =
    ((p : ℕ) → IsOnce (children p))
    × ((p q e : ℕ) → In e (children p) → In e (children q) → p ≡ q)
    × ((p e : ℕ) → In e (children p) → height e < height p)

-- Each element of the list is a child of the next.
abbrev pub IsBranch : (ℕ → List ℕ) → List ℕ → Type 0
IsBranch children [] = Unit {0}
IsBranch children (b ∷ []) = Unit {0}
IsBranch children (b ∷ p ∷ rest) = In b (children p) × IsBranch children (p ∷ rest)

-- The elements beside the branch of the map, at each height up to the body
unfoldable pub behind : Tree → List ℕ → List ℕ
behind tree [] = []
behind tree (modal_branch ∷ []) = []
behind tree (modal_branch ∷ parent ∷ rest) =
    let next = behind tree (parent ∷ rest) in
    if modal_branch == tree.body then [] else siblings tree modal_branch parent ++ next

disable_all-append :
    (xs ys : List ℕ) (s : Background) → disable_all (xs ++ ys) s ≡ disable_all ys (disable_all xs s)
unfolding disable_all
disable_all-append [] ys s = refl
disable_all-append (x ∷ xs) ys s = disable_all-append xs ys (disable x s)

pub climb-eq-disable_all :
    (tree : Tree) (ancestors : List ℕ) (s : Background)
    → climb tree ancestors s ≡ disable_all (behind tree ancestors) s
unfolding climb behind disable_all
climb-eq-disable_all tree [] s = refl
climb-eq-disable_all tree (b ∷ []) s = refl
climb-eq-disable_all tree (b ∷ p ∷ rest) s = elim (Bool-cases (b == tree.body)) [
  | inl top ↦ rw top refl
  | inr below ↦ rw below (
      climb-eq-disable_all tree (p ∷ rest) (disable_all (siblings tree b p) s)
      ∙ sym (disable_all-append (siblings tree b p) (behind tree (p ∷ rest)) s))
]

in_siblings : (tree : Tree) (b p e : ℕ) → In e (siblings tree b p) → In e (tree.children p)
in_siblings tree b p e h = ((In-keep_if _ (tree.children p) e).0 h).0

in_behind :
    (tree : Tree) (b : ℕ) (rest : List ℕ) (e : ℕ)
    → In e (behind tree (b ∷ rest))
    → (q : ℕ) × In q rest × In e (tree.children q)
unfolding behind
in_behind tree b [] e h = elim h [ ]
in_behind tree b (p ∷ rest) e h = elim (Bool-cases (b == tree.body)) [
  | inl top ↦ elim (rw top at h) [ ]
  | inr below ↦ (elim (in_append (siblings tree b p) (behind tree (p ∷ rest)) e (rw below at h)) [
    | inl here ↦ (p, inl refl, in_siblings tree b p e here)
    | inr later ↦ let (q, m, c) = in_behind tree p rest e later in (q, inr m, c)
  ])
]

above :
    (height : ℕ → ℕ) (tree : Tree) (b : ℕ) (rest : List ℕ)
    → IsTree height tree.children
    → IsBranch tree.children (b ∷ rest)
    → (e : ℕ) → In e rest
    → height b < height e
above height tree b [] is_tree branch e h = elim h [ ]
above height tree b (p ∷ rest) is_tree branch e (inl same) =
    let lower = is_tree.2 p b branch.0 in subst (λ x. height b < height x) same lower
above height tree b (p ∷ rest) is_tree branch e (inr later) =
    let lower = is_tree.2 p b branch.0 in
    let higher = above height tree p rest is_tree branch.1 e later in omega arith

not_above :
    (height : ℕ → ℕ) (tree : Tree) (b : ℕ) (rest : List ℕ)
    → IsTree height tree.children
    → IsBranch tree.children (b ∷ rest)
    → ¬ In b rest
not_above height tree b rest is_tree branch h =
    let higher = above height tree b rest is_tree branch b h in omega arith

pub behind-IsOnce :
    (height : ℕ → ℕ) (tree : Tree) (ancestors : List ℕ)
    → IsTree height tree.children
    → IsBranch tree.children ancestors
    → IsOnce (behind tree ancestors)
unfolding behind
behind-IsOnce height tree [] is_tree branch = tt
behind-IsOnce height tree (b ∷ []) is_tree branch = tt
behind-IsOnce height tree (b ∷ p ∷ rest) is_tree branch = elim (Bool-cases (b == tree.body)) [
  | inl top ↦ rw top tt
  | inr below ↦ rw below (
      append-IsOnce (siblings tree b p) (behind tree (p ∷ rest))
        (keep_if-IsOnce _ (tree.children p) (is_tree.0 p))
        (behind-IsOnce height tree (p ∷ rest) is_tree branch.1)
        (λ e here later.
          let (q, m, c) = in_behind tree p rest e later in
          not_above height tree p rest is_tree branch.1
            (subst (λ r. In r rest) (sym (is_tree.1 p q e (in_siblings tree b p e here) c)) m)))
]

pub not_behind :
    (height : ℕ → ℕ) (tree : Tree) (ancestors : List ℕ)
    → IsTree height tree.children
    → IsBranch tree.children ancestors
    → (e : ℕ) → In e ancestors
    → ¬ In e (behind tree ancestors)
unfolding behind
not_behind height tree [] is_tree branch e h m = elim h [ ]
not_behind height tree (b ∷ []) is_tree branch e h m = elim m [ ]
not_behind height tree (b ∷ p ∷ rest) is_tree branch e h m = elim (Bool-cases (b == tree.body)) [
  | inl top ↦ elim (rw top at m) [ ]
  | inr below ↦ (elim (in_append (siblings tree b p) (behind tree (p ∷ rest)) e (rw below at m)) [
    | inl here ↦ (elim h [
      | inl same ↦
          let other = ((In-keep_if _ (tree.children p) e).0 here).1 in
          let itself = (eq_iff e b).1 (sym same) in absurd (ground arith)
      | inr (inl same) ↦
          let lower = is_tree.2 p e (in_siblings tree b p e here) in
          let itself = ap height same in absurd (omega arith)
      | inr (inr later) ↦
          let lower = is_tree.2 p e (in_siblings tree b p e here) in
          let higher = above height tree p rest is_tree branch.1 e later in absurd (omega arith)
    ])
    | inr there ↦ (elim h [
      | inl same ↦
          let (q, later, c) = in_behind tree p rest e there in
          let child = subst (λ x. In x (tree.children p)) same branch.0 in
          not_above height tree p rest is_tree branch.1
            (subst (λ r. In r rest) (sym (is_tree.1 p q e child c)) later)
      | inr higher ↦ not_behind height tree (p ∷ rest) is_tree branch.1 e higher there
    ])
  ])
]
