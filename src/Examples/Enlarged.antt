-- ===== src/Examples/Enlarged.antt =====
-- A page with the map, of which the heading and the panel beside the map are hidden.
use logi_track.Base.{
  IsOnce, ℕ, zero, suc, ◌<◌, ◌≡◌, refl, subst, inl, inr, true, false, none, List, [], ◌∷◌, ◌==◌,
  nat_eq, any, if◌then◌else◌, arith, All, In,
}
use logi_track.Fleet.Background.{
  Attributes, Tree, out_of_reach, disable, disable_all, climb, enlarge, restore,
}
use logi_track.Fleet.Background.Branch.{behind}
use logi_track.Fleet.Background.Reach.{enlarge_restores}

-- The document 0 holds the body 1, that the main part 2 and the heading 4, and that the map 3 and the panel 5.
abbrev children : ℕ → List ℕ
children zero = 1 ∷ []
children (suc zero) = 2 ∷ 4 ∷ []
children (suc (suc zero)) = 3 ∷ 5 ∷ []
children (suc (suc (suc _))) = []

abbrev height : ℕ → ℕ
height zero = 3
height (suc zero) = 2
height (suc (suc zero)) = 1
height (suc (suc (suc _))) = 0

abbrev tree : Tree
tree = record { children = children; is_html_element = λ _. true; body = 1 }

abbrev branch : List ℕ
branch = 3 ∷ 2 ∷ 1 ∷ 0 ∷ []

abbrev page : ℕ → Attributes
page _ = record { inert = false; aria_hidden = none }

children-IsOnce : (p : ℕ) → IsOnce (children p)
children-IsOnce zero = ground arith
children-IsOnce (suc zero) = ground arith
children-IsOnce (suc (suc zero)) = ground arith
children-IsOnce (suc (suc (suc _))) = tt

one_parent : (p q e : ℕ) → In e (children p) → In e (children q) → p ≡ q
one_parent zero zero e h k = refl
one_parent (suc zero) (suc zero) e h k = refl
one_parent (suc (suc zero)) (suc (suc zero)) e h k = refl
one_parent zero (suc zero) e h k = ground arith
one_parent zero (suc (suc zero)) e h k = ground arith
one_parent (suc zero) zero e h k = ground arith
one_parent (suc zero) (suc (suc zero)) e h k = ground arith
one_parent (suc (suc zero)) zero e h k = ground arith
one_parent (suc (suc zero)) (suc zero) e h k = ground arith
one_parent zero (suc (suc (suc _))) e h k = elim k [ ]
one_parent (suc zero) (suc (suc (suc _))) e h k = elim k [ ]
one_parent (suc (suc zero)) (suc (suc (suc _))) e h k = elim k [ ]
one_parent (suc (suc (suc _))) q e h k = elim h [ ]

higher : (p e : ℕ) → In e (children p) → height e < height p
higher zero e (inl same) = subst (λ x. height x < 3) same (omega arith)
higher (suc zero) e (inl same) = subst (λ x. height x < 2) same (omega arith)
higher (suc zero) e (inr (inl same)) = subst (λ x. height x < 2) same (omega arith)
higher (suc (suc zero)) e (inl same) = subst (λ x. height x < 1) same (omega arith)
higher (suc (suc zero)) e (inr (inl same)) = subst (λ x. height x < 1) same (omega arith)
higher zero e (inr none') = elim none' [ ]
higher (suc zero) e (inr (inr none')) = elim none' [ ]
higher (suc (suc zero)) e (inr (inr none')) = elim none' [ ]
higher (suc (suc (suc _))) e none' = elim none' [ ]

enlarge_restores_example :
    ((enlarge tree branch page).page 4
      ≡ (if any (λ x. x == 4) (behind tree branch) then out_of_reach else page 4))
    × All (λ a. (enlarge tree branch page).page a ≡ page a) branch
    × (restore (enlarge tree branch page).disabled (enlarge tree branch page).page 4 ≡ page 4)
enlarge_restores_example =
    enlarge_restores tree height branch page 4 (children-IsOnce, one_parent, higher)
      (inl refl, (inl refl, (inl refl, tt)))

heading_and_panel :
    ((enlarge tree branch page).page 4 ≡ out_of_reach)
    × ((enlarge tree branch page).page 5 ≡ out_of_reach)
unfolding enlarge climb disable_all disable
heading_and_panel = (refl, refl)
