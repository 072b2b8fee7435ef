-- ===== src/Fleet/Background/Reach.antt =====
-- What the enlarged map puts out of reach, and that its cleanup undoes it.
use logi_track.Base.{
  IsOnce, ℕ, ◌≡◌, refl, sym, ap, ◌∙◌, subst, ◌⊎◌, inl, inr, true, false, List, [], ◌∷◌, ◌++◌, ◌==◌,
  nat_eq, eq_iff, eq_refl, any, any_iff, if◌then◌else◌, All, In, Bool-cases, append_assoc,
  append-nil,
}
use logi_track.Fleet.Background.{
  Attributes, Tree, Background, out_of_reach, assign, disable, disable_all, enlarge, restore,
}
use logi_track.Fleet.Background.Branch.{
  IsTree, IsBranch, behind, behind-IsOnce, not_behind, climb-eq-disable_all,
}

assign_other :
    (x e : ℕ) (a : Attributes) (page : ℕ → Attributes) → ¬ (x ≡ e) → assign x a page e ≡ page e
assign_other x e a page other = elim (Bool-cases (e == x)) [
  | inl same ↦ absurd (other (sym ((eq_iff e x).0 same)))
  | inr apart ↦ rw apart refl
]

assign_same : (x e : ℕ) (a : Attributes) (page : ℕ → Attributes) → x ≡ e → assign x a page e ≡ a
assign_same x e a page same = rw ((eq_iff e x).1 (sym same)) refl

disable_all_outside :
    (xs : List ℕ) (s : Background) (e : ℕ) → ¬ In e xs → (disable_all xs s).page e ≡ s.page e
unfolding disable_all disable
disable_all_outside [] s e out = refl
disable_all_outside (x ∷ xs) s e out =
    disable_all_outside xs (disable x s) e (λ h. out (inr h))
    ∙ assign_other x e out_of_reach s.page (λ h. out (inl h))

disable_all_inside :
    (xs : List ℕ) (s : Background) (e : ℕ)
    → In e xs ⊎ (s.page e ≡ out_of_reach)
    → (disable_all xs s).page e ≡ out_of_reach
unfolding disable_all disable
disable_all_inside [] s e (inl h) = elim h [ ]
disable_all_inside [] s e (inr gone) = gone
disable_all_inside (x ∷ xs) s e (inl (inl same)) =
    disable_all_inside xs (disable x s) e (inr (assign_same x e out_of_reach s.page same))
disable_all_inside (x ∷ xs) s e (inl (inr h)) = disable_all_inside xs (disable x s) e (inl h)
disable_all_inside (x ∷ xs) s e (inr gone) =
    disable_all_inside xs (disable x s) e
      (inr (elim (Bool-cases (e == x)) [ inl same ↦ rw same refl | inr apart ↦ rw apart gone ]))

abbrev records : (ℕ → Attributes) → List ℕ → List (ℕ × Attributes)
records page [] = []
records page (x ∷ xs) = (x, page x) ∷ records page xs

disable_all-records :
    (page : ℕ → Attributes) (xs : List ℕ) (s : Background)
    → IsOnce xs
    → ((e : ℕ) → In e xs → s.page e ≡ page e)
    → (disable_all xs s).disabled ≡ s.disabled ++ records page xs
unfolding disable_all disable
disable_all-records page [] s once agree = sym (append-nil s.disabled)
disable_all-records page (x ∷ xs) s once agree =
    disable_all-records page xs (disable x s) once.1 (λ e h.
      assign_other x e out_of_reach s.page (λ same. once.0 (subst (λ y. In y xs) (sym same) h))
      ∙ agree e (inr h))
    ∙ append_assoc s.disabled ((x, s.page x) ∷ []) (records page xs)
    ∙ ap (λ a. s.disabled ++ (x, a) ∷ records page xs) (agree x (inl refl))

restore-records :
    (page : ℕ → Attributes) (xs : List ℕ) (now : ℕ → Attributes) (e : ℕ)
    → In e xs ⊎ (now e ≡ page e)
    → restore (records page xs) now e ≡ page e
unfolding restore
restore-records page [] now e (inl h) = elim h [ ]
restore-records page [] now e (inr same) = same
restore-records page (x ∷ xs) now e (inl (inr h)) =
    restore-records page xs (assign x (page x) now) e (inl h)
restore-records page (x ∷ xs) now e (inl (inl same)) =
    restore-records page xs (assign x (page x) now) e
      (inr (assign_same x e (page x) now same ∙ ap page same))
restore-records page (x ∷ xs) now e (inr agrees) =
    restore-records page xs (assign x (page x) now) e (
      inr (elim (Bool-cases (e == x)) [
        | inl same ↦
            assign_same x e (page x) now (sym ((eq_iff e x).0 same))
            ∙ ap page (sym ((eq_iff e x).0 same))
        | inr apart ↦ rw apart agrees
      ]))

around_stays :
    (tree : Tree) (height : ℕ → ℕ) (ancestors xs : List ℕ) (s : Background)
    → ((e : ℕ) → In e xs → ¬ In e (behind tree ancestors))
    → All (λ e. (disable_all (behind tree ancestors) s).page e ≡ s.page e) xs
around_stays tree height ancestors [] s out = tt
around_stays tree height ancestors (e ∷ rest) s out = (
  disable_all_outside (behind tree ancestors) s e (out e (inl refl)),
  around_stays tree height ancestors rest s (λ e' h. out e' (inr h)),
)

-- Where the page is a tree and the list is the branch from the map upwards: while the map is enlarged,
-- exactly the elements beside the branch, up to the body, are inert and hidden, any other has the
-- attributes that it had, the map and what it stands in among them; and after the cleanup every element
-- has its own attributes again, as they were before.
pub enlarge_restores :
    (tree : Tree) (height : ℕ → ℕ) (ancestors : List ℕ) (page : ℕ → Attributes) (e : ℕ)
    → IsTree height tree.children
    → IsBranch tree.children ancestors
    → ((enlarge tree ancestors page).page e
        ≡ (if any (λ x. x == e) (behind tree ancestors) then out_of_reach else page e))
      × All (λ a. (enlarge tree ancestors page).page a ≡ page a) ancestors
      × (restore (enlarge tree ancestors page).disabled (enlarge tree ancestors page).page e
          ≡ page e)
unfolding enlarge
enlarge_restores tree height ancestors page e is_tree branch =
    let start : Background = record { disabled = []; page = page } in
    let once = behind-IsOnce height tree ancestors is_tree branch in
    rw
      (
        climb-eq-disable_all tree ancestors start,
        disable_all-records page (behind tree ancestors) start once (λ a h. refl),
      )
      (
        reached start,
        around_stays tree height ancestors ancestors start
            (λ a h. not_behind height tree ancestors is_tree branch a h),
        restore-records page (behind tree ancestors) _ e (settled start refl),
      )
  where
    is_behind : any (λ x. x == e) (behind tree ancestors) ≡ true → In e (behind tree ancestors)
    is_behind found =
        let (x, m, same) = (any_iff (λ x. x == e) (behind tree ancestors)).0 found in
        subst (λ y. In y (behind tree ancestors)) ((eq_iff x e).0 same) m

    not_found : any (λ x. x == e) (behind tree ancestors) ≡ false → ¬ In e (behind tree ancestors)
    not_found none' h =
        let found = (any_iff (λ x. x == e) (behind tree ancestors)).1 (e, h, eq_refl e) in
        absurd (cc)

    reached :
        (s : Background)
        → (disable_all (behind tree ancestors) s).page e
          ≡ (if any (λ x. x == e) (behind tree ancestors) then out_of_reach else s.page e)
    reached s = elim (Bool-cases (any (λ x. x == e) (behind tree ancestors))) [
      | inl found ↦
          rw found (disable_all_inside (behind tree ancestors) s e (inl (is_behind found)))
      | inr none' ↦ rw none' (disable_all_outside (behind tree ancestors) s e (not_found none'))
    ]

    settled :
        (s : Background)
        → s.page e ≡ page e
        → In e (behind tree ancestors) ⊎ ((disable_all (behind tree ancestors) s).page e ≡ page e)
    settled s same = elim (Bool-cases (any (λ x. x == e) (behind tree ancestors))) [
      | inl found ↦ inl (is_behind found)
      | inr none' ↦ inr (disable_all_outside (behind tree ancestors) s e (not_found none') ∙ same)
    ]
