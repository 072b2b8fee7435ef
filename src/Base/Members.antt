-- ===== src/Base/Members.antt =====
-- Membership by recursion, for lists that the program filters, cuts and puts together.
use Prim.Native.Nat.{ℕ, zero, suc}
use mathlib.Core.Path.{◌≡◌, refl}
use mathlib.Core.Logic.{◌⊎◌, inl, inr, ◌↔◌}
use mathlib.Core.Bool.{Bool, true}
use mathlib.Core.List.{List, [], ◌∷◌, ◌++◌}
use native.Mathlib.Omega.{arith}
use logi_track.Base.Tests.{Bool-cases}
use logi_track.Base.Lists.{any, keep_if, take}

module _ {A : Type 0} where
  abbrev pub In : A → List A → Type 0
  In a [] = ⊥
  In a (x ∷ xs) = (x ≡ a) ⊎ In a xs

  pub In-keep_if :
      (p : A → Bool) (xs : List A) (a : A) → In a (keep_if p xs) ↔ (In a xs × (p a ≡ true))
  In-keep_if p xs a = (there xs, λ h. back xs h.0 h.1)
    where
      there : (xs : List A) → In a (keep_if p xs) → In a xs × (p a ≡ true)
      there [] h = elim h [ ]
      there (x ∷ xs) h = elim (Bool-cases (p x)) [
        | inl kept ↦
            (let h' = rw kept at h in
              elim h' [
                | inl e ↦ (inl e, cc)
                | inr later ↦ let (m, t) = there xs later in (inr m, t)
              ])
        | inr left ↦ let (m, t) = there xs (rw left at h) in (inr m, t)
      ]

      back : (xs : List A) → In a xs → p a ≡ true → In a (keep_if p xs)
      back [] h t = elim h [ ]
      back (x ∷ xs) (inl e) t = let kept : p x ≡ true = cc in rw kept (inl e)
      back (x ∷ xs) (inr later) t = elim (Bool-cases (p x)) [
        | inl kept ↦ rw kept (inr (back xs later t))
        | inr left ↦ rw left (back xs later t)
      ]

  pub any_iff :
      (p : A → Bool) (xs : List A) → (any p xs ≡ true) ↔ ((a : A) × In a xs × (p a ≡ true))
  any_iff p xs = (there xs, λ (a, h, t). back xs a h t)
    where
      there : (xs : List A) → any p xs ≡ true → (a : A) × In a xs × (p a ≡ true)
      there [] h = absurd (cc)
      there (x ∷ xs) h = elim (Bool-cases (p x)) [
        | inl yes' ↦ (x, inl refl, yes')
        | inr no' ↦ let (a, m, t) = there xs (ground arith) in (a, inr m, t)
      ]

      back : (xs : List A) (a : A) → In a xs → p a ≡ true → any p xs ≡ true
      back [] a h t = elim h [ ]
      back (x ∷ xs) a (inl e) t = let here : p x ≡ true = cc in rw here refl
      back (x ∷ xs) a (inr later) t = ground (arith, back xs a later t)

  pub In-take : (n : ℕ) (xs : List A) (a : A) → In a (take n xs) → In a xs
  In-take zero xs a h = elim h [ ]
  In-take (suc n) [] a h = elim h [ ]
  In-take (suc n) (x ∷ xs) a (inl e) = inl e
  In-take (suc n) (x ∷ xs) a (inr later) = inr (In-take n xs a later)

  abbrev pub IsOnce : List A → Type 0
  IsOnce [] = Unit {0}
  IsOnce (x ∷ xs) = (¬ In x xs) × IsOnce xs

  pub in_append : (xs ys : List A) (a : A) → In a (xs ++ ys) → In a xs ⊎ In a ys
  in_append [] ys a h = inr h
  in_append (x ∷ xs) ys a (inl e) = inl (inl e)
  in_append (x ∷ xs) ys a (inr h) = elim (in_append xs ys a h) [
    | inl l ↦ inl (inr l)
    | inr r ↦ inr r
  ]

  pub keep_if-IsOnce : (p : A → Bool) (xs : List A) → IsOnce xs → IsOnce (keep_if p xs)
  keep_if-IsOnce p [] once = tt
  keep_if-IsOnce p (x ∷ xs) once = elim (Bool-cases (p x)) [
    | inl kept ↦ rw kept ((λ h. once.0 ((In-keep_if p xs x).0 h).0), keep_if-IsOnce p xs once.1)
    | inr left ↦ rw left (keep_if-IsOnce p xs once.1)
  ]

  pub append-IsOnce :
      (xs ys : List A) → IsOnce xs → IsOnce ys → ((a : A) → In a xs → ¬ In a ys) → IsOnce (xs ++ ys)
  append-IsOnce [] ys once once' apart = once'
  append-IsOnce (x ∷ xs) ys once once' apart = (
    λ h. elim (in_append xs ys x h) [ inl l ↦ once.0 l | inr r ↦ apart x (inl refl) r ],
    append-IsOnce xs ys once.1 once' (λ a m. apart a (inr m)),
  )
