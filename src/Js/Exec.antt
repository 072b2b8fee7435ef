-- ===== src/Js/Exec.antt =====
-- Code that may throw and that reads or writes module state `S`. What was written before a throw stays.
use logi_track.Base.{◌≡◌, refl}
use logi_track.Js.Result.{Result, ok, thrown}

abbrev pub Exec {ℓ} : Type ℓ → Type ℓ → Type ℓ
Exec S A = S → Result A × S

module _ {ℓ} {S A : Type ℓ} where
  -- A computation that leaves the state alone.
  abbrev pub lift : Result A → Exec S A
  lift r s = (r, s)

module _ {ℓ} {S A B : Type ℓ} where
  abbrev pub continue : Result A × S → (A → Exec S B) → Result B × S
  continue (ok a, s) f = f a s
  continue (thrown e, s) f = (thrown e, s)

  infixl 5 ◌>>=◌
  abbrev pub ◌>>=◌ : Exec S A → (A → Exec S B) → Exec S B
  ◌>>=◌ m f s = continue (m s) f

  pub continue-eq-ok :
      (r : Result A × S) (f : A → Exec S B) {b : B}
      → (continue r f).0 ≡ ok b
      → (a : A) × (r.0 ≡ ok a) × ((f a r.1).0 ≡ ok b)
  continue-eq-ok (ok a, s) f h = (a, refl, h)
  continue-eq-ok (thrown e, s) f h = cc

  pub continue-of-ok :
      (r : Result A × S) (f : A → Exec S B) (a : A) → r.0 ≡ ok a → (continue r f).0 ≡ (f a r.1).0
  continue-of-ok (ok b, s) f a h = cc
  continue-of-ok (thrown e, s) f a h = cc
