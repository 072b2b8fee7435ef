-- ===== src/Js/Result.antt =====
-- Exceptions as values. A thrown value carries its message; what the program catches it discards.
use logi_track.Base.{◌≡◌, refl, Option, none, some}
use logi_track.Js.Text.{JsString}

pub data Result {ℓ} (A : Type ℓ) : Type ℓ where
  ok : A → Result A
  thrown : JsString → Result A

infixl 5 ◌>>=◌
abbrev pub ◌>>=◌ {ℓ κ} : {A : Type ℓ} {B : Type κ} → Result A → (A → Result B) → Result B
ok a >>= f = f a
thrown e >>= f = thrown e

-- `try { … } catch { … }` around a computation with no other effect
abbrev pub caught {ℓ} : {A : Type ℓ} → Result A → Option A
caught (ok a) = some a
caught (thrown e) = none

module _ {ℓ κ} {A : Type ℓ} {B : Type κ} where
  -- A chain that ends well has a first value from which the rest goes on.
  pub >>=-eq-ok :
      (r : Result A) (next : A → Result B) {found : B}
      → (r >>= next) ≡ ok found
      → (first : A) × (r ≡ ok first) × (next first ≡ ok found)
  >>=-eq-ok (thrown e) next h = cc
  >>=-eq-ok (ok first) next h = (first, refl, h)

pub caught-eq-some {ℓ} : {A : Type ℓ} (m : Result A) {a : A} → caught m ≡ some a → m ≡ ok a
caught-eq-some (ok b) h = cc
caught-eq-some (thrown e) h = cc
