-- ===== src/Panels/Shown/Reach.antt =====
-- Pressing the button of a footer again and again.
use native.Mathlib.Nat.{div-add-mod', mod-lt, suc-mul, mul-le-mul_right}
use logi_track.Base.{
  ℕ, zero, suc, ◌+◌, ◌-◌, ◌*◌, ◌/◌, ◌%◌, ◌≤◌, ◌<◌, ◌≡◌, refl, min, List, [], ◌∷◌, arith, take,
  length, length-take, ap,
}
use logi_track.Panels.Shown.{footer_pressed, presses, shown_rows}

take_all : {A : Type 0} (n : ℕ) (rows : List A) → length rows ≤ n → take n rows ≡ rows
take_all zero [] h = refl
take_all (suc n) [] h = refl
take_all zero (row ∷ rows) h = absurd (omega arith)
take_all (suc n) (row ∷ rows) h = ap (row ∷◌) (take_all n rows (omega arith))

module _ (step total : ℕ) where
  -- While rows are left, each press shows a step more of them.
  presses_lem :
      (n current : ℕ)
      → 0 < step
      → current ≤ total
      → current + n * step < total + step
      → presses step total n current ≡ min (current + n * step) total
  unfolding presses footer_pressed
  presses_lem zero current s h k = omega arith
  presses_lem (suc n) current s h k =
      ground (arith, suc-mul n step, presses_lem n (min (current + step) total) s)

  -- The number of presses that a list of this many rows takes from its first step on
  abbrev pub rounds : ℕ
  rounds = (total - 1) / step

presses-suc :
    (step total n current : ℕ)
    → presses step total (suc n) current
      ≡ footer_pressed step total (min (presses step total n current) total)
unfolding presses
presses-suc step total zero current = refl
presses-suc step total (suc n) current =
    presses-suc step total n (footer_pressed step total (min current total))

module _ (step total : ℕ) (s : 0 < step) (h : step < total) where
  rounds_end :
      (rounds step total * step + (total - 1) % step ≡ total - 1) × ((total - 1) % step < step)
  rounds_end = (div-add-mod' (total - 1) step, mod-lt (total - 1) s)

  after_rounds : presses step total (rounds step total) step ≡ total
  after_rounds = omega (
    arith,
    presses_lem step total (rounds step total) step s (omega arith) (omega (arith, rounds_end)),
    rounds_end,
  )

  before_rounds : (n : ℕ) → n < rounds step total → presses step total n step < total
  before_rounds n k =
      let below : suc n * step ≤ rounds step total * step = mul-le-mul_right step k in
      omega (
        arith,
        presses_lem step total n step s (omega arith)
            (omega (arith, suc-mul n step, below, rounds_end)),
        suc-mul n step,
        below,
        rounds_end,
      )

  pressed_back : presses step total (suc (rounds step total)) step ≡ step
  unfolding footer_pressed
  pressed_back = rw (presses-suc step total (rounds step total) step, after_rounds) (ground arith)

-- From the first step of a list that is longer, after one press for every further step, whole or not,
-- all rows are on show, and not before; the next press leaves the first step again. The step is positive.
pub presses_reach_all :
    {A : Type 0} (step : ℕ) (rows : List A)
    → 0 < step
    → step < length rows
    → (shown_rows (presses step (length rows) (rounds step (length rows)) step) rows ≡ rows)
      × ((n : ℕ)
          → n < rounds step (length rows)
          → length (shown_rows (presses step (length rows) n step) rows) < length rows)
      × (presses step (length rows) (suc (rounds step (length rows))) step ≡ step)
unfolding shown_rows
presses_reach_all step rows s h = (
  take_all _ rows (omega (arith, after_rounds step (length rows) s h)),
  λ n k. omega (
    arith,
    length-take (presses step (length rows) n step) rows,
    before_rounds step (length rows) s h n k,
  ),
  pressed_back step (length rows) s h,
)
