-- ===== src/Panels/Shown/Count.antt =====
-- Bounds of the counts of Panels/Shown.
use logi_track.Base.{ℕ, ◌≤◌, ◌≡◌, min, max, List, [], ◌∷◌, arith}
use logi_track.Panels.Shown.{
  clamped, recovery_clamped, footer_pressed, count_pressed, Shown, Change, filtered, replaced,
  pressed, change, changes, first_shown,
}

-- The two ways in which the panels clamp a count, and the two ways in which a footer's button moves it
-- on from what is on show, give the same number for every step, number of rows and count.
pub counts_agree :
    (step total current : ℕ)
    → (clamped step total current ≡ recovery_clamped step total current)
      × (count_pressed step total (min current total) current
          ≡ footer_pressed step total (min current total))
unfolding clamped recovery_clamped footer_pressed count_pressed
counts_agree step total current = ground arith

-- A panel shows a step of rows at least, and no more than the rows that it watches or a step.
pub record IsShown (step : ℕ) (s : Shown) : Type 0 where
  pub at_least : step ≤ s.current
  pub at_most : s.current ≤ max s.watched step
  pub fits : s.total ≤ s.watched

-- The rows that pass the filters are some of those that the panel watches.
abbrev pub Fits : List Change → (watched : ℕ) → Type 0
Fits [] w = Unit {0}
Fits (filtered total ∷ cs) w = (total ≤ w) × Fits cs w
Fits (replaced total watched ∷ cs) w = (total ≤ watched) × Fits cs watched
Fits (pressed ∷ cs) w = Fits cs w

changes-IsShown :
    (step : ℕ) (cs : List Change) (s : Shown)
    → Fits cs s.watched
    → IsShown step s
    → IsShown step (changes step cs s)
unfolding changes change clamped count_pressed
changes-IsShown step [] s f h = h
changes-IsShown step (filtered total ∷ cs) s f h =
    changes-IsShown step cs _ f.1
      (record { at_least = omega arith; at_most = omega arith; fits = f.0 })
changes-IsShown step (replaced total watched ∷ cs) s f h =
    changes-IsShown step cs _ f.1
      (record { at_least = omega arith; at_most = omega arith; fits = f.0 })
changes-IsShown step (pressed ∷ cs) s f h = changes-IsShown step cs _ f (record {
  at_least = ground (arith, h.at_least, h.at_most, h.fits);
  at_most = ground (arith, h.at_least, h.at_most, h.fits);
  fits = h.fits;
})

-- Whatever filters, loads and presses follow one another, where the rows that pass the filters are
-- some of the rows that the panel watches: the panel's count is never below its step, nor above
-- the number of rows that it watches or the step, the larger of the two.
pub changes_bounded :
    (step total watched : ℕ) (cs : List Change)
    → total ≤ watched
    → Fits cs watched
    → IsShown step (changes step cs (first_shown step total watched))
unfolding first_shown
changes_bounded step total watched cs e f =
    changes-IsShown step cs _ f (record { at_least = omega arith; at_most = omega arith; fits = e })
