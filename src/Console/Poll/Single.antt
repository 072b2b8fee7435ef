-- ===== src/Console/Poll/Single.antt =====
-- `pollAfterCompletion` (web/app/console/page.tsx): the states that a poll goes through.
use logi_track.Base.{
  ℕ, ◌+◌, ◌≤◌, ◌≡◌, refl, ◌∙◌, ◌⊎◌, Bool, true, false, Option, none, some, List, [], ◌∷◌, arith,
  ◌==◌, nat_eq, Bool-cases, length, inl, inr, eq_refl,
}
use logi_track.Console.Poll.{
  Poll, PollEvent, settled, fired, stop, begin, poll_after_completion, on_settled, on_fired,
  on_stop, settle_one, advance, advance_all,
}

-- The states that a poll passes through, by `stopped`, `timer`, the pending timers and the tasks that
-- run: a task runs and no timer is pending; the timer that `timer` names is the only one and no task
-- runs; it is stopped, with its last task still running or not.
data Shape : Bool → Option ℕ → List ℕ → ℕ → Type 0 where
  busy : (timer : Option ℕ) → Shape false timer [] 1
  waiting : (h : ℕ) → Shape false (some h) (h ∷ []) 0
  ending : (timer : Option ℕ) → Shape true timer [] 1
  ended : (timer : Option ℕ) → Shape true timer [] 0

abbrev IsSingle : Poll → Type 0
IsSingle s = Shape s.stopped s.timer s.pending s.running

module _ (next_handle begun : ℕ) where
  abbrev at : Bool → Option ℕ → List ℕ → ℕ → Poll
  at stopped timer pending running = record {
    stopped = stopped;
    timer = timer;
    pending = pending;
    next_handle = next_handle;
    running = running;
    begun = begun;
  }

  advance-Shape :
      (e : PollEvent) {stopped : Bool} {timer : Option ℕ} {pending : List ℕ} {running : ℕ}
      → Shape stopped timer pending running
      → IsSingle (advance e (at stopped timer pending running))
  unfolding advance settle_one on_settled on_fired begin on_stop
  advance-Shape settled (busy timer) = waiting next_handle
  advance-Shape settled (waiting h) = waiting h
  advance-Shape settled (ending timer) = ended timer
  advance-Shape settled (ended timer) = ended timer
  advance-Shape (fired handle) (busy timer) = busy timer
  advance-Shape (fired handle) (waiting h) = elim (Bool-cases (h == handle)) [
    | inl same ↦ rw same (busy (some h))
    | inr differs ↦ rw differs (waiting h)
  ]
  advance-Shape (fired handle) (ending timer) = ending timer
  advance-Shape (fired handle) (ended timer) = ended timer
  advance-Shape stop (busy none) = ending none
  advance-Shape stop (busy (some h)) = ending (some h)
  advance-Shape stop (waiting h) = rw (eq_refl h) (ended (some h))
  advance-Shape stop (ending none) = ending none
  advance-Shape stop (ending (some h)) = ending (some h)
  advance-Shape stop (ended none) = ended none
  advance-Shape stop (ended (some h)) = ended (some h)

advance-IsSingle : (e : PollEvent) (s : Poll) → IsSingle s → IsSingle (advance e s)
advance-IsSingle e s h = advance-Shape s.next_handle s.begun e h

advance_all-IsSingle : (es : List PollEvent) (s : Poll) → IsSingle s → IsSingle (advance_all es s)
unfolding advance_all
advance_all-IsSingle [] s h = h
advance_all-IsSingle (e ∷ es) s h = advance_all-IsSingle es (advance e s) (advance-IsSingle e s h)

start-IsSingle : IsSingle poll_after_completion
unfolding poll_after_completion begin
start-IsSingle = busy none

Shape-counts :
    {stopped : Bool} {timer : Option ℕ} {pending : List ℕ} {running : ℕ}
    → Shape stopped timer pending running
    → (running + length pending ≤ 1)
      × (((stopped ≡ false) × (running + length pending ≡ 1)) ⊎ ((stopped ≡ true) × (pending ≡ [])))
Shape-counts (busy timer) = (ground arith, inl (refl, ground arith))
Shape-counts (waiting h) = (ground arith, inl (refl, ground arith))
Shape-counts (ending timer) = (ground arith, inr (refl, refl))
Shape-counts (ended timer) = (ground arith, inr (refl, refl))

-- However the task's ends, the timers and the stop come, the task never runs twice at a time, nor
-- beside a pending timer. Until the stop the poll goes on: the task runs, or one timer is pending to
-- run it. After the stop no timer is pending.
pub polls_one_at_a_time :
    (es : List PollEvent)
    → let s = advance_all es poll_after_completion in
      (s.running + length s.pending ≤ 1)
      × (((s.stopped ≡ false) × (s.running + length s.pending ≡ 1))
          ⊎ ((s.stopped ≡ true) × (s.pending ≡ [])))
polls_one_at_a_time es = Shape-counts (advance_all-IsSingle es poll_after_completion start-IsSingle)

stopped-begun :
    (next_handle begun : ℕ) (e : PollEvent) {stopped : Bool} {timer : Option ℕ} {pending : List ℕ}
    {running : ℕ}
    → Shape stopped timer pending running
    → stopped ≡ true
    → let s = advance e (at next_handle begun stopped timer pending running) in
      (s.stopped ≡ true) × (s.begun ≡ begun)
unfolding advance settle_one on_settled on_fired begin on_stop
stopped-begun n b e (busy timer) h = cc
stopped-begun n b e (waiting timer) h = cc
stopped-begun n b settled (ending timer) h = (refl, refl)
stopped-begun n b settled (ended timer) h = (refl, refl)
stopped-begun n b (fired handle) (ending timer) h = (refl, refl)
stopped-begun n b (fired handle) (ended timer) h = (refl, refl)
stopped-begun n b stop (ending timer) h = (refl, refl)
stopped-begun n b stop (ended timer) h = (refl, refl)

stopped-begun_all :
    (es : List PollEvent) (s : Poll)
    → IsSingle s
    → s.stopped ≡ true
    → (advance_all es s).begun ≡ s.begun
unfolding advance_all
stopped-begun_all [] s v h = refl
stopped-begun_all (e ∷ es) s v h =
    let (still, same) = stopped-begun s.next_handle s.begun e v h in
    stopped-begun_all es (advance e s) (advance-IsSingle e s v) still ∙ same

-- Once the poll is stopped, whatever comes after, the task is not begun again.
stop_is_final :
    (es later : List PollEvent)
    → (advance_all later (advance stop (advance_all es poll_after_completion))).begun
      ≡ (advance_all es poll_after_completion).begun
unfolding advance on_stop
stop_is_final es later =
    let s = advance_all es poll_after_completion in
    let v = advance_all-IsSingle es poll_after_completion start-IsSingle in
    stopped-begun_all later (advance stop s) (advance-IsSingle stop s v) refl
