-- ===== src/Console/Poll.antt =====
-- web/app/console/page.tsx: `pollAfterCompletion`, with the browser's timers written out. A timer is
-- known by its handle, and is pending until it fires or is cleared.
pub mod Single
use logi_track.Base.{
  ℕ, suc, zero, ◌+◌, Bool, true, false, not, Option, none, some, List, [], ◌∷◌, ◌==◌, nat_eq,
  if◌then◌else◌, any, keep_if,
}

-- `stopped` and `timer`, the pending timers, the handle that `setTimeout` gives next, how many calls of
-- `task` are awaited, and how many there have been.
pub record Poll : Type 0 where
  pub stopped : Bool
  pub timer : Option ℕ
  pub pending : List ℕ
  pub next_handle : ℕ
  pub running : ℕ
  pub begun : ℕ

-- `task` settles, a timer fires, or the function that is returned is called.
pub data PollEvent : Type 0 where
  settled : PollEvent
  fired : ℕ → PollEvent
  stop : PollEvent

-- `poll()`, up to `await task()`
unfoldable pub begin : Poll → Poll
begin s = record s { running = s.running + 1; begun = s.begun + 1 }

unfoldable pub poll_after_completion : Poll
unfolding begin
poll_after_completion = begin (record {
  stopped = false;
  timer = none;
  pending = [];
  next_handle = 0;
  running = 0;
  begun = 0;
})

-- `finally { if (!stopped) timer = window.setTimeout(poll, delayMs) }`, for a task that ends or throws
unfoldable pub on_settled : ℕ → Poll → Poll
on_settled still_running s =
    let ended = record s { running = still_running } in
    if not s.stopped
    then record ended {
      timer = some s.next_handle;
      pending = s.next_handle ∷ s.pending;
      next_handle = s.next_handle + 1;
    }
    else ended

abbrev pub without : ℕ → List ℕ → List ℕ
without handle pending = keep_if (λ h. not (h == handle)) pending

-- `if (timer !== undefined) window.clearTimeout(timer)`
abbrev pub clear_timer : Option ℕ → List ℕ → List ℕ
clear_timer none pending = pending
clear_timer (some handle) pending = without handle pending

unfoldable pub on_fired : ℕ → Poll → Poll
unfolding begin
on_fired handle s =
    if any (λ h. h == handle) s.pending
    then begin (record s { pending = without handle s.pending })
    else s

unfoldable pub on_stop : Poll → Poll
on_stop s = record s { stopped = true; pending = clear_timer s.timer s.pending }

-- A task settles only while one is running.
unfoldable pub settle_one : ℕ → Poll → Poll
settle_one zero s = s
settle_one (suc n) s = on_settled n s

unfoldable pub advance : PollEvent → Poll → Poll
advance settled s = settle_one s.running s
advance (fired handle) s = on_fired handle s
advance stop s = on_stop s

unfoldable pub advance_all : List PollEvent → Poll → Poll
advance_all [] s = s
advance_all (e ∷ es) s = advance_all es (advance e s)
