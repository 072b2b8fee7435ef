-- ===== src/Runtime.antt =====
-- web/app/components/RuntimeVersionGuard.tsx: the check for a new deployment, as the states that its
-- effect goes through. What the browser calls back is an event; `await` is a wait in the state.
pub mod Requests
pub mod Reload
pub mod Route
use logi_track.Base.{
  ℕ, suc, zero, ◌+◌, Bool, true, false, not, ◌&&◌, ◌||◌, Option, none, some, List, [], ◌∷◌, ◌==◌,
  nat_eq, list_eq, if◌then◌else◌, any, keep_if,
}
use logi_track.Js.Text.{JsString, truthy}

-- The body of an answer, with the empty text for what is missing.
pub record Answer : Type 0 where
  pub version : JsString
  pub revision : JsString
  pub built_at : JsString
  pub environment : JsString

pub record Runtime : Type 0 where
  pub revision : JsString
  pub built_at : JsString
  pub environment : JsString

-- Who waits for a request: `poll`, or nobody (`void checkVersion()`).
pub data Caller : Type 0 where
  by_poll by_visible : Caller

-- How a request ends: it throws, is not `ok`, or has a body.
pub data Reply : Type 0 where
  failed refused : Reply
  answered : Answer → Reply

-- The variables of the effect, `navigator.onLine`, the requests in flight, the polls past their check,
-- the pending timers with the handle that comes next, and whether the page was told to reload.
pub record Guard : Type 0 where
  pub active : Bool
  pub checking : Bool
  pub timer : Option ℕ
  pub current_version : JsString
  pub runtime : Option Runtime
  pub online : Bool
  pub in_flight : List Caller
  pub resuming : ℕ
  pub pending : List ℕ
  pub next_handle : ℕ
  pub reloaded : Bool

pub data GuardEvent : Type 0 where
  replied : Reply → GuardEvent
  resumed : GuardEvent
  fired : ℕ → GuardEvent
  went_online went_offline became_visible unmounted : GuardEvent

-- `checkVersion()` returns to its caller.
unfoldable pub return_to : Caller → Guard → Guard
return_to by_poll s = record s { resuming = s.resuming + 1 }
return_to by_visible s = s

-- `checkVersion()`, up to `await fetch(…)`
unfoldable pub check_version : Caller → Guard → Guard
check_version caller s =
    if not s.active || s.checking || not s.online
    then return_to caller s
    else record s { checking = true; in_flight = caller ∷ s.in_flight }

abbrev pub shown : Answer → Option Runtime → Option Runtime
shown a runtime =
    if truthy a.revision && truthy a.built_at && truthy a.environment
    then some (record { revision = a.revision; built_at = a.built_at; environment = a.environment })
    else runtime

-- The rest of the `try`
unfoldable pub examine : Reply → Guard → Guard
examine failed s = s
examine refused s = s
examine (answered a) s =
    if not s.active || not (truthy a.version)
    then s
    else if truthy s.current_version && not (s.current_version == a.version)
    then record s { reloaded = true }
    else record s { current_version = a.version; runtime = shown a s.runtime }

-- The `finally`, for the request that is in flight
unfoldable pub settle : List Caller → Reply → Guard → Guard
settle [] reply s = s
settle (caller ∷ others) reply s =
    return_to caller (record (examine reply s) { checking = false; in_flight = others })

-- `poll()` after its check
unfoldable pub resume : ℕ → Guard → Guard
resume zero s = s
resume (suc n) s =
    let ended = record s { resuming = n } in
    if s.active && s.online
    then record ended {
      timer = some s.next_handle;
      pending = s.next_handle ∷ s.pending;
      next_handle = s.next_handle + 1;
    }
    else ended

abbrev pub without : ℕ → List ℕ → List ℕ
without handle pending = keep_if (λ h. not (h == handle)) pending

-- `if (timer !== undefined) window.clearTimeout(timer)`
abbrev pub clear_timer : Option ℕ → List ℕ → List ℕ
clear_timer none pending = pending
clear_timer (some handle) pending = without handle pending

-- The timer runs `poll`.
unfoldable pub fire : ℕ → Guard → Guard
fire handle s =
    if any (λ h. h == handle) s.pending
    then check_version by_poll (record s { pending = without handle s.pending })
    else s

-- `onOnline`, while the listener is there
unfoldable pub on_online : Guard → Guard
on_online s =
    if s.active
    then check_version by_poll
        (record s { online = true; pending = clear_timer s.timer s.pending; timer = none })
    else record s { online = true }

-- `onOffline`
unfoldable pub on_offline : Guard → Guard
on_offline s =
    if s.active
    then record s { online = false; pending = clear_timer s.timer s.pending; timer = none }
    else record s { online = false }

-- `onVisible`, for a page that is visible
unfoldable pub on_visible : Guard → Guard
on_visible s = if s.active && s.online then check_version by_visible s else s

-- The function that the effect returns
unfoldable pub unmount : Guard → Guard
unmount s = record s { active = false; pending = clear_timer s.timer s.pending }

unfoldable pub handle_event : GuardEvent → Guard → Guard
handle_event (replied reply) s = settle s.in_flight reply s
handle_event resumed s = resume s.resuming s
handle_event (fired handle) s = fire handle s
handle_event went_online s = on_online s
handle_event went_offline s = on_offline s
handle_event became_visible s = on_visible s
handle_event unmounted s = unmount s

unfoldable pub handle_events : List GuardEvent → Guard → Guard
handle_events [] s = s
handle_events (e ∷ es) s = handle_events es (handle_event e s)

-- The effect as it starts, with `navigator.onLine`
unfoldable pub mount : Bool → Guard
mount online =
    let s : Guard = record {
      active = true;
      checking = false;
      timer = none;
      current_version = [];
      runtime = none;
      online = online;
      in_flight = [];
      resuming = 0;
      pending = [];
      next_handle = 0;
      reloaded = false;
    } in
    if online then check_version by_poll s else s
