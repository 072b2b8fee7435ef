-- ===== src/Fleet/Reload.antt =====
-- FleetMap: the loading of the map and its reloading after a failure. What a handler sets is seen by the
-- effects and by the listeners that they add only after the next render: a render with its effects is
-- an event of its own, `rendered`, and any events may come before it. The element that holds the map is
-- there; MapLibre's map reports `load` and `error` while it is the current one. The timers are the
-- state's: `load_timeout` and `retry_timer` say whether one is set.
pub mod Steady
use logi_track.Base.{
  ℕ, ◌+◌, ◌-◌, ◌*◌, ◌^◌, min, Bool, true, false, not, ◌&&◌, ◌||◌, List, [], ◌∷◌, ◌==◌, nat_eq,
  if◌then◌else◌,
}

abbrev pub map_retry_delay_ms : ℕ
map_retry_delay_ms = 5000

abbrev pub map_retry_max_delay_ms : ℕ
map_retry_max_delay_ms = 60000

pub record MapLoad : Type 0 where
  pub loaded : Bool
  pub failure_handled : Bool
  pub retrying : Bool
  pub focus_map_after_recovery : Bool
  pub failure_count : ℕ
  pub map_error : Bool
  pub map_ready : Bool
  pub map_retry : ℕ
  pub map_recovering : Bool
  pub retry_delay : ℕ
  pub browser_online : Bool
  pub load_timeout : Bool
  pub retry_timer : Bool
  -- `navigator.onLine`
  pub navigator_online : Bool
  -- `mapRetry`, `mapError`, `mapRecovering`, `mapRetryDelay` and `browserOnline` as last rendered
  pub seen_retry : ℕ
  pub seen_error : Bool
  pub seen_recovering : Bool
  pub seen_delay : ℕ
  pub seen_online : Bool

pub data MapEvent : Type 0 where
  -- the map reports that it has loaded, or an error
  load_event error_event : MapEvent
  load_timed_out retry_timer_fired : MapEvent
  went_online went_offline : MapEvent
  -- the button of the error message
  retry_pressed : MapEvent
  -- React renders what has changed, and runs the effects
  rendered : MapEvent

-- The first effect: its clean-up and its next run, with a new map
unfoldable pub start_load : MapLoad → MapLoad
start_load s = record s {
  map_error = if s.map_retry == 0 then false else s.map_error;
  map_ready = false;
  loaded = false;
  failure_handled = false;
  load_timeout = true;
}

abbrev pub same : Bool → Bool → Bool
same a b = if a then b else not b

-- The second effect, where what it depends on has changed since the last render: its clean-up and its
-- next run
unfoldable pub watch_network : MapLoad → MapLoad
watch_network s =
    if same s.map_error s.seen_error
      && same s.map_recovering s.seen_recovering
      && s.retry_delay == s.seen_delay
    then s
    else if not s.map_error || s.map_recovering
    then record s { retry_timer = false }
    else record s { browser_online = s.navigator_online; retry_timer = s.navigator_online }

unfoldable pub render : MapLoad → MapLoad
render s =
    let started = if s.map_retry == s.seen_retry then s else start_load s in
    record (watch_network started) {
      seen_retry = s.map_retry;
      seen_error = s.map_error;
      seen_recovering = s.map_recovering;
      seen_delay = s.retry_delay;
      seen_online = s.browser_online;
    }

unfoldable pub retry_map : (focus_map : Bool) → MapLoad → MapLoad
retry_map focus_map s = if s.retrying then s else record s {
  retrying = true;
  focus_map_after_recovery = focus_map;
  map_recovering = true;
  map_retry = s.map_retry + 1;
}

unfoldable pub fail_load : MapLoad → MapLoad
fail_load s =
    if not s.loaded && not s.failure_handled
    then record s {
      failure_handled = true;
      failure_count = s.failure_count + 1;
      retry_delay = min (map_retry_delay_ms * 2 ^ s.failure_count) map_retry_max_delay_ms;
      retrying = false;
      focus_map_after_recovery = false;
      map_error = true;
      map_recovering = false;
    }
    else s

unfoldable pub finish_load : MapLoad → MapLoad
finish_load s = record s {
  load_timeout = false;
  loaded = true;
  retrying = false;
  failure_count = 0;
  retry_delay = map_retry_delay_ms;
  map_error = false;
  map_recovering = false;
  map_ready = true;
  focus_map_after_recovery = false;
}

-- The second effect listens while the map that is shown has failed and is not being reloaded.
abbrev pub is_watching : MapLoad → Bool
is_watching s = s.seen_error && not s.seen_recovering

-- The callback of the retry timer
unfoldable pub on_retry_due : MapLoad → MapLoad
on_retry_due s = if s.navigator_online then retry_map false s else s

unfoldable pub on_event : MapEvent → MapLoad → MapLoad
on_event load_event s = finish_load s
on_event error_event s = fail_load s
on_event load_timed_out s =
    if s.load_timeout then fail_load (record s { load_timeout = false }) else s
on_event retry_timer_fired s =
    if s.retry_timer then on_retry_due (record s { retry_timer = false }) else s
on_event went_online s =
    if is_watching s
    then retry_map false (record s { navigator_online = true; browser_online = true })
    else record s { navigator_online = true }
on_event went_offline s = record s {
  navigator_online = false;
  browser_online = if is_watching s then false else s.browser_online;
}
on_event retry_pressed s =
    if s.seen_error && not (s.seen_recovering || not s.seen_online) then retry_map true s else s
on_event rendered s = render s

unfoldable pub on_events : List MapEvent → MapLoad → MapLoad
on_events [] s = s
on_events (e ∷ es) s = on_events es (on_event e s)

-- The map when the component is mounted: its first render and effects
unfoldable pub first_load : (navigator_online : Bool) → MapLoad
first_load navigator_online = start_load (record {
  loaded = false;
  failure_handled = false;
  retrying = false;
  focus_map_after_recovery = false;
  failure_count = 0;
  map_error = false;
  map_ready = false;
  map_retry = 0;
  map_recovering = false;
  retry_delay = map_retry_delay_ms;
  browser_online = true;
  load_timeout = false;
  retry_timer = false;
  navigator_online = navigator_online;
  seen_retry = 0;
  seen_error = false;
  seen_recovering = false;
  seen_delay = map_retry_delay_ms;
  seen_online = true;
})
