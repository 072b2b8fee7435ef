-- ===== src/Fleet/Reload/Steady.antt =====
-- What holds of the map's loading whatever happens to it.
use logi_track.Base.{
  ℕ, ◌+◌, ◌-◌, ◌*◌, ◌^◌, ◌≤◌, ◌≡◌, ◌||◌, refl, min, Bool, true, false, List, [], ◌∷◌, ◌==◌, nat_eq,
  if◌then◌else◌, arith, All,
}
use logi_track.Fleet.Reload.{
  MapLoad, MapEvent, load_event, error_event, load_timed_out, retry_timer_fired, went_online,
  went_offline, retry_pressed, start_load, watch_network, rendered, render, retry_map, fail_load,
  finish_load, on_event, on_retry_due, on_events, first_load, map_retry_delay_ms,
  map_retry_max_delay_ms,
}

-- The delay after a number of failures in a row: 5 s, and twice as long after each further one, up to 60 s
abbrev pub delay_after : ℕ → ℕ
delay_after failures =
    if failures == 0
    then map_retry_delay_ms
    else min (map_retry_delay_ms * 2 ^ (failures - 1)) map_retry_max_delay_ms

-- The first effect has seen the last reload that was asked for.
abbrev pub is_seen : MapLoad → Bool
is_seen s = s.map_retry == s.seen_retry

pub record IsSteady (s : MapLoad) : Type 0 where
  pub delay : s.retry_delay ≡ delay_after s.failure_count
  pub one_reload : s.retrying ≡ s.map_recovering
  pub in_order : s.seen_retry ≤ s.map_retry
  pub loaded_is_well : s.loaded ≡ true → s.map_error ≡ false
  pub timer_is_needed : s.retry_timer ≡ true → (s.seen_error ≡ true) × (s.seen_recovering ≡ false)
  -- a load under way that has not failed can still fail by its time-out
  pub will_end : s.loaded ≡ false → s.failure_handled ≡ false → s.load_timeout ≡ true
  -- a reload that has begun is under way
  pub waits :
      s.map_recovering ≡ true → is_seen s ≡ true → (s.failure_handled ≡ false) × (s.loaded ≡ false)
  -- before it has begun, the load before it has ended, and the map that failed is shown as recovering
  pub begins : is_seen s ≡ false → (s.failure_handled || s.loaded) ≡ true
  pub shows : is_seen s ≡ false → s.map_error ≡ true → s.map_recovering ≡ true
  pub errors_are_handled : s.map_error ≡ true → s.map_recovering ≡ false → s.failure_handled ≡ true
  pub watched_has_ended :
      s.seen_error ≡ true → s.seen_recovering ≡ false → (s.failure_handled || s.loaded) ≡ true
  -- once it is rendered, a failure waits for its timer while the browser is online
  pub will_retry :
      s.map_error ≡ true
      → s.map_recovering ≡ false
      → s.seen_error ≡ true
      → s.seen_recovering ≡ false
      → s.seen_delay ≡ s.retry_delay
      → s.navigator_online ≡ true
      → s.retry_timer ≡ true

delay_after-suc :
    (n : ℕ) → delay_after (n + 1) ≡ min (map_retry_delay_ms * 2 ^ n) map_retry_max_delay_ms
delay_after-suc n =
    let some' : (n + 1 == 0) ≡ false = ground arith in
    let one_less : n + 1 - 1 ≡ n = omega arith in rw (some', one_less) refl

finish_load-IsSteady : (s : MapLoad) → IsSteady s → IsSteady (finish_load s)
unfolding finish_load
finish_load-IsSteady s h = ground arith

fail_load-IsSteady : (s : MapLoad) → IsSteady s → IsSteady (fail_load s)
unfolding fail_load
fail_load-IsSteady s h = ground (arith, delay_after-suc s.failure_count)

time_out-IsSteady : (s : MapLoad) → IsSteady s → IsSteady (on_event load_timed_out s)
unfolding on_event fail_load
time_out-IsSteady s h = ground (arith, delay_after-suc s.failure_count)

render-IsSteady : (s : MapLoad) → IsSteady s → IsSteady (render s)
unfolding render watch_network start_load
render-IsSteady s h = ground arith

timer-IsSteady : (s : MapLoad) → IsSteady s → IsSteady (on_event retry_timer_fired s)
unfolding on_event on_retry_due retry_map
timer-IsSteady s h = ground arith

online-IsSteady : (s : MapLoad) → IsSteady s → IsSteady (on_event went_online s)
unfolding on_event retry_map
online-IsSteady s h = ground arith

pressed-IsSteady : (s : MapLoad) → IsSteady s → IsSteady (on_event retry_pressed s)
unfolding on_event retry_map
pressed-IsSteady s h = ground arith

on_event-IsSteady : (e : MapEvent) (s : MapLoad) → IsSteady s → IsSteady (on_event e s)
unfolding on_event
on_event-IsSteady load_event s h = finish_load-IsSteady s h
on_event-IsSteady error_event s h = fail_load-IsSteady s h
on_event-IsSteady load_timed_out s h = time_out-IsSteady s h
on_event-IsSteady retry_timer_fired s h = timer-IsSteady s h
on_event-IsSteady went_online s h = online-IsSteady s h
on_event-IsSteady went_offline s h = ground arith
on_event-IsSteady retry_pressed s h = pressed-IsSteady s h
on_event-IsSteady rendered s h = render-IsSteady s h

on_events-IsSteady : (es : List MapEvent) (s : MapLoad) → IsSteady s → IsSteady (on_events es s)
unfolding on_events
on_events-IsSteady [] s h = h
on_events-IsSteady (e ∷ es) s h = on_events-IsSteady es (on_event e s) (on_event-IsSteady e s h)

-- Events at which no load ends
abbrev pub EndsNoLoad : MapEvent → Type 0
EndsNoLoad load_event = ⊥
EndsNoLoad error_event = ⊥
EndsNoLoad load_timed_out = ⊥
EndsNoLoad _ = Unit {0}

-- How many more reloads can be asked for before a load ends
abbrev pub reloads_left : MapLoad → ℕ
reloads_left s = if s.retrying then 0 else 1

event_reloads :
    (e : MapEvent) (s : MapLoad)
    → EndsNoLoad e
    → (on_event e s).map_retry + reloads_left (on_event e s) ≤ s.map_retry + reloads_left s
unfolding on_event on_retry_due retry_map render watch_network start_load
event_reloads load_event s quiet = elim quiet [ ]
event_reloads error_event s quiet = elim quiet [ ]
event_reloads load_timed_out s quiet = elim quiet [ ]
event_reloads retry_timer_fired s quiet = ground arith
event_reloads went_online s quiet = ground arith
event_reloads went_offline s quiet = ground arith
event_reloads retry_pressed s quiet = ground arith
event_reloads rendered s quiet = ground arith

events_reload :
    (es : List MapEvent) (s : MapLoad)
    → All EndsNoLoad es
    → (on_events es s).map_retry + reloads_left (on_events es s) ≤ s.map_retry + reloads_left s
unfolding on_events
events_reload [] s quiet = omega arith
events_reload (e ∷ es) s quiet =
    let first = event_reloads e s quiet.0 in
    let later = events_reload es (on_event e s) quiet.1 in omega arith

-- After any events: the delay is that of the number of failures in a row; a reload that has begun is
-- under way, with its time-out to come, and none begins before the load before it has ended; a map that
-- has loaded shows no error; a retry timer is set only for a map that is shown as failed and not as
-- being reloaded, and while the browser is online there is one for such a map, once that is rendered.
-- Until a load ends, `map_retry` grows by one at most, and not at all while a reload is asked for or
-- under way, whatever the timer, the network and the button do and whenever React renders: no second
-- reload is started beside one.
pub map_stays-IsSteady :
    (navigator_online : Bool) (es more : List MapEvent)
    → All EndsNoLoad more
    → let s = on_events es (first_load navigator_online) in
      IsSteady s × ((on_events more s).map_retry ≤ s.map_retry + reloads_left s)
unfolding first_load start_load
map_stays-IsSteady navigator_online es more quiet =
    let s = on_events es (first_load navigator_online) in
    let bounded = events_reload more s quiet in
    (on_events-IsSteady es (first_load navigator_online) (ground arith), omega arith)
