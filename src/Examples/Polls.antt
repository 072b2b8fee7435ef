-- ===== src/Examples/Polls.antt =====
-- Runs of the two polls.
use logi_track.Base.{All, List, [], false, length, refl, some, true, ◌+◌, ◌∷◌, ◌≡◌, ◌≤◌, ◌⊎◌}
use logi_track.Console.Poll.{settled, fired, PollEvent, advance_all, poll_after_completion}
use logi_track.Console.Poll.Single.{polls_one_at_a_time}
use logi_track.Js.Text.{js}
use logi_track.Runtime.{
  handle_event, check_version, return_to, settle, examine, resume, on_online, on_offline,
  GuardEvent, Answer, mount, handle_events, went_online, went_offline, resumed, replied, answered,
}
use logi_track.Runtime.Requests.{one_request_at_a_time}
use logi_track.Runtime.Reload.{steady_never_reloads, Tells}

abbrev poll_events : List PollEvent
poll_events = settled ∷ fired 0 ∷ []

polls_one_at_a_time_example :
    let s = advance_all poll_events poll_after_completion in
    (s.running + length s.pending ≤ 1)
    × (((s.stopped ≡ false) × (s.running + length s.pending ≡ 1))
        ⊎ ((s.stopped ≡ true) × (s.pending ≡ [])))
polls_one_at_a_time_example = polls_one_at_a_time poll_events

abbrev answer : Answer
answer = record { version = js "1"; revision = []; built_at = []; environment = [] }

-- The network comes back while the first request is in flight.
abbrev reconnect : List GuardEvent
reconnect = went_offline ∷ went_online ∷ resumed ∷ replied (answered answer) ∷ resumed ∷ []

-- Two polls then go on, and only the second one's timer has its handle kept.
two_polls :
    let s = handle_events reconnect (mount true) in (s.pending ≡ 1 ∷ 0 ∷ []) × (s.timer ≡ some 1)
unfolding mount handle_events handle_event check_version return_to settle examine resume on_online
    on_offline js
two_polls = (refl, refl)

one_request_at_a_time_example :
    let s = handle_events reconnect (mount true) in
    ((s.checking ≡ true) × (length s.in_flight ≡ 1)) ⊎ ((s.checking ≡ false) × (s.in_flight ≡ []))
one_request_at_a_time_example = one_request_at_a_time true reconnect

one_version : All (Tells (js "1")) reconnect
one_version = (tt, (tt, (tt, (refl, (tt, tt)))))

steady_never_reloads_example : (handle_events reconnect (mount true)).reloaded ≡ false
steady_never_reloads_example = steady_never_reloads (js "1") true reconnect one_version
