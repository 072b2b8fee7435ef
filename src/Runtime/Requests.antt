-- ===== src/Runtime/Requests.antt =====
-- web/app/components/RuntimeVersionGuard.tsx: the requests in flight.
use logi_track.Base.{
  ℕ, suc, zero, ◌≡◌, refl, ◌⊎◌, inl, inr, Bool, true, false, not, ◌&&◌, ◌||◌, List, [], ◌∷◌, arith,
  length, any, Bool-cases, ◌==◌, nat_eq,
}
use logi_track.Runtime.{
  Caller, by_poll, by_visible, Reply, Guard, GuardEvent, replied, resumed, fired, went_online,
  went_offline, became_visible, unmounted, return_to, check_version, examine, settle, resume, fire,
  on_online, on_offline, on_visible, unmount, handle_event, handle_events, mount,
}

-- `checking` says whether a request is in flight, and there is at most one.
abbrev OneRequest : Bool → List Caller → Type 0
OneRequest checking in_flight =
    ((checking ≡ true) × (length in_flight ≡ 1)) ⊎ ((checking ≡ false) × (in_flight ≡ []))

abbrev IsSingle : Guard → Type 0
IsSingle s = OneRequest s.checking s.in_flight

return_to-IsSingle : (caller : Caller) (s : Guard) → IsSingle s → IsSingle (return_to caller s)
unfolding return_to
return_to-IsSingle by_poll s h = h
return_to-IsSingle by_visible s h = h

none_in_flight : (s : Guard) → IsSingle s → s.checking ≡ false → length s.in_flight ≡ 0
none_in_flight s (inl (busy, one)) e = absurd (ground arith)
none_in_flight s (inr (idle, none_left)) e = rw none_left (ground arith)

last_in_flight :
    (s : Guard) {caller : Caller} {others : List Caller}
    → IsSingle s
    → s.in_flight ≡ caller ∷ others
    → length others ≡ 0
last_in_flight s (inl (busy, one)) e = ground (arith, rw e at one)
last_in_flight s (inr (idle, none_left)) e = cc

check_version-IsSingle :
    (caller : Caller) (s : Guard) → IsSingle s → IsSingle (check_version caller s)
unfolding check_version
check_version-IsSingle caller s h = elim (Bool-cases (not s.active || s.checking || not s.online)) [
  | inl skips ↦ rw skips (return_to-IsSingle caller s h)
  | inr begins ↦
      let empty : length s.in_flight ≡ 0 = none_in_flight s h (ground arith) in
      rw begins (inl (refl, ground arith))
]

settle-IsSingle :
    (in_flight : List Caller) (reply : Reply) (s : Guard)
    → s.in_flight ≡ in_flight
    → IsSingle s
    → IsSingle (settle in_flight reply s)
unfolding settle
settle-IsSingle [] reply s e h = h
settle-IsSingle (caller ∷ others) reply s e h =
    return_to-IsSingle caller (record (examine reply s) { checking = false; in_flight = others })
      (inr (refl, no_others others (last_in_flight s h e)))
  where
    no_others : (l : List Caller) → length l ≡ 0 → l ≡ []
    no_others [] z = refl
    no_others (c ∷ l) z = absurd (ground arith)

resume-IsSingle : (n : ℕ) (s : Guard) → IsSingle s → IsSingle (resume n s)
unfolding resume
resume-IsSingle zero s h = h
resume-IsSingle (suc n) s h = elim (Bool-cases (s.active && s.online)) [
  | inl goes_on ↦ rw goes_on h
  | inr ends ↦ rw ends h
]

handle_event-IsSingle : (e : GuardEvent) (s : Guard) → IsSingle s → IsSingle (handle_event e s)
unfolding handle_event fire on_online on_offline on_visible unmount
handle_event-IsSingle (replied reply) s h = settle-IsSingle s.in_flight reply s refl h
handle_event-IsSingle resumed s h = resume-IsSingle s.resuming s h
handle_event-IsSingle (fired handle) s h = elim (Bool-cases (any (λ t. t == handle) s.pending)) [
  | inl due ↦ rw due (check_version-IsSingle by_poll _ h)
  | inr unknown ↦ rw unknown h
]
handle_event-IsSingle went_online s h = elim (Bool-cases s.active) [
  | inl mounted ↦ rw mounted (check_version-IsSingle by_poll _ h)
  | inr gone ↦ rw gone h
]
handle_event-IsSingle went_offline s h = elim (Bool-cases s.active) [
  | inl mounted ↦ rw mounted h
  | inr gone ↦ rw gone h
]
handle_event-IsSingle became_visible s h = elim (Bool-cases (s.active && s.online)) [
  | inl checks ↦ rw checks (check_version-IsSingle by_visible s h)
  | inr skips ↦ rw skips h
]
handle_event-IsSingle unmounted s h = h

handle_events-IsSingle :
    (es : List GuardEvent) (s : Guard) → IsSingle s → IsSingle (handle_events es s)
unfolding handle_events
handle_events-IsSingle [] s h = h
handle_events-IsSingle (e ∷ es) s h =
    handle_events-IsSingle es (handle_event e s) (handle_event-IsSingle e s h)

mount-IsSingle : (online : Bool) → IsSingle (mount online)
unfolding mount check_version
mount-IsSingle true = inl (refl, ground arith)
mount-IsSingle false = inr (refl, refl)

-- Whatever the network, the tab and the timers do, the guard never has more than one version request
-- in flight, and `checking` says whether there is one.
pub one_request_at_a_time :
    (online : Bool) (es : List GuardEvent)
    → let s = handle_events es (mount online) in
      ((s.checking ≡ true) × (length s.in_flight ≡ 1)) ⊎ ((s.checking ≡ false) × (s.in_flight ≡ []))
one_request_at_a_time online es = handle_events-IsSingle es (mount online) (mount-IsSingle online)
