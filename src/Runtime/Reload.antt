-- ===== src/Runtime/Reload.antt =====
-- web/app/components/RuntimeVersionGuard.tsx: the versions that are seen, and the reload.
use logi_track.Base.{
  ℕ, suc, zero, ◌≡◌, refl, ◌⊎◌, inl, inr, Bool, true, false, not, ◌&&◌, ◌||◌, List, [], ◌∷◌, arith,
  any, All, Bool-cases, ◌==◌, nat_eq, list_eq, eq_refl,
}
use logi_track.Js.Text.{JsString, truthy}
use logi_track.Runtime.{
  Caller, by_poll, by_visible, Reply, failed, refused, answered, Guard, GuardEvent, replied,
  resumed, fired, went_online, went_offline, became_visible, unmounted, return_to, check_version,
  examine, settle, resume, fire, on_online, on_offline, on_visible, unmount, handle_event,
  handle_events, mount,
}

-- The page was not told to reload, and the version that it has seen, if any, is the given one.
abbrev IsSteady : JsString → (current_version : JsString) → (reloaded : Bool) → Type 0
IsSteady v current_version reloaded =
    (reloaded ≡ false) × ((current_version ≡ []) ⊎ (current_version ≡ v))

abbrev Steady : JsString → Guard → Type 0
Steady v s = IsSteady v s.current_version s.reloaded

-- An answer that comes has this version.
abbrev pub Tells : JsString → GuardEvent → Type 0
Tells v (replied (answered a)) = a.version ≡ v
Tells v _ = Unit {0}

return_to-Steady :
    (v : JsString) (caller : Caller) (s : Guard) → Steady v s → Steady v (return_to caller s)
unfolding return_to
return_to-Steady v by_poll s h = h
return_to-Steady v by_visible s h = h

check_version-Steady :
    (v : JsString) (caller : Caller) (s : Guard) → Steady v s → Steady v (check_version caller s)
unfolding check_version
check_version-Steady v caller s h = elim (Bool-cases (not s.active || s.checking || not s.online)) [
  | inl skips ↦ rw skips (return_to-Steady v caller s h)
  | inr begins ↦ rw begins h
]

same_version : (v w : JsString) → (w ≡ []) ⊎ (w ≡ v) → (truthy w && not (w == v)) ≡ false
same_version v w (inl e) = rw e refl
same_version v w (inr e) = rw e (ground (arith, eq_refl v))

examine-Steady :
    (v : JsString) (reply : Reply) (s : Guard)
    → Tells v (replied reply)
    → Steady v s
    → Steady v (examine reply s)
unfolding examine
examine-Steady v failed s t h = h
examine-Steady v refused s t h = h
examine-Steady v (answered a) s t h = elim (Bool-cases (not s.active || not (truthy a.version))) [
  | inl ignored ↦ rw ignored h
  | inr read ↦ rw (read, t, same_version v s.current_version h.1) (h.0, inr refl)
]

settle-Steady :
    (v : JsString) (in_flight : List Caller) (reply : Reply) (s : Guard)
    → Tells v (replied reply)
    → Steady v s
    → Steady v (settle in_flight reply s)
unfolding settle
settle-Steady v [] reply s t h = h
settle-Steady v (caller ∷ others) reply s t h =
    return_to-Steady v caller (record (examine reply s) { checking = false; in_flight = others })
      (examine-Steady v reply s t h)

resume-Steady : (v : JsString) (n : ℕ) (s : Guard) → Steady v s → Steady v (resume n s)
unfolding resume
resume-Steady v zero s h = h
resume-Steady v (suc n) s h = elim (Bool-cases (s.active && s.online)) [
  | inl goes_on ↦ rw goes_on h
  | inr ends ↦ rw ends h
]

handle_event-Steady :
    (v : JsString) (e : GuardEvent) (s : Guard)
    → Tells v e
    → Steady v s
    → Steady v (handle_event e s)
unfolding handle_event fire on_online on_offline on_visible unmount
handle_event-Steady v (replied reply) s t h = settle-Steady v s.in_flight reply s t h
handle_event-Steady v resumed s t h = resume-Steady v s.resuming s h
handle_event-Steady v (fired handle) s t h = elim (Bool-cases (any (λ x. x == handle) s.pending)) [
  | inl due ↦ rw due (check_version-Steady v by_poll _ h)
  | inr unknown ↦ rw unknown h
]
handle_event-Steady v went_online s t h = elim (Bool-cases s.active) [
  | inl mounted ↦ rw mounted (check_version-Steady v by_poll _ h)
  | inr gone ↦ rw gone h
]
handle_event-Steady v went_offline s t h = elim (Bool-cases s.active) [
  | inl mounted ↦ rw mounted h
  | inr gone ↦ rw gone h
]
handle_event-Steady v became_visible s t h = elim (Bool-cases (s.active && s.online)) [
  | inl checks ↦ rw checks (check_version-Steady v by_visible s h)
  | inr skips ↦ rw skips h
]
handle_event-Steady v unmounted s t h = h

handle_events-Steady :
    (v : JsString) (es : List GuardEvent) (s : Guard)
    → All (Tells v) es
    → Steady v s
    → Steady v (handle_events es s)
unfolding handle_events
handle_events-Steady v [] s t h = h
handle_events-Steady v (e ∷ es) s t h =
    handle_events-Steady v es (handle_event e s) t.1 (handle_event-Steady v e s t.0 h)

mount-Steady : (v : JsString) (online : Bool) → Steady v (mount online)
unfolding mount check_version
mount-Steady v true = (refl, inl refl)
mount-Steady v false = (refl, inl refl)

-- As long as every answer names the same version, failed and refused requests among them or not, the
-- page is never told to reload.
pub steady_never_reloads :
    (v : JsString) (online : Bool) (es : List GuardEvent)
    → All (Tells v) es
    → (handle_events es (mount online)).reloaded ≡ false
steady_never_reloads v online es t =
    (handle_events-Steady v es (mount online) t (mount-Steady v online)).0
