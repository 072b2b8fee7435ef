-- ===== src/Panels/Alerts/Keys.antt =====
-- The order of the alerts as a list of integers for each alert, compared from the front.
use Prim.Native.Nat.{Ordering}
use mathlib.Core.Path.{ap₂}
use logi_track.Base.{
  ◌≡◌, refl, sym, ap, ◌∙◌, ◌≢◌, Bool, true, false, not, ◌&&◌, Option, none, some, List, [], ◌∷◌,
  ◌==◌, if◌then◌else◌, arith, eq_iff,
}
use logi_track.Base.Int.{ℤ, pos, pos_part, neg_part, sub_ℕ}
use logi_track.Base.Sorting.{compare_ℤ, compare_keys}
use logi_track.Js.Text.{JsString}
use logi_track.Js.Dates.{compare_times, or_zero}
use logi_track.Auth.Cookies.{text_of}
use logi_track.Console.Types.{DeliveryAlert, AlertStatus, active, resolved, critical}
use logi_track.Console.Statuses.{alert_status_eq, severity_eq}
use logi_track.Panels.Alerts.{
  then_by, number_of, is_acknowledged, resolved_or_last, by_priority, by_acknowledgement,
}

abbrev pub neg : ℤ → ℤ
neg a = sub_ℕ (neg_part a) (pos_part a)

pub compare_ℤ-neg : (a b : ℤ) → compare_ℤ (neg a) (neg b) ≡ compare_ℤ b a
compare_ℤ-neg a b = ground arith

pub compare_keys-cons :
    (a b : ℤ) (k l : List ℤ)
    → compare_keys (a ∷ k) (b ∷ l) ≡ then_by (compare_ℤ a b) (compare_keys k l)
unfolding compare_keys
compare_keys-cons a b k l = ground arith

pub compare_keys-one : (a b : ℤ) → compare_keys (a ∷ []) (b ∷ []) ≡ compare_ℤ a b
unfolding compare_keys
compare_keys-one a b = ground arith

pub compare_times_valid :
    (a b : Option ℤ)
    → a ≢ none
    → b ≢ none
    → compare_times b a ≡ compare_ℤ (neg (or_zero a)) (neg (or_zero b))
unfolding compare_times
compare_times_valid none b h k = absurd (h refl)
compare_times_valid (some a) none h k = absurd (k refl)
compare_times_valid (some a) (some b) h k = sym (compare_ℤ-neg a b)

resolved_lem : (s : AlertStatus) → (s == resolved) ≡ not (s == active)
resolved_lem active = refl
resolved_lem resolved = refl

-- A date that counts only where both alerts have it, behind the test whether they have it
gated :
    (bl br : Bool) (tl tr : Option ℤ) (next : Ordering)
    → (bl ≡ true → tl ≢ none)
    → (br ≡ true → tr ≢ none)
    → then_by
        (compare_ℤ (number_of bl) (number_of br))
        (then_by (if bl && br then compare_times tr tl else Ordering.eq) next)
      ≡ then_by (compare_ℤ (number_of bl) (number_of br)) (
          then_by
            (compare_ℤ
              (if bl then neg (or_zero tl) else pos 0)
              (if br then neg (or_zero tr) else pos 0))
            next)
gated true true tl tr next h g =
    ap (λ c. then_by c next) (compare_times_valid tl tr (h refl) (g refl))
gated true false tl tr next h g = refl
gated false true tl tr next h g = refl
gated false false tl tr next h g = refl

two_keys :
    (a b c d : ℤ) (k l : List ℤ) {next : Ordering}
    → next ≡ compare_keys k l
    → then_by (compare_ℤ a b) (then_by (compare_ℤ c d) next) ≡ compare_keys (a ∷ c ∷ k) (b ∷ d ∷ l)
two_keys a b c d k l e =
    ap (λ o. then_by (compare_ℤ a b) (then_by (compare_ℤ c d) o)) e
    ∙ ap (then_by (compare_ℤ a b)) (sym (compare_keys-cons c d k l))
    ∙ sym (compare_keys-cons a b (c ∷ k) (d ∷ l))

module _ {D : Type 0} (time : JsString → Option ℤ) where
  -- Every date that the order looks at is a valid one.
  pub record HasDates (a : DeliveryAlert D) : Type 0 where
    pub first : time a.first_observed_at ≢ none
    pub last : time a.last_observed_at ≢ none
    pub end : a.status ≡ resolved → time (resolved_or_last a) ≢ none
    pub acknowledgement : is_acknowledged a ≡ true → time (text_of a.acknowledged_at) ≢ none

  acknowledgement_key : DeliveryAlert D → List ℤ
  acknowledgement_key a =
      number_of (is_acknowledged a)
      ∷ (if is_acknowledged a then neg (or_zero (time (text_of a.acknowledged_at))) else pos 0)
      ∷ number_of (not (a.severity == critical))
      ∷ neg (or_zero (time a.last_observed_at))
      ∷ []

  abbrev end_key : DeliveryAlert D → ℤ
  end_key a = if a.status == resolved then neg (or_zero (time (resolved_or_last a))) else pos 0

  -- Active alerts come first, then the resolved, the last resolved first; of those alike, the alerts that
  -- nobody has acknowledged, then the others, the last acknowledged first; of those alike, the
  -- critical ones; and of those alike, the last observed.
  pub priority_key : DeliveryAlert D → List ℤ
  priority_key a = number_of (not (a.status == active)) ∷ end_key a ∷ acknowledgement_key a

  critical_order :
      (l r : DeliveryAlert D)
      → HasDates l
      → HasDates r
      → then_by
          (compare_ℤ
            (number_of (not (l.severity == critical)))
            (number_of (not (r.severity == critical))))
          (compare_times (time r.last_observed_at) (time l.last_observed_at))
        ≡ compare_keys
            (number_of (not (l.severity == critical))
              ∷ neg (or_zero (time l.last_observed_at))
              ∷ [])
            (number_of (not (r.severity == critical))
              ∷ neg (or_zero (time r.last_observed_at))
              ∷ [])
  critical_order l r h g =
      ap
        (then_by (
          compare_ℤ (number_of (not (l.severity == critical)))
            (number_of (not (r.severity == critical)))))
        (compare_times_valid (time l.last_observed_at) (time r.last_observed_at) h.last g.last
          ∙ sym (
              compare_keys-one (neg (or_zero (time l.last_observed_at)))
                (neg (or_zero (time r.last_observed_at)))))
      ∙ sym (compare_keys-cons _ _ _ _)

  acknowledgement_order :
      (l r : DeliveryAlert D)
      → HasDates l
      → HasDates r
      → by_acknowledgement time l r ≡ compare_keys (acknowledgement_key l) (acknowledgement_key r)
  unfolding by_acknowledgement acknowledgement_key
  acknowledgement_order l r h g =
      gated (is_acknowledged l) (is_acknowledged r) (time (text_of l.acknowledged_at))
        (time (text_of r.acknowledged_at)) _ h.acknowledgement g.acknowledgement
      ∙ two_keys _ _ _ _ _ _ (critical_order l r h g)

  pub by_priority-eq-compare_keys :
      (l r : DeliveryAlert D)
      → HasDates l
      → HasDates r
      → by_priority time l r ≡ compare_keys (priority_key l) (priority_key r)
  unfolding by_priority priority_key
  by_priority-eq-compare_keys l r h g =
      ap₂
        (λ bl br. then_by (compare_ℤ (number_of bl) (number_of br)) (
          then_by
            (if l.status == resolved && r.status == resolved
              then compare_times (time (resolved_or_last r)) (time (resolved_or_last l))
              else Ordering.eq)
            (by_acknowledgement time l r)))
        (sym (resolved_lem l.status)) (sym (resolved_lem r.status))
      ∙ gated (l.status == resolved) (r.status == resolved) (time (resolved_or_last l))
          (time (resolved_or_last r)) _ (λ e. h.end ((eq_iff l.status resolved).0 e))
          (λ e. g.end ((eq_iff r.status resolved).0 e))
      ∙ two_keys (number_of (l.status == resolved)) (number_of (r.status == resolved)) (end_key l)
          (end_key r) (acknowledgement_key l) (acknowledgement_key r)
          (acknowledgement_order l r h g)
      ∙ ap₂
          (λ bl br.
            compare_keys (number_of bl ∷ end_key l ∷ acknowledgement_key l)
              (number_of br ∷ end_key r ∷ acknowledgement_key r))
          (resolved_lem l.status) (resolved_lem r.status)
