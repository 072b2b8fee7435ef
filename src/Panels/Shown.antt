-- ===== src/Panels/Shown.antt =====
-- The counts of rows on show in the panels, and the footers that change them. A panel's effects run at
-- once after what they depend on has changed. A panel resets the count when its filters change, and
-- clamps it when the number that it watches does: that of its filtered rows, or of all its rows.
pub mod Reach
pub mod Count
use logi_track.Base.{
  ℕ, zero, suc, [], ◌∷◌, ◌+◌, ◌-◌, min, max, List, ltb, if◌then◌else◌, take, length,
}

-- AlertOperationsPanel, OrderFlowPanel, WarehousePanel and FleetTelemetryPanel clamp by this, ...
unfoldable pub clamped : (step watched current : ℕ) → ℕ
clamped step watched current = max step (min current (max watched step))

-- ... OutboxRecoveryPanel and ReplayOperationsPanel by this.
unfoldable pub recovery_clamped : (step watched current : ℕ) → ℕ
recovery_clamped step watched current = min (max current step) (max watched step)

-- `rows.slice(0, visibleCount)`
unfoldable pub shown_rows : {A : Type 0} → (current : ℕ) → List A → List A
shown_rows current rows = take current rows

-- The button of a footer, with the number of rows on show
unfoldable pub footer_pressed : (step total shown : ℕ) → ℕ
footer_pressed step total shown = if ltb 0 (total - shown) then min (shown + step) total else step

-- The buttons of OrderFlowPanel, FleetTelemetryPanel and the audits start from the count itself.
unfoldable pub count_pressed : (step total shown current : ℕ) → ℕ
count_pressed step total shown current =
    if ltb 0 (total - shown) then min (current + step) total else step

-- A panel's list: its count, how many rows pass the filters, and the number that it watches
pub record Shown : Type 0 where
  pub current : ℕ
  pub total : ℕ
  pub watched : ℕ

pub data Change : Type 0 where
  -- the filters change, and with them the rows that pass
  filtered : (total : ℕ) → Change
  -- new rows come in
  replaced : (total watched : ℕ) → Change
  pressed : Change

unfoldable pub change : (step : ℕ) → Change → Shown → Shown
change step (filtered total) s = record { current = step; total = total; watched = s.watched }
change step (replaced total watched) s = record {
  current = clamped step watched s.current;
  total = total;
  watched = watched;
}
change step pressed s = record s {
  current = count_pressed step s.total (min s.current s.total) s.current;
}

unfoldable pub changes : (step : ℕ) → List Change → Shown → Shown
changes step [] s = s
changes step (c ∷ cs) s = changes step cs (change step c s)

-- A panel at its first render
unfoldable pub first_shown : (step total watched : ℕ) → Shown
first_shown step total watched = record { current = step; total = total; watched = watched }

-- The button pressed a number of times
unfoldable pub presses : (step total : ℕ) → ℕ → ℕ → ℕ
presses step total zero current = current
presses step total (suc n) current =
    presses step total n (footer_pressed step total (min current total))
