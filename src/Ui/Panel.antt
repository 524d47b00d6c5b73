-- ===== src/Ui/Panel.antt =====
-- The frames of `panel_task_main` of src/ui_task.rs, beside the button task: every load and store of
-- the shared control is a step, and the steps of the two tasks may come in any order.
pub mod Frames
pub mod Refines
use rust_gps_ntp.Common.{
  ℕ, zero, suc, ◌+◌, ◌<◌, ◌≡◌, Bool, true, false, Option, none, some, ◌&&◌, not, ◌==◌,
  if◌then◌else◌,
}
use rust_gps_ntp.Common.Words.{u32}
use rust_gps_ntp.Display.{Page, next_page, index, from_index, eq_page}
use rust_gps_ntp.Ui.{UiControl}

-- Where the panel task stands: at the top of its loop, past the load of the request, past that of
-- the switch of the screen when a frame is to be drawn, in a drawing
-- that took the given request and page, past the drawing, past the comparison of the pages, and in
-- the part of the loop that samples the sensors.
pub data Phase : Type 0 where
  top : Phase
  loaded : ℕ → Phase
  switched : ℕ → Phase
  drawing : ℕ → Page → Phase
  drawn : ℕ → Page → Phase
  matched : ℕ → Page → Phase
  sensors : Phase

-- `due` says that the button task has stored a new page and has yet to count the request. `shown` is the page that the last finished drawing left on the screen.
pub record Screen : Type 0 where
  pub control : UiControl
  pub due : Bool
  pub last_drawn : ℕ
  pub shown : Option Page
  pub phase : Phase

unfoldable pub screen_start : Screen
unfolding index
screen_start = record {
  control = record { page = index Page.time; screen_on = true; render_req = 1 };
  due = false;
  last_drawn = 0;
  shown = none;
  phase = Phase.top;
}

-- The next step of the panel task.
unfoldable pub panel_step_at : Phase → Screen → Screen
unfolding from_index eq_page
panel_step_at Phase.top s = record s { phase = Phase.loaded s.control.render_req }
panel_step_at (Phase.loaded req) s =
    if s.control.screen_on && not (req == s.last_drawn)
    then record s { phase = Phase.switched req }
    else record s { phase = Phase.sensors }
panel_step_at (Phase.switched req) s = record s {
  phase = Phase.drawing req (from_index s.control.page);
}
panel_step_at (Phase.drawing req page) s = record s {
  shown = some page;
  phase = Phase.drawn req page;
}
panel_step_at (Phase.drawn req page) s =
    if eq_page (from_index s.control.page) page
    then record s { phase = Phase.matched req page }
    else record s { phase = Phase.sensors }
panel_step_at (Phase.matched req page) s =
    if s.control.render_req == req
    then record s { last_drawn = req; phase = Phase.sensors }
    else record s { phase = Phase.sensors }
panel_step_at Phase.sensors s = record s { phase = Phase.top }

abbrev pub panel_step : Screen → Screen
panel_step s = panel_step_at s.phase s

-- The stores of the button task.
unfoldable pub turn_page : Screen → Screen
turn_page s = record s {
  control = record s.control { page = index (next_page (from_index s.control.page)) };
  due = true;
}

unfoldable pub set_screen : Bool → Screen → Screen
set_screen on s = record s { control = record s.control { screen_on = on } }

unfoldable pub request : Screen → Screen
request s = record s {
  control = record s.control { render_req = u32 (s.control.render_req + 1) };
  due = false;
}

-- A step of either task.
pub data Step (s : Screen) : Screen → Type 0 where
  panel : Step s (panel_step s)
  turn : Step s (turn_page s)
  switch : (on : Bool) → Step s (set_screen on s)
  count : Step s (request s)

-- The requests counted so far, after a step.
abbrev pub counted : {s t : Screen} → Step s t → ℕ → ℕ
counted panel n = n
counted turn n = n
counted (switch _) n = n
counted count n = suc n

-- The states that the two tasks reach, with the number of requests counted on the way.
pub data Reach : ℕ → Screen → Type 0 where
  start : Reach 0 screen_start
  next : {n : ℕ} {s t : Screen} → Reach n s → (st : Step s t) → Reach (counted st n) t

-- The panel task alone, to the end of its frame.
unfoldable pub run_frame : ℕ → Screen → Screen
unfolding panel_step_at
run_frame zero s = s
run_frame (suc n) s = elim s.phase [ Phase.sensors ↦ s | _ ↦ run_frame n (panel_step s) ]
