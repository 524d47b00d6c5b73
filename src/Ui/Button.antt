-- ===== src/Ui/Button.antt =====
-- `button_task_main` of src/ui_task.rs. Times are microseconds since boot, which are never negative,
-- so `saturating_sub` and the subtraction on ℕ are on the same side of every threshold.
pub mod Passes
pub mod Runs
use rust_gps_ntp.Common.{
  ℕ, ◌+◌, ◌-◌, Bool, true, false, List, [], ◌∷◌, ◌&&◌, ◌||◌, not, leb, ◌==◌, if◌then◌else◌,
}
use rust_gps_ntp.Common.Words.{u32}
use rust_gps_ntp.Display.{next_page, index, from_index}
use rust_gps_ntp.Ui.{
  UiControl, draw_interval_us, screen_blank_us, button_debounce_us, pullup_refresh_us,
  panel_loop_stall_us, button_held_recover_us, stuck_low_us,
}

-- What one pass of the loop reads: the clock, the counter of falling edges, the level of the line,
-- the counter once more after the input has been restored, the last lap of the panel task, and the
-- level of the line when a restart is considered.
pub record Readings : Type 0 where
  pub now_us : ℕ
  pub edges : ℕ
  pub high : Bool
  pub edges_after : ℕ
  pub panel_at : ℕ
  pub high_later : Bool

-- The calls that the task makes on the hardware. Their errors are logged and change nothing else.
pub data Effect : Type 0 where
  enable_interrupt : Effect
  restore_button_input : Effect
  set_backlight : Bool → Effect
  set_pull : Effect
  restart : Effect

-- The variables of the loop, the shared control, and the calls made so far, the latest first. The
-- restart does not return: `restarted` says that it has been called.
pub record ButtonTask : Type 0 where
  pub last_edges : ℕ
  pub last_level_pressed : Bool
  pub last_action_us : ℕ
  pub last_interaction_us : ℕ
  pub last_redraw_req_us : ℕ
  pub last_pullup_us : ℕ
  pub low_since : ℕ
  pub stuck_logged : Bool
  pub last_recover_us : ℕ
  pub restart_blocked_logged : Bool
  pub control : UiControl
  pub restarted : Bool
  pub calls : List Effect

-- The variables before the loop, for the counter and the clock that are read there.
unfoldable pub button_start : ℕ → ℕ → UiControl → ButtonTask
button_start edges now control = record {
  last_edges = edges;
  last_level_pressed = false;
  last_action_us = 0;
  last_interaction_us = now;
  last_redraw_req_us = now;
  last_pullup_us = now;
  low_since = 0;
  stuck_logged = false;
  last_recover_us = 0;
  restart_blocked_logged = false;
  control = control;
  restarted = false;
  calls = [];
}

abbrev pub edge_press : Readings → ButtonTask → Bool
edge_press r s = not (r.edges == s.last_edges)

abbrev pub level_press : Readings → ButtonTask → Bool
level_press r s = not r.high && not s.last_level_pressed

unfoldable pub note_edges : Readings → ButtonTask → ButtonTask
note_edges r s =
    if edge_press r s
    then record s { last_edges = r.edges; calls = enable_interrupt ∷ s.calls }
    else s

abbrev pub note_stuck : Readings → ButtonTask → ButtonTask
note_stuck r s =
    if not s.stuck_logged && leb stuck_low_us (r.now_us - s.low_since)
    then record s { stuck_logged = true }
    else s

-- The line is low: how long it has been, and the repair of the input.
unfoldable pub held_low : Readings → ButtonTask → ButtonTask
held_low r s =
    if s.low_since == 0
    then record s { low_since = r.now_us }
    else if leb button_held_recover_us (r.now_us - s.low_since)
        && leb pullup_refresh_us (r.now_us - s.last_recover_us)
    then record s {
      last_edges = r.edges_after;
      last_recover_us = r.now_us;
      calls = restore_button_input ∷ s.calls;
    }
    else s

unfoldable pub note_level : Readings → ButtonTask → ButtonTask
unfolding held_low
note_level r s =
    let t : ButtonTask = record s { last_level_pressed = not r.high } in
    if not r.high
    then note_stuck r (held_low r t)
    else record t { low_since = 0; stuck_logged = false }

-- A press wakes a dark screen, and turns the page of a lit one.
unfoldable pub act : Readings → ButtonTask → ButtonTask
act r s =
    let c = s.control in
    let req = u32 (c.render_req + 1) in
    let t : ButtonTask = record s {
      last_action_us = r.now_us;
      last_interaction_us = r.now_us;
      last_redraw_req_us = r.now_us;
    } in
    if not c.screen_on
    then record t {
      control = record c { screen_on = true; render_req = req };
      calls = set_backlight true ∷ s.calls;
    }
    else record t {
      control = record c { page = index (next_page (from_index c.page)); render_req = req };
    }

unfoldable pub press : Bool → Readings → ButtonTask → ButtonTask
unfolding act
press pressed r s =
    if pressed && leb button_debounce_us (r.now_us - s.last_action_us) then act r s else s

unfoldable pub blank : Readings → ButtonTask → ButtonTask
blank r s =
    if s.control.screen_on && leb screen_blank_us (r.now_us - s.last_interaction_us)
    then record s {
      control = record s.control { screen_on = false };
      calls = set_backlight false ∷ s.calls;
    }
    else s

unfoldable pub redraw : Readings → ButtonTask → ButtonTask
redraw r s =
    if s.control.screen_on && leb draw_interval_us (r.now_us - s.last_redraw_req_us)
    then record s {
      control = record s.control { render_req = u32 (s.control.render_req + 1) };
      last_redraw_req_us = r.now_us;
    }
    else s

unfoldable pub refresh_pull : Readings → ButtonTask → ButtonTask
refresh_pull r s =
    if leb pullup_refresh_us (r.now_us - s.last_pullup_us)
    then record s { last_pullup_us = r.now_us; calls = set_pull ∷ s.calls }
    else s

-- A panel task that has stalled, while a low line would select the download mode.
unfoldable pub watch_panel : Readings → ButtonTask → ButtonTask
watch_panel r s =
    if not (r.panel_at == 0) && leb panel_loop_stall_us (r.now_us - r.panel_at)
    then (if r.high_later
        then record s { restarted = true; calls = restart ∷ s.calls }
        else record s { restart_blocked_logged = true })
    else record s { restart_blocked_logged = false }

-- One pass of the loop.
unfoldable pub button_pass : Readings → ButtonTask → ButtonTask
unfolding note_edges note_level press blank redraw refresh_pull watch_panel
button_pass r s =
    let pressed = edge_press r s || level_press r s in
    watch_panel r
      (refresh_pull r (redraw r (blank r (press pressed r (note_level r (note_edges r s))))))

-- The loop, for the readings of its passes; it ends with a restart.
unfoldable pub button_loop : List Readings → ButtonTask → ButtonTask
unfolding button_pass
button_loop [] s = s
button_loop (r ∷ rs) s = elim s.restarted [ true ↦ s | false ↦ button_loop rs (button_pass r s) ]
