-- ===== src/Tests/Screen.antt =====
-- The button and the panel tasks, src/ui_task.rs and src/display.rs.
use rust_gps_ntp.Common.{ℕ, ◌≡◌, refl, true, false, some, List, [], ◌∷◌, ◌++◌, arith}
use rust_gps_ntp.Display.{from_index, next_page, index}
use rust_gps_ntp.Ui.{UiControl}
use rust_gps_ntp.Ui.Button.{
  Readings, ButtonTask, button_start, button_pass, button_loop, note_edges, note_level, held_low,
  press, act, blank, redraw, refresh_pull, watch_panel,
}
use rust_gps_ntp.Ui.Button.Runs.{response_times, Apart, response_times-Apart, button_loop-Dark}
use rust_gps_ntp.Ui.Panel.{
  Phase, Screen, screen_start, panel, turn, count, start, next, Reach, run_frame, panel_step,
  panel_step_at, turn_page, request,
}
use rust_gps_ntp.Ui.Panel.Frames.{Reach-Shows, run_frame-Shows}
use rust_gps_ntp.Ui.Panel.Refines.{Pass, Run, IsBeside, button_pass-Run}

abbrev lit : UiControl
lit = record { page = 0; screen_on = true; render_req = 1 }

abbrev begun : ButtonTask
begun = button_start 0 1_000_000 lit

-- The line at rest at a time, with a counter of edges, and the panel task lapping.
abbrev reading : ℕ → ℕ → Readings
reading edges now = record {
  now_us = now;
  edges = edges;
  high = true;
  edges_after = edges;
  panel_at = now;
  high_later = true;
}

-- Three edges, the second of them within the debounce time of the first.
abbrev bounces : List Readings
bounces = reading 1 1_010_000 ∷ reading 2 1_100_000 ∷ reading 3 1_300_000 ∷ []

taken_twice : response_times bounces begun ≡ 1_010_000 ∷ 1_300_000 ∷ []
unfolding response_times button_pass button_start note_edges note_level held_low press act blank
    redraw refresh_pull watch_panel next_page index from_index
taken_twice = refl

response_times-Apart_example : Apart begun.last_action_us (response_times bounces begun)
response_times-Apart_example = response_times-Apart bounces begun

button_loop-Dark_example :
    let t = button_loop ((reading 0 9_000_000 ∷ []) ++ (reading 0 16_000_000 ∷ [])) begun in
    (t.control.screen_on ≡ false) × (t.control.page ≡ begun.control.page) × (t.restarted ≡ false)
unfolding button_start
button_loop-Dark_example =
    button_loop-Dark (reading 0 9_000_000 ∷ []) (reading 0 16_000_000) begun refl
      ((refl, refl, omega arith), ((refl, refl, omega arith), tt)) (omega arith)

button_pass-Run_example :
    (t : Screen) × Pass (reading 1 1_210_000) begun screen_start t
    × Run screen_start t
    × (t.control ≡ (button_pass (reading 1 1_210_000) begun).control)
    × IsBeside screen_start t
unfolding screen_start button_start index
button_pass-Run_example = button_pass-Run (reading 1 1_210_000) begun screen_start refl refl

-- A first frame is drawn to its end.
abbrev framed : Screen
framed = panel_step (panel_step (panel_step (panel_step (panel_step (panel_step screen_start)))))

framed-Reach : Reach 0 framed
framed-Reach = next (next (next (next (next (next start panel) panel) panel) panel) panel) panel

Reach-Shows_example : framed.shown ≡ some (from_index framed.control.page)
unfolding screen_start panel_step_at from_index index
Reach-Shows_example = Reach-Shows framed-Reach (omega arith) refl refl

-- The page is turned while the first frame is drawn, and the frame does not count.
abbrev turned : Screen
turned = panel_step (
    panel_step
      (panel_step (request (turn_page (panel_step (panel_step (panel_step screen_start)))))))

turned-Reach : Reach 1 turned
turned-Reach =
    next
      (next (next (next (next (next (next (next start panel) panel) panel) turn) count) panel)
        panel)
      panel

run_frame-Shows_example :
    let t = run_frame 6 turned in
    (t.phase ≡ Phase.sensors)
    × (t.last_drawn ≡ turned.control.render_req)
    × (t.shown ≡ some (from_index turned.control.page))
unfolding screen_start panel_step_at from_index index turn_page request next_page
run_frame-Shows_example = run_frame-Shows turned-Reach (omega arith) refl refl refl
