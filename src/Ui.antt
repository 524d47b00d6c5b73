-- ===== src/Ui.antt =====
-- The tasks that watch the button and draw the screen, src/ui_task.rs: the state that they share and
-- the readings that they take.
pub mod Button
pub mod Panel
pub mod Feed
use rust_gps_ntp.Common.{ℕ, Bool}

abbrev pub draw_interval_us : ℕ
draw_interval_us = 5_000_000

abbrev pub screen_blank_us : ℕ
screen_blank_us = 15_000_000

abbrev pub button_debounce_us : ℕ
button_debounce_us = 200_000

abbrev pub pullup_refresh_us : ℕ
pullup_refresh_us = 1_000_000

abbrev pub panel_loop_stall_us : ℕ
panel_loop_stall_us = 5_000_000

abbrev pub button_held_recover_us : ℕ
button_held_recover_us = 500_000

abbrev pub stuck_low_us : ℕ
stuck_low_us = 2_000_000

-- `page` is the index of the page.
pub record UiControl : Type 0 where
  pub page : ℕ
  pub screen_on : Bool
  pub render_req : ℕ
