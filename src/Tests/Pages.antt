-- ===== src/Tests/Pages.antt =====
-- The window and the pages, and the queue of the card's calls, src/display.rs and src/storage.rs.
use rust_gps_ntp.Common.{◌≡◌, refl, true, false, none, some, [], ◌∷◌, List, if◌then◌else◌}
use rust_gps_ntp.Common.Int.{pos, negsuc}
use rust_gps_ntp.Ntp.Packet.{codes}
use rust_gps_ntp.Ntp.Params.{ntp_snapshot}
use rust_gps_ntp.Display.{Page}
use rust_gps_ntp.Display.Labels.{Formats}
use rust_gps_ntp.Display.Pages.{PageData, draw_page}
use rust_gps_ntp.Display.Pages.Fits.{Stacked, draw_page-Stacked}
use rust_gps_ntp.Display.Viewport.{Pixel, make_panel, draw_iter, map_pixel}
use rust_gps_ntp.Display.Viewport.Cover.{writes, in_window, meant, draw_iter-writes}
use rust_gps_ntp.Storage.{no_status, request_usage_refresh}
use rust_gps_ntp.Storage.Jobs.{
  SdJob, SdJobs, started_jobs, call, worker_rereads, start, next, calls, asks_usage, rereads,
  rereading,
}
use rust_gps_ntp.Storage.Jobs.Order.{InOrder, Reach-InOrder}
use rust_gps_ntp.Tests.Clock.{whole, locked_server}
use rust_gps_ntp.Tests.Receiver.{plain_platform, had_fix}

-- A job that the worker has begun.
abbrev job : SdJob
job = record { label = 1; caller = 4 }

-- On a ready card a task asks for the space, and the worker begins to reread it while a job waits.
abbrev asked : SdJobs
asked =
    let s = call job (started_jobs true no_status) in
    record s { statics = request_usage_refresh s.statics }

Reach-InOrder_example : InOrder (4 ∷ []) (worker_rereads 7_000_000 asked)
unfolding worker_rereads call started_jobs request_usage_refresh
Reach-InOrder_example =
    Reach-InOrder
      (next (next (next (start true no_status) (calls job)) asks_usage) (rereads 7_000_000)) refl

is_rereading : (worker_rereads 7_000_000 asked).worker ≡ rereading
unfolding worker_rereads call started_jobs request_usage_refresh
is_rereading = refl

-- A point in the corner of the window, twice, and one to the left of it.
abbrev corner : List (Pixel (List Page))
corner =
    record { x = pos 0; y = pos 0; color = [] }
    ∷ record { x = negsuc 0; y = pos 5; color = [] }
    ∷ record { x = pos 0; y = pos 0; color = Page.time ∷ [] }
    ∷ []

draw_iter-writes_example :
    writes 40 52 (draw_iter make_panel corner)
    ≡ (if in_window make_panel 40 52 then meant make_panel 40 52 corner else 0)
draw_iter-writes_example = draw_iter-writes make_panel corner 40 52

corner_written : writes 40 52 (draw_iter make_panel corner) ≡ 2
unfolding make_panel draw_iter map_pixel
corner_written = refl

abbrev no_formats : Formats plain_platform whole
no_formats = record {
  degrees6 = λ v. [];
  metres1 = λ v. [];
  volts3 = λ v. [];
  percent1 = λ v. [];
  fixed1 = λ v. [];
  signed3 = λ v. [];
  round32 = λ v. v;
  to_u32 = λ v. 0;
  in_zone_text = λ z t. none;
  calendar = λ t. none;
}

abbrev shown : PageData plain_platform whole
shown = record {
  zone = none;
  gps = had_fix;
  battery = record { voltage_v = pos 4; percent = pos 90 };
  pps_delta_us = 1_000_012;
  ntp = ntp_snapshot locked_server true (pos 0) (pos 0) 0;
  storage = no_status;
  rtc = record { detected = false; utc_unix_seconds = none };
  network = record {
    ip = codes "192.168.1.7";
    gateway = codes "192.168.1.1";
    hostname = codes "ntp";
    ssid = codes "home";
  };
  system = record { free_heap = 200_000; min_heap = 150_000; partition = some 4_000_000 };
}

draw_page-Stacked_example : Stacked 0 (draw_page no_formats Page.time shown)
draw_page-Stacked_example = draw_page-Stacked no_formats Page.time shown
