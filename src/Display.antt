-- ===== src/Display.antt =====
-- The page order of the screen, src/display.rs.
pub mod Device
pub mod Rotation
pub mod Labels
pub mod Pages
pub mod Viewport
use rust_gps_ntp.Common.{ℕ, ◌%◌, Bool, ◌≡◌, refl, sym, ap, ◌∙◌, ==_iff, ◌==◌, if◌then◌else◌}

pub data Page : Type 0 where
  time : Page
  location : Page
  resources : Page
  battery : Page
  ntp : Page
  network : Page

unfoldable pub next_page : Page → Page
next_page Page.time = Page.location
next_page Page.location = Page.resources
next_page Page.resources = Page.battery
next_page Page.battery = Page.ntp
next_page Page.ntp = Page.network
next_page Page.network = Page.time

unfoldable pub index : Page → ℕ
index Page.time = 0
index Page.location = 1
index Page.resources = 2
index Page.battery = 3
index Page.ntp = 4
index Page.network = 5

unfoldable pub from_index : ℕ → Page
from_index n =
    if n % 6 == 0
    then Page.time
    else if n % 6 == 1
    then Page.location
    else if n % 6 == 2
    then Page.resources
    else if n % 6 == 3
    then Page.battery
    else if n % 6 == 4
    then Page.ntp
    else Page.network

-- The stored index of a page names it again.
pub from_index-index : (p : Page) → from_index (index p) ≡ p
unfolding from_index index
from_index-index Page.time = refl
from_index-index Page.location = refl
from_index-index Page.resources = refl
from_index-index Page.battery = refl
from_index-index Page.ntp = refl
from_index-index Page.network = refl

unfoldable pub eq_page : Page → Page → Bool
unfolding index
eq_page p q = index p == index q

pub eq_page_sound : (p q : Page) → eq_page p q ≡ Bool.true → p ≡ q
unfolding eq_page
eq_page_sound p q h =
    sym (from_index-index p) ∙ ap from_index ((==_iff (index p) (index q)).0 h) ∙ from_index-index q

pub eq_page_refl : (p : Page) → eq_page p p ≡ Bool.true
unfolding eq_page
eq_page_refl p = (==_iff (index p) (index p)).1 refl
