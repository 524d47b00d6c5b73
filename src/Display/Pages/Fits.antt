-- ===== src/Display/Pages/Fits.antt =====
-- Where the lines of a page stand, `draw_page` of src/display.rs.
use rust_gps_ntp.Common.{ℕ, ◌+◌, ◌*◌, ◌≤◌, List, [], ◌∷◌, length, Bool-cases, inl, inr, arith}
use rust_gps_ntp.Ntp.Float.{Floats}
use rust_gps_ntp.Protection.Cidr.{Text}
use rust_gps_ntp.Gps.Sentences.{Platform}
use rust_gps_ntp.Display.{Page}
use rust_gps_ntp.Display.Viewport.{display_height}
use rust_gps_ntp.Display.Labels.{Formats, gps_use_rtc_fallback}
use rust_gps_ntp.Display.Pages.{PageData, page_lines, place_lines, draw_page}

-- Each line has twenty rows above its baseline, below the baseline before, and ten under it.
abbrev pub Stacked : ℕ → List (ℕ × Text) → Type 0
Stacked above [] = Unit
Stacked above (l ∷ ls) = (above + 20 ≤ l.0) × (l.0 + 10 ≤ display_height) × Stacked l.0 ls

place_lines-Stacked :
    (above y : ℕ) (texts : List Text)
    → above + 20 ≤ y
    → y + 21 * length texts ≤ display_height + 11
    → Stacked above (place_lines y texts)
unfolding place_lines
place_lines-Stacked above y [] h k = tt
place_lines-Stacked above y (t ∷ texts) h k =
    (h, omega arith, place_lines-Stacked y (y + 21) texts (omega arith) (omega arith))

module _ {pf : Platform} {fl : Floats} (ft : Formats pf fl) where
  page_lines-few : (page : Page) (d : PageData pf fl) → length (page_lines ft page d) ≤ 6
  unfolding page_lines gps_use_rtc_fallback
  page_lines-few Page.time d = elim (Bool-cases (gps_use_rtc_fallback ft d.gps)) [
    | inl e ↦ rw e (omega arith)
    | inr e ↦ rw e (omega arith)
  ]
  page_lines-few Page.location d = elim (Bool-cases (gps_use_rtc_fallback ft d.gps)) [
    | inl e ↦ rw e (omega arith)
    | inr e ↦ rw e (omega arith)
  ]
  page_lines-few Page.resources d = elim (Bool-cases (d.storage.mounted)) [
    | inl e ↦ rw e (omega arith)
    | inr e ↦ rw e (omega arith)
  ]
  page_lines-few Page.battery d = omega arith
  page_lines-few Page.ntp d = omega arith
  page_lines-few Page.network d = omega arith

  -- Whatever is shown, the baseline of every line of a page is at least 20 rows below the line before
  -- or the top, and at least 10 rows above the lower edge of the window.
  pub draw_page-Stacked : (page : Page) (d : PageData pf fl) → Stacked 0 (draw_page ft page d)
  unfolding draw_page
  draw_page-Stacked page d =
      place_lines-Stacked 0 20 (page_lines ft page d) (omega arith)
        (omega (arith, page_lines-few page d))
