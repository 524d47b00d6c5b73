-- ===== src/Display/Viewport.antt =====
-- `OffsetDisplay` of src/display.rs: the window of the panel that the pages are drawn into. The panel
-- is a driver; what is sent to it is a list of pixels. A color is of any type.
pub mod Cover
use rust_gps_ntp.Common.{
  ℕ, zero, suc, ◌+◌, Bool, true, false, Option, none, some, List, [], ◌∷◌, ◌++◌, ◌||◌, ltb, leb,
  if◌then◌else◌,
}
use rust_gps_ntp.Common.Int.{ℤ, pos, negsuc}

abbrev pub display_x_offset : ℕ
display_x_offset = 40

abbrev pub display_y_offset : ℕ
display_y_offset = 52

abbrev pub display_width : ℕ
display_width = 240

abbrev pub display_height : ℕ
display_height = 135

-- The offsets and sizes are of 16 bits.
pub record OffsetDisplay : Type 0 where
  pub x_off : ℕ
  pub y_off : ℕ
  pub width : ℕ
  pub height : ℕ

-- The window that `make_panel` gives.
unfoldable pub make_panel : OffsetDisplay
make_panel = record {
  x_off = display_x_offset;
  y_off = display_y_offset;
  width = display_width;
  height = display_height;
}

-- A pixel of a drawing, whose coordinates may be negative, and one that is sent to the panel.
pub record Pixel (C : Type 0) : Type 0 where
  pub x : ℤ
  pub y : ℤ
  pub color : C

abbrev pub Sent : Type 0 → Type 0
Sent C = ℕ × ℕ × C

-- A coordinate that lies in the window: not negative, and below the size.
abbrev pub inside : ℤ → ℕ → Option ℕ
inside (pos n) size = if leb size n then none else some n
inside (negsuc n) size = none

module _ {C : Type 0} where
  abbrev pub shifted : Option ℕ → Option ℕ → OffsetDisplay → C → Option (Sent C)
  shifted (some x) (some y) d c = some (x + d.x_off, y + d.y_off, c)
  shifted (some x) none d c = none
  shifted none _ d c = none

  unfoldable pub map_pixel : OffsetDisplay → Pixel C → Option (Sent C)
  map_pixel d p = shifted (inside p.x d.width) (inside p.y d.height) d p.color

  abbrev pub kept : Option (Sent C) → List (Sent C) → List (Sent C)
  kept none rest = rest
  kept (some q) rest = q ∷ rest

  unfoldable pub draw_iter : OffsetDisplay → List (Pixel C) → List (Sent C)
  unfolding map_pixel
  draw_iter d [] = []
  draw_iter d (p ∷ ps) = kept (map_pixel d p) (draw_iter d ps)

  -- The columns of one row from `x` on, and the rows from `y` on.
  unfoldable pub clear_row : OffsetDisplay → C → (n x y : ℕ) → List (Sent C)
  clear_row d c zero x y = []
  clear_row d c (suc n) x y = (x + d.x_off, y + d.y_off, c) ∷ clear_row d c n (suc x) y

  unfoldable pub clear_rows : OffsetDisplay → C → (n y : ℕ) → List (Sent C)
  unfolding clear_row
  clear_rows d c zero y = []
  clear_rows d c (suc n) y = clear_row d c d.width 0 y ++ clear_rows d c n (suc y)

  unfoldable pub clear : OffsetDisplay → C → List (Sent C)
  unfolding clear_rows
  clear d c = clear_rows d c d.height 0
