-- ===== src/Display/Viewport/Cover.antt =====
-- Which pixels of the panel a drawing and a clearing reach, `OffsetDisplay` of src/display.rs.
use rust_gps_ntp.Common.{
  ℕ, zero, suc, ◌+◌, ◌≡◌, Bool, false, List, [], ◌∷◌, ◌++◌, ◌&&◌, leb, ltb, ◌==◌, if◌then◌else◌,
  arith,
}
use rust_gps_ntp.Common.Int.{ℤ, pos, negsuc}
use rust_gps_ntp.Display.Viewport.{
  OffsetDisplay, Pixel, Sent, inside, shifted, map_pixel, draw_iter, clear_row, clear_rows, clear,
  kept,
}

-- Whether a point of the panel lies in the window.
abbrev pub in_window : OffsetDisplay → ℕ → ℕ → Bool
in_window d x y =
    leb d.x_off x && ltb x (d.x_off + d.width) && leb d.y_off y && ltb y (d.y_off + d.height)

-- Whether a coordinate of a drawing is the one that a coordinate of the panel shows.
abbrev pub shows : ℤ → ℕ → ℕ → Bool
shows (pos n) off at = n + off == at
shows (negsuc n) off at = false

module _ {C : Type 0} where
  abbrev hits : ℕ → ℕ → Sent C → Bool
  hits x y q = q.0 == x && q.1 == y

  -- How often a point of the panel is written.
  abbrev pub writes : ℕ → ℕ → List (Sent C) → ℕ
  writes x y [] = 0
  writes x y (q ∷ qs) = (if hits x y q then 1 else 0) + writes x y qs

  writes-append :
      (x y : ℕ) (s t : List (Sent C)) → writes x y (s ++ t) ≡ writes x y s + writes x y t
  writes-append x y [] t = omega arith
  writes-append x y (q ∷ s) t = omega (arith, writes-append x y s t)

  writes-clear_row :
      (d : OffsetDisplay) (c : C) (n x y px py : ℕ)
      → writes px py (clear_row d c n x y)
        ≡ (if leb (x + d.x_off) px && ltb px (x + d.x_off + n) && y + d.y_off == py then 1 else 0)
  unfolding clear_row
  writes-clear_row d c zero x y px py = ground arith
  writes-clear_row d c (suc n) x y px py = ground (arith, writes-clear_row d c n (suc x) y px py)

  writes-clear_rows :
      (d : OffsetDisplay) (c : C) (n y px py : ℕ)
      → writes px py (clear_rows d c n y) ≡ (
          if leb d.x_off px
            && ltb px (d.x_off + d.width)
            && leb (y + d.y_off) py
            && ltb py (y + d.y_off + n)
          then 1
          else 0)
  unfolding clear_rows
  writes-clear_rows d c zero y px py = ground arith
  writes-clear_rows d c (suc n) y px py = ground (
    arith,
    writes-append px py (clear_row d c d.width 0 y) (clear_rows d c n (suc y)),
    writes-clear_row d c d.width 0 y px py,
    writes-clear_rows d c n (suc y) px py,
  )

  -- Every point of the window is cleared, once, and no other point of the panel is touched.
  pub clear-covers :
      (d : OffsetDisplay) (c : C) (x y : ℕ)
      → writes x y (clear d c) ≡ (if in_window d x y then 1 else 0)
  unfolding clear
  clear-covers d c x y = ground (arith, writes-clear_rows d c d.height 0 x y)

  -- How often a drawing has the point of the window that a point of the panel shows.
  abbrev pub meant : OffsetDisplay → ℕ → ℕ → List (Pixel C) → ℕ
  meant d x y [] = 0
  meant d x y (p ∷ ps) =
      (if shows p.x d.x_off x && shows p.y d.y_off y then 1 else 0) + meant d x y ps

  writes-kept :
      (d : OffsetDisplay) (px py : ℤ) (c : C) (x y : ℕ) (rest : List (Sent C))
      → writes x y (kept (shifted (inside px d.width) (inside py d.height) d c) rest)
        ≡ (if in_window d x y && shows px d.x_off x && shows py d.y_off y then 1 else 0)
          + writes x y rest
  writes-kept d (pos m) (pos n) c x y rest = ground arith
  writes-kept d (pos m) (negsuc n) c x y rest = ground arith
  writes-kept d (negsuc m) py c x y rest = ground arith

  -- A drawing writes each point of the window as often as the drawing has it, and no other point of
  -- the panel, wherever its own points lie.
  pub draw_iter-writes :
      (d : OffsetDisplay) (ps : List (Pixel C)) (x y : ℕ)
      → writes x y (draw_iter d ps) ≡ (if in_window d x y then meant d x y ps else 0)
  unfolding draw_iter map_pixel
  draw_iter-writes d [] x y = ground arith
  draw_iter-writes d (p ∷ ps) x y =
      ground (arith, writes-kept d p.x p.y p.color x y (draw_iter d ps), draw_iter-writes d ps x y)
