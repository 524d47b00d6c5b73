-- ===== src/Display/Rotation.antt =====
-- The pages as a rotation, `Page` of src/display.rs.
use rust_gps_ntp.Common.{ℕ, zero, suc, ◌+◌, ◌%◌, ◌<◌, ◌≡◌, refl, arith}
use mathlib.Core.HLevel.{Σ_prop_path}
use mathlib.Core.Equiv.{Iso, iso_to_equiv}
use native.Mathlib.Bridge.{le_prop}
use rust_gps_ntp.Display.{Page, next_page, index, from_index, from_index-index}

-- The numbers below six.
abbrev pub Below6 : Type 0
Below6 = (n : ℕ) × (n < 6)

index-lt : (p : Page) → index p < 6
unfolding index
index-lt Page.time = omega arith
index-lt Page.location = omega arith
index-lt Page.resources = omega arith
index-lt Page.battery = omega arith
index-lt Page.ntp = omega arith
index-lt Page.network = omega arith

index-from_index : (n : ℕ) → n < 6 → index (from_index n) ≡ n
unfolding index from_index
index-from_index n h = ground arith

page_iso : Iso Page Below6
page_iso = record {
  fun = λ p. (index p, index-lt p);
  inv = λ b. from_index b.0;
  rinv = λ b. Σ_prop_path (λ n. le_prop) (index-from_index b.0 b.1);
  linv = from_index-index;
}

next_page-from_index : (p : Page) → next_page p ≡ from_index (index p + 1)
unfolding next_page from_index index
next_page-from_index Page.time = refl
next_page-from_index Page.location = refl
next_page-from_index Page.resources = refl
next_page-from_index Page.battery = refl
next_page-from_index Page.ntp = refl
next_page-from_index Page.network = refl

-- So many pages on.
abbrev pub turned : ℕ → Page → Page
turned zero p = p
turned (suc n) p = turned n (next_page p)

index-next_page : (p : Page) → index (next_page p) ≡ (index p + 1) % 6
unfolding next_page index
index-next_page Page.time = refl
index-next_page Page.location = refl
index-next_page Page.resources = refl
index-next_page Page.battery = refl
index-next_page Page.ntp = refl
index-next_page Page.network = refl

index-turned : (n : ℕ) (p : Page) → index (turned n p) ≡ (index p + n) % 6
index-turned zero p = omega (arith, index-lt p)
index-turned (suc n) p = omega (arith, index-turned n (next_page p), index-next_page p)

-- The numbers of the pages are those below six: `index` gives every page one of them and `from_index`
-- gives it back, a page for each of them, along one path between the two types. So many turns lead so
-- many numbers on, and from the last page to the first.
pub Page-Below6 :
    (path : Page ≡ Below6) × ((p : Page) → (coe 0 1 (i. path i) p).0 ≡ index p)
    × ((b : Below6) → coe 1 0 (i. path i) b ≡ from_index b.0)
    × ((n : ℕ) (p : Page) → index (turned n p) ≡ (index p + n) % 6)
unfolding page_iso
Page-Below6 = (λ i. V i Page Below6 (iso_to_equiv page_iso), λ p. refl, λ b. refl, index-turned)
