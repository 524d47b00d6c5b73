-- ===== src/Pins.antt =====
-- The registry and the pool of GPIO pins, src/pins.rs. An owner is a name, of any type.
pub mod Grants
pub mod Startup
use rust_gps_ntp.Common.{
  ℕ, Bool, true, false, Option, none, some, List, [], ◌∷◌, ◌==◌, if◌then◌else◌, get_elem?, set,
  replicate,
}
use rust_gps_ntp.Common.Int.{ℤ, pos, negsuc}

abbrev pub gpio_count : ℕ
gpio_count = 49

module _ (O : Type 0) where
  pub data PinError : Type 0 where
    already_in_use : ℤ → O → PinError
    not_available : ℤ → PinError

  -- `Result<T, PinError>`.
  pub data Claimed (T : Type 0) : Type 0 where
    ok : T → Claimed T
    err : PinError → Claimed T

  abbrev pub PinRegistry : Type 0
  PinRegistry = List (Option O)

  -- `pins` are the numbers of the fields of the pool that still hold their pin.
  pub record PinPool : Type 0 where
    pub registry : PinRegistry
    pub pins : List ℕ

  unfoldable pub new : PinRegistry
  new = replicate gpio_count none

module _ {O : Type 0} where
  -- `owners.get(pin as usize)`: a negative number is out of range.
  abbrev pub slot : PinRegistry O → ℤ → Option (Option O)
  slot r (pos n) = get_elem? r n
  slot r (negsuc n) = none

  abbrev pub put : PinRegistry O → ℤ → Option O → PinRegistry O
  put r (pos n) o = set r n o
  put r (negsuc n) o = r

  -- The claim of a slot, by what is in it.
  abbrev pub fill : Option (Option O) → ℤ → O → PinRegistry O → Claimed O (Unit {0}) × PinRegistry O
  fill none pin who r = (err (not_available pin), r)
  fill (some (some existing)) pin who r = (err (already_in_use pin existing), r)
  fill (some none) pin who r = (ok tt, put r pin (some who))

  unfoldable pub claim : ℤ → O → PinRegistry O → Claimed O (Unit {0}) × PinRegistry O
  claim pin who r = fill (slot r pin) pin who r

  unfoldable pub release : ℤ → PinRegistry O → PinRegistry O
  release pin r = put r pin none

  unfoldable pub owner : ℤ → PinRegistry O → Option O
  owner pin r = elim (slot r pin) [ none ↦ none | some o ↦ o ]

  unfoldable pub from_board_pins : PinPool O
  unfolding new
  from_board_pins = record {
    registry = new O;
    pins = 0 ∷ 1 ∷ 2 ∷ 7 ∷ 10 ∷ 12 ∷ 21 ∷ 33 ∷ 35 ∷ 36 ∷ 37 ∷ 39 ∷ 40 ∷ 41 ∷ 42 ∷ 45 ∷ [];
  }

-- Whether a field holds its pin, and the fields once the pin is taken out.
abbrev pub holds : List ℕ → ℕ → Bool
holds [] n = false
holds (p ∷ ps) n = if p == n then true else holds ps n

abbrev pub without : List ℕ → ℕ → List ℕ
without [] n = []
without (p ∷ ps) n = if p == n then without ps n else p ∷ without ps n

module _ {O : Type 0} where
  unfoldable pub release_pin : ℤ → PinPool O → PinPool O
  unfolding release
  release_pin pin p = record p { registry = release pin p.registry }

  -- The pin's field, after its number has been claimed.
  unfoldable pub take_field : ℕ → PinRegistry O → PinPool O → Claimed O ℕ × PinPool O
  unfolding release
  take_field n claimed p =
      if holds p.pins n
      then (ok n, record { registry = claimed; pins = without p.pins n })
      else (err (not_available (pos n)), record p { registry = release (pos n) claimed })

  abbrev pub after_claim :
      ℕ → Claimed O (Unit {0}) × PinRegistry O → PinPool O → Claimed O ℕ × PinPool O
  after_claim n (err e, claimed) p = (err e, record p { registry = claimed })
  after_claim n (ok _, claimed) p = take_field n claimed p

  -- What every `take_gpio` does for its number.
  unfoldable pub take_gpio : ℕ → O → PinPool O → Claimed O ℕ × PinPool O
  unfolding claim take_field
  take_gpio n who p = after_claim n (claim (pos n) who p.registry) p

  abbrev pub take_gpio0 : O → PinPool O → Claimed O ℕ × PinPool O
  take_gpio0 = take_gpio 0

  abbrev pub take_gpio1 : O → PinPool O → Claimed O ℕ × PinPool O
  take_gpio1 = take_gpio 1

  abbrev pub take_gpio2 : O → PinPool O → Claimed O ℕ × PinPool O
  take_gpio2 = take_gpio 2

  abbrev pub take_gpio7 : O → PinPool O → Claimed O ℕ × PinPool O
  take_gpio7 = take_gpio 7

  abbrev pub take_gpio10 : O → PinPool O → Claimed O ℕ × PinPool O
  take_gpio10 = take_gpio 10

  abbrev pub take_gpio12 : O → PinPool O → Claimed O ℕ × PinPool O
  take_gpio12 = take_gpio 12

  abbrev pub take_gpio21 : O → PinPool O → Claimed O ℕ × PinPool O
  take_gpio21 = take_gpio 21

  abbrev pub take_gpio33 : O → PinPool O → Claimed O ℕ × PinPool O
  take_gpio33 = take_gpio 33

  abbrev pub take_gpio35 : O → PinPool O → Claimed O ℕ × PinPool O
  take_gpio35 = take_gpio 35

  abbrev pub take_gpio36 : O → PinPool O → Claimed O ℕ × PinPool O
  take_gpio36 = take_gpio 36

  abbrev pub take_gpio37 : O → PinPool O → Claimed O ℕ × PinPool O
  take_gpio37 = take_gpio 37

  abbrev pub take_gpio39 : O → PinPool O → Claimed O ℕ × PinPool O
  take_gpio39 = take_gpio 39

  abbrev pub take_gpio40 : O → PinPool O → Claimed O ℕ × PinPool O
  take_gpio40 = take_gpio 40

  abbrev pub take_gpio41 : O → PinPool O → Claimed O ℕ × PinPool O
  take_gpio41 = take_gpio 41

  abbrev pub take_gpio42 : O → PinPool O → Claimed O ℕ × PinPool O
  take_gpio42 = take_gpio 42

  abbrev pub take_gpio45 : O → PinPool O → Claimed O ℕ × PinPool O
  take_gpio45 = take_gpio 45
