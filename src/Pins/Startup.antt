-- ===== src/Pins/Startup.antt =====
-- How a device starts: it takes pins of the pool, src/pins.rs, and calls the platform, and the first
-- failure ends it with `?`. What has been taken before stays taken.
pub mod Runs
use rust_gps_ntp.Common.{ℕ, Bool, true, false}
use rust_gps_ntp.Pins.{PinError, PinPool, Claimed, ok, err, take_gpio}

-- An error of a pin, or any error of the platform.
pub data Started (O A : Type 0) : Type 0 where
  started : A → Started O A
  pin_error : PinError O → Started O A
  failed : Started O A

abbrev pub Startup : Type 0 → Type 0 → Type 0
Startup O A = PinPool O → Started O A × PinPool O

module _ {O : Type 0} where
  abbrev pub then_run :
      {A B : Type 0} → (A → Startup O B) → Started O A × PinPool O → Started O B × PinPool O
  then_run f (started a, p) = f a p
  then_run f (pin_error e, p) = (pin_error e, p)
  then_run f (failed, p) = (failed, p)

  infixl 5 ◌>>=◌ ◌>>◌
  unfoldable pub ◌>>=◌ : {A B : Type 0} → Startup O A → (A → Startup O B) → Startup O B
  ◌>>=◌ m f p = then_run f (m p)

  unfoldable pub ◌>>◌ : {B : Type 0} → Startup O (Unit {0}) → Startup O B → Startup O B
  unfolding ◌>>=◌
  m >> k = m >>= λ _. k

  unfoldable pub pure : {A : Type 0} → A → Startup O A
  pure a p = (started a, p)

  abbrev pub after_take : Claimed O ℕ × PinPool O → Started O (Unit {0}) × PinPool O
  after_take (ok n, p) = (started tt, p)
  after_take (err e, p) = (pin_error e, p)

  -- `pool.take_gpioN(MODULE).map_err(anyhow::Error::from)?`.
  unfoldable pub take_pin : O → ℕ → Startup O (Unit {0})
  take_pin who n p = after_take (take_gpio n who p)

  -- A call of the platform, which succeeds or not.
  unfoldable pub platform : Bool → Startup O (Unit {0})
  platform true p = (started tt, p)
  platform false p = (failed, p)
