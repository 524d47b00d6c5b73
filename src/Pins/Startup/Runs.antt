-- ===== src/Pins/Startup/Runs.antt =====
-- When a start-up cannot fail for the want of a pin, src/pins.rs.
use rust_gps_ntp.Common.{
  ℕ, ◌≡◌, ◌≢◌, refl, ◌∙◌, Bool, true, false, none, some, List, [], ◌∷◌, ◌&&◌, ◌==◌, if◌then◌else◌,
  get_elem?, get_elem?-set_ne, set, arith,
}
use rust_gps_ntp.Common.Int.{pos}
use rust_gps_ntp.Pins.{
  PinPool, Claimed, ok, err, claim, take_field, take_gpio, release_pin, release, holds, without,
}
use rust_gps_ntp.Pins.Startup.{
  Started, started, pin_error, failed, Startup, take_pin, platform, pure, ◌>>=◌, ◌>>◌, then_run,
  after_take,
}

-- Whether a pin is in a list.
abbrev pub listed : List ℕ → ℕ → Bool
listed [] n = false
listed (m ∷ ms) n = if m == n then true else listed ms n

unlisted :
    (n m : ℕ) (ns : List ℕ) → listed (m ∷ ns) n ≡ false → ((n == m) ≡ false) × (listed ns n ≡ false)
unlisted n m ns e = (ground (arith, e), ground (arith, e))

without-ne : (ps : List ℕ) (m n : ℕ) → m ≢ n → holds (without ps m) n ≡ holds ps n
without-ne [] m n h = refl
without-ne (p ∷ ps) m n h = ground (arith, without-ne ps m n h)

module _ {O : Type 0} where
  -- The pin has no owner, and the pool has it.
  abbrev pub IsFree : PinPool O → ℕ → Type 0
  IsFree p n = (get_elem? p.registry n ≡ some none) × (holds p.pins n ≡ true)

  abbrev pub AllFree : List ℕ → PinPool O → Type 0
  AllFree [] p = Unit
  AllFree (n ∷ ns) p = IsFree p n × AllFree ns p

  -- A free pin is handed out.
  pub take_gpio-free :
      (n : ℕ) (who : O) (p : PinPool O)
      → IsFree p n
      → take_gpio n who p
        ≡ (ok n, record { registry = set p.registry n (some who); pins = without p.pins n })
  unfolding take_gpio claim take_field
  take_gpio-free n who p h = rw (h.0, h.1) refl

  -- To take another pin leaves a pin free.
  take_gpio-IsFree :
      (n m : ℕ) (who : O) (p : PinPool O)
      → IsFree p n
      → IsFree p m
      → (n == m) ≡ false
      → IsFree (take_gpio n who p).1 m
  take_gpio-IsFree n m who p h k e =
      let ne : n ≢ m = ground (arith, e) in
      rw (take_gpio-free n who p h)
        (get_elem?-set_ne p.registry (some who) ne ∙ k.0, without-ne p.pins n m ne ∙ k.1)

  release_pin-IsFree :
      (n m : ℕ) (p : PinPool O) → IsFree p m → (n == m) ≡ false → IsFree (release_pin (pos n) p) m
  unfolding release_pin release
  release_pin-IsFree n m p k e =
      let ne : n ≢ m = ground (arith, e) in (get_elem?-set_ne p.registry none ne ∙ k.0, k.1)

  pub take_gpio-AllFree :
      (n : ℕ) (who : O) (ns : List ℕ) (p : PinPool O)
      → IsFree p n
      → AllFree ns p
      → listed ns n ≡ false
      → AllFree ns (take_gpio n who p).1
  take_gpio-AllFree n who [] p h k e = tt
  take_gpio-AllFree n who (m ∷ ns) p h k e =
      let apart = unlisted n m ns e in
      (take_gpio-IsFree n m who p h k.0 apart.0, take_gpio-AllFree n who ns p h k.1 apart.1)

  pub release_pin-AllFree :
      (n : ℕ) (ns : List ℕ) (p : PinPool O)
      → AllFree ns p
      → listed ns n ≡ false
      → AllFree ns (release_pin (pos n) p)
  release_pin-AllFree n [] p k e = tt
  release_pin-AllFree n (m ∷ ns) p k e =
      let apart = unlisted n m ns e in
      (release_pin-IsFree n m p k.0 apart.0, release_pin-AllFree n ns p k.1 apart.1)

  -- The value if the platform's calls have succeeded, with the pins free, else its error.
  abbrev pub EndsWith : {A : Type 0} → Bool → A → List ℕ → Started O A × PinPool O → Type 0
  EndsWith x a ns r = (r.0 ≡ (if x then started a else failed)) × (x ≡ true → AllFree ns r.1)

  -- With the first pins free, a start-up ends with the value exactly if the platform's calls succeed,
  -- else with an error of the platform, and leaves the second pins free.
  pub record Runs {A : Type 0} (m : Startup O A) (x : Bool) (a : A) (before after : List ℕ)
      : Type 0 where
    pub apply : (p : PinPool O) → AllFree before p → EndsWith x a after (m p)

  after_take-pool : (r : Claimed O ℕ × PinPool O) → (after_take r).1 ≡ r.1
  after_take-pool (ok n, p) = refl
  after_take-pool (err e, p) = refl

  take_pin-EndsWith :
      (who : O) (n : ℕ) (ns : List ℕ) (p : PinPool O)
      → listed ns n ≡ false
      → AllFree (n ∷ ns) p
      → EndsWith true tt ns (take_pin who n p)
  unfolding take_pin
  take_pin-EndsWith who n ns p e h = (
    rw (take_gpio-free n who p h.0) refl,
    λ _. rw (after_take-pool (take_gpio n who p)) (take_gpio-AllFree n who ns p h.0 h.1 e),
  )

  platform-EndsWith :
      (x : Bool) (ns : List ℕ) (p : PinPool O) → AllFree ns p → EndsWith x tt ns (platform x p)
  unfolding platform
  platform-EndsWith true ns p h = (refl, λ _. h)
  platform-EndsWith false ns p h = (refl, λ e. cc)

  pub platform-Runs : {x : Bool} {ns : List ℕ} → Runs (platform {O = O} x) x tt ns ns
  platform-Runs {x} {ns} = record { apply = platform-EndsWith x ns }

  pub pure-Runs : {A : Type 0} {a : A} {ns : List ℕ} → Runs (pure {O = O} a) true a ns ns
  unfolding pure
  pure-Runs = record { apply = λ p h. (refl, λ _. h) }

  -- The second part of a start-up, after the first.
  then_run-EndsWith :
      {A B : Type 0} (f : A → Startup O B) (x y : Bool) (a : A) (b : B) (between after : List ℕ)
      (r : Started O A × PinPool O)
      → EndsWith x a between r
      → Runs (f a) y b between after
      → EndsWith (x && y) b after (then_run f r)
  then_run-EndsWith f true y a b between after (started a', p) h hf =
      let same : a' ≡ a = cc (h.0) in rw same (hf.apply p (h.1 refl))
  then_run-EndsWith f true y a b between after (pin_error e, p) h hf = cc (h.0)
  then_run-EndsWith f true y a b between after (failed, p) h hf = cc (h.0)
  then_run-EndsWith f false y a b between after (started a', p) h hf = cc (h.0)
  then_run-EndsWith f false y a b between after (pin_error e, p) h hf = cc (h.0)
  then_run-EndsWith f false y a b between after (failed, p) h hf = (refl, λ e. cc)

  pub bind-Runs :
      {A B : Type 0} {m : Startup O A} (f : A → Startup O B) {x y : Bool} {a : A} {b : B}
      {before between after : List ℕ}
      → Runs m x a before between
      → Runs (f a) y b between after
      → Runs (m >>= f) (x && y) b before after
  unfolding ◌>>=◌
  bind-Runs {m} f {x} {y} {a} {b} {between} {after} hm hf = record {
    apply = λ p h. then_run-EndsWith f x y a b between after (m p) (hm.apply p h) hf;
  }

  pub then-Runs :
      {B : Type 0} {m : Startup O (Unit {0})} {k : Startup O B} {x y : Bool} {b : B}
      {before between after : List ℕ}
      → Runs m x tt before between
      → Runs k y b between after
      → Runs (m >> k) (x && y) b before after
  unfolding ◌>>◌
  then-Runs {k} hm hk = bind-Runs (λ _. k) hm hk

  -- A pin that is free is taken.
  pub take-Runs :
      {B : Type 0} {k : Startup O B} {y : Bool} {b : B} (who : O) {n : ℕ} {ns after : List ℕ}
      → listed ns n ≡ false
      → Runs k y b ns after
      → Runs (take_pin who n >> k) y b (n ∷ ns) after
  take-Runs who {n} {ns} e h =
      then-Runs {x = true} (record { apply = λ p k. take_pin-EndsWith who n ns p e k }) h

  -- The same with the condition written in another way.
  pub Runs-same :
      {A : Type 0} {m : Startup O A} {x y : Bool} {a : A} {before after : List ℕ}
      → Runs m y a before after
      → y ≡ x
      → Runs m x a before after
  Runs-same h e = rw (← e) h
