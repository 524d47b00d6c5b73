-- ===== src/Pins/Grants.antt =====
-- Who gets which pin, and how often: src/pins.rs.
use rust_gps_ntp.Common.{
  ==_iff, subst, ℕ, suc, ◌+◌, ◌≤◌, ◌≡◌, refl, sym, ap, ◌∙◌, Bool, true, false, Option, none, some,
  List, [], ◌∷◌, ◌==◌, if◌then◌else◌, get_elem?, set, arith, Bool-cases, Option-cases, inl, inr,
  ◌⊎◌, zero,
}
use rust_gps_ntp.Common.Int.{ℤ, pos}
use rust_gps_ntp.Pins.{
  PinError, Claimed, ok, err, already_in_use, not_available, PinRegistry, PinPool, claim, release,
  holds, without, release_pin, take_field, take_gpio, fill, after_claim,
}

without-holds : (ps : List ℕ) (n : ℕ) → holds (without ps n) n ≡ false
without-holds [] n = refl
without-holds (p ∷ ps) n = elim (Bool-cases (p == n)) [
  | inl e ↦ rw e (without-holds ps n)
  | inr e ↦ rw (e, e) (without-holds ps n)
]

-- Taking out one pin brings no other back.
without-keeps : (ps : List ℕ) (m n : ℕ) → holds ps n ≡ false → holds (without ps m) n ≡ false
without-keeps [] m n h = refl
without-keeps (p ∷ ps) m n h = elim (Bool-cases (p == n)) [
  | inl e ↦ absurd (true_false (sym (ap (λ b. if b then true else holds ps n) e) ∙ h))
  | inr e ↦
      let rest = without-keeps ps m n (sym (ap (λ b. if b then true else holds ps n) e) ∙ h) in
      elim (Bool-cases (p == m)) [ inl k ↦ rw k rest | inr k ↦ rw (k, e) rest ]
]
  where
    true_false : true ≡ false → ⊥
    true_false e = cc

set-restore :
    {A : Type 0} (r : List (Option A)) (n : ℕ) (a : A)
    → get_elem? r n ≡ some none
    → set (set r n (some a)) n none ≡ r
set-restore [] n a h = cc
set-restore (none ∷ r) zero a h = refl
set-restore (some y ∷ r) zero a h = cc
set-restore (x ∷ r) (suc n) a h = ap (λ t. x ∷ t) (set-restore r n a h)

module _ {O : Type 0} where
  -- The two results of a claim: the registry as it was, or a free slot filled.
  claim-cases :
      (n : ℕ) (who : O) (r : PinRegistry O)
      → ((e : PinError O) × (claim (pos n) who r ≡ (err e, r)))
        ⊎ ((get_elem? r n ≡ some none) × (claim (pos n) who r ≡ (ok tt, set r n (some who))))
  unfolding claim
  claim-cases n who r = elim (Option-cases (get_elem? r n)) [
    | inl e ↦ inl (not_available (pos n), ap (λ o. fill o (pos n) who r) e)
    | inr (none, e) ↦ inr (e, ap (λ o. fill o (pos n) who r) e)
    | inr (some o, e) ↦ inl (already_in_use (pos n) o, ap (λ x. fill x (pos n) who r) e)
  ]

  -- What a call that hands out no pin leaves.
  abbrev Kept : PinPool O → Claimed O ℕ × PinPool O → Type 0
  Kept p (ok n, after) = Unit
  Kept p (err e, after) = after ≡ p

  -- A pin is handed out only under the number that was asked for, from a field that it empties, and
  -- the other fields stay.
  abbrev Granted : ℕ → PinPool O → Claimed O ℕ × PinPool O → Type 0
  Granted n p (ok m, after) = (m ≡ n) × (holds p.pins n ≡ true) × (after.pins ≡ without p.pins n)
  Granted n p (err e, after) = Unit

  take_field-Kept :
      (n : ℕ) (who : O) (p : PinPool O)
      → get_elem? p.registry n ≡ some none
      → Kept p (take_field n (set p.registry n (some who)) p)
        × Granted n p (take_field n (set p.registry n (some who)) p)
  unfolding take_field release
  take_field-Kept n who p h = elim (Bool-cases (holds p.pins n)) [
    | inl e ↦ rw e (tt, (refl, e, refl))
    | inr e ↦ rw e (ap (λ r. record p { registry = r }) (set-restore p.registry n who h), tt)
  ]

  take_gpio-cases :
      (n : ℕ) (who : O) (p : PinPool O)
      → Kept p (take_gpio n who p) × Granted n p (take_gpio n who p)
  unfolding take_gpio
  take_gpio-cases n who p =
      let Both = λ (c : Claimed O (Unit {0}) × PinRegistry O).
        Kept p (after_claim n c p) × Granted n p (after_claim n c p) in
      elim (claim-cases n who p.registry) [
        | inl (e, h) ↦ subst Both (sym h) (refl, tt)
        | inr (free, h) ↦ subst Both (sym h) (take_field-Kept n who p free)
      ]

  -- A call that hands out no pin leaves the registry and the pool as they were, also where it had
  -- to claim the number first.
  pub take_gpio-fails :
      (n : ℕ) (who : O) (p after : PinPool O) (e : PinError O)
      → take_gpio n who p ≡ (err e, after)
      → after ≡ p
  take_gpio-fails n who p after e h = subst (Kept p) h (take_gpio-cases n who p).0

-- The calls of the modules that share the pool.
pub data Call (O : Type 0) : Type 0 where
  take : ℕ → O → Call O
  give_back : ℤ → Call O

abbrev bound : Bool → ℕ
bound b = if b then 1 else 0

bound-one : (b : Bool) → bound b ≤ 1
bound-one true = omega arith
bound-one false = omega arith

module _ {O : Type 0} where
  abbrev pub is_grant : Claimed O ℕ → ℕ → Bool
  is_grant (ok m) n = m == n
  is_grant (err e) n = false

  -- How often a sequence of calls hands out pin `n`.
  unfoldable pub grants : ℕ → List (Call O) → PinPool O → ℕ
  unfolding take_gpio release_pin
  grants n [] p = 0
  grants n (give_back pin ∷ calls) p = grants n calls (release_pin pin p)
  grants n (take m who ∷ calls) p =
      let (result, after) = take_gpio m who p in
      (if is_grant result n then 1 else 0) + grants n calls after

  -- One call uses up the right to the pin that it hands out.
  grant-step :
      (n m : ℕ) (p : PinPool O) (x : Claimed O ℕ × PinPool O)
      → Kept p x
      → Granted m p x
      → (if is_grant x.0 n then 1 else 0) + bound (holds x.1.pins n) ≤ bound (holds p.pins n)
  grant-step n m p (err e, after) h k = rw h (omega arith)
  grant-step n m p (ok o, after) h (same, had, now) =
      rw (same, now)
        (elim (Bool-cases (m == n)) [
          | inl e ↦
              let this : m ≡ n = (==_iff m n).0 e in
              rw e (
                subst (λ j. 1 + bound (holds (without p.pins j) n) ≤ bound (holds p.pins n))
                  (sym this)
                  (subst (λ b. 1 + bound b ≤ bound (holds p.pins n)) (sym (without-holds p.pins n))
                    (subst (λ j. 1 ≤ bound (holds p.pins j)) this (rw had (omega arith)))))
          | inr e ↦ rw e (elim (Bool-cases (holds p.pins n)) [
            | inl k ↦ rw k (omega (arith, bound-one (holds (without p.pins m) n)))
            | inr k ↦ rw (k, without-keeps p.pins m n k) (omega arith)
          ])
        ])

  grants-bound :
      (n : ℕ) (calls : List (Call O)) (p : PinPool O) → grants n calls p ≤ bound (holds p.pins n)
  unfolding grants release_pin
  grants-bound n [] p = omega arith
  grants-bound n (give_back pin ∷ calls) p = grants-bound n calls (release_pin pin p)
  grants-bound n (take m who ∷ calls) p =
      let after = (take_gpio m who p).1 in
      let facts = take_gpio-cases m who p in
      omega
        (arith, grants-bound n calls after, grant-step n m p (take_gpio m who p) facts.0 facts.1)

  -- No sequence of claims and releases hands out a pin twice: a release frees the number for the
  -- registry, but the pin itself has left the pool.
  pub grants-once : (n : ℕ) (calls : List (Call O)) (p : PinPool O) → grants n calls p ≤ 1
  grants-once n calls p = omega (arith, grants-bound n calls p, bound-one (holds p.pins n))
