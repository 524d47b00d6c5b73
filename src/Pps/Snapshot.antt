-- ===== src/Pps/Snapshot.antt =====
-- The reader of the pulse monitor against its writer, src/pps.rs.
use rust_gps_ntp.Common.{
  ℕ, zero, suc, ◌+◌, ◌*◌, ◌/◌, ◌%◌, ◌^◌, ◌≤◌, ◌<◌, ◌≡◌, refl, sym, ap, ◌∙◌, Bool, true, false, none,
  some, List, [], ◌∷◌, min, ◌==◌, if◌then◌else◌, length, get_elem?, ==_iff, arith,
}
use rust_gps_ntp.Common.Words.{u32}
use rust_gps_ntp.Pps.{PpsMonitor, bump, store_edge, snapshot_turn, new}

-- The monitor after some number of stores of the interrupt, each pulse of which makes three.
abbrev pub after_stores : List ℕ → ℕ → PpsMonitor → PpsMonitor
after_stores [] n m = m
after_stores (t ∷ ts) zero m = m
after_stores (t ∷ ts) (suc zero) m = bump m
after_stores (t ∷ ts) (suc (suc zero)) m = store_edge t (bump m)
after_stores (t ∷ ts) (suc (suc (suc n))) m = after_stores ts n (bump (store_edge t (bump m)))

seq-after :
    (ts : List ℕ) (n : ℕ) (m : PpsMonitor)
    → n ≤ 3 * length ts
    → m.seq < 2 ^ 32
    → (after_stores ts n m).seq ≡ u32 (m.seq + 2 * (n / 3) + min 1 (n % 3))
seq-after [] n m h k = omega arith
seq-after (t ∷ ts) zero m h k = omega arith
seq-after (t ∷ ts) (suc zero) m h k = omega arith
seq-after (t ∷ ts) (suc (suc zero)) m h k = omega arith
seq-after (t ∷ ts) (suc (suc (suc n))) m h k =
    omega (arith, seq-after ts n (bump (store_edge t (bump m))) (omega arith) (omega arith))

none_after : (ts : List ℕ) (m : PpsMonitor) → after_stores ts 0 m ≡ m
none_after [] m = refl
none_after (t ∷ ts) m = refl

-- After all three stores of a pulse the timestamp is that of the pulse.
edge-after :
    (ts : List ℕ) (c : ℕ) (m : PpsMonitor)
    → c < length ts
    → get_elem? ts c ≡ some (after_stores ts (3 * (c + 1)) m).edge_us
edge-after [] c m h = elim h [ ]
edge-after (t ∷ ts) zero m h =
    ap (λ x. some x.edge_us) (sym (none_after ts (bump (store_edge t (bump m)))))
edge-after (t ∷ ts) (suc c) m h =
    let later : 3 * (suc c + 1) ≡ suc (suc (suc (3 * (c + 1)))) = omega arith in
    edge-after ts c (bump (store_edge t (bump m))) (omega arith)
    ∙ ap (λ n. some (after_stores (t ∷ ts) n m).edge_us) (sym later)

-- What a turn that succeeds has seen.
turn_lem :
    {A : Type 0} (odd same : Bool) (x y : A)
    → (if odd then none else if same then some x else none) ≡ some y
    → (odd ≡ false) × (same ≡ true) × (x ≡ y)
turn_lem true same x y h = cc
turn_lem false true x y h = (refl, refl, cc)
turn_lem false false x y h = cc

-- What the reader gets is the number of a pulse and the time of that pulse, never a mixture of two,
-- or zero and zero before the first: for every interleaving of its three loads with the stores of
-- the interrupt, for fewer than 2^31 pulses.
pub snapshot_turn-consistent :
    (ts : List ℕ) (i j k : ℕ) (count edge : ℕ)
    → i ≤ j
    → j ≤ k
    → k ≤ 3 * length ts
    → length ts < 2 ^ 31
    → snapshot_turn (after_stores ts i new) (after_stores ts j new) (after_stores ts k new)
      ≡ some (count, edge)
    → (j ≡ 3 * count) × (get_elem? (0 ∷ ts) count ≡ some edge)
unfolding snapshot_turn new
snapshot_turn-consistent ts i j k count edge hij hjk hk hts h =
    let (even, same, pair) =
      turn_lem (seq_of i % 2 == 1) (seq_of i == seq_of k) _ (count, edge) h in
    let eq : seq_of i ≡ seq_of k = (==_iff (seq_of i) (seq_of k)).0 same in
    let seq_i = seq-after ts i new (omega arith) (omega arith) in
    let seq_k = seq-after ts k new hk (omega arith) in
    let number : seq_of i / 2 ≡ count = ap (λ p. p.0) pair in
    let whole : seq_of i % 2 ≡ 0 = ground arith in
    let at : j ≡ 3 * count = omega arith in
    (
      at,
      at_pulse count (omega arith)
          ∙ ap some (ap (λ n. (after_stores ts n new).edge_us) (sym at) ∙ ap (λ p. p.1) pair),
    )
  where
    seq_of : ℕ → ℕ
    seq_of n = (after_stores ts n new).seq

    at_pulse :
        (c : ℕ) → c ≤ length ts → get_elem? (0 ∷ ts) c ≡ some (after_stores ts (3 * c) new).edge_us
    at_pulse zero l = ap (λ m. some m.edge_us) (sym (none_after ts new))
    at_pulse (suc c) l =
        let pulse : 3 * (c + 1) ≡ 3 * suc c = omega arith in
        edge-after ts c new l ∙ ap (λ n. some (after_stores ts n new).edge_us) pulse
