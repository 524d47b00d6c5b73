-- ===== src/Ntp/Bytes.antt =====
-- Byte buffers: big-endian numbers, reads at an offset and writes into a fixed buffer.
use rust_gps_ntp.Common.{
  ℕ, zero, suc, ◌+◌, ◌*◌, ◌/◌, ◌%◌, ◌^◌, ◌<◌, ◌≡◌, List, [], ◌∷◌, arith, get_or,
}

abbrev pub Buffer : Type 0
Buffer = List ℕ

-- `to_be_bytes` of a number of the given number of bytes.
abbrev pub to_be_bytes : ℕ → ℕ → Buffer
to_be_bytes zero v = []
to_be_bytes (suc n) v = v / 256 ^ n % 256 ∷ to_be_bytes n v

-- `from_be_bytes`.
abbrev pub from_be_bytes_onto : ℕ → Buffer → ℕ
from_be_bytes_onto acc [] = acc
from_be_bytes_onto acc (b ∷ bs) = from_be_bytes_onto (acc * 256 + b) bs

abbrev pub from_be_bytes : Buffer → ℕ
from_be_bytes = from_be_bytes_onto 0

abbrev pub byte_at : ℕ → Buffer → ℕ
byte_at i b = get_or b i 0

-- `&b[i..i + n]`, for a range inside the buffer.
abbrev pub slice : ℕ → ℕ → Buffer → Buffer
slice i zero b = []
slice i (suc n) b = byte_at i b ∷ slice (suc i) n b

-- `copy_from_slice` to the front of the buffer.
abbrev pub overwrite : Buffer → Buffer → Buffer
overwrite [] b = b
overwrite (v ∷ vs) [] = []
overwrite (v ∷ vs) (x ∷ b) = v ∷ overwrite vs b

-- `b[i..i + vs.len()].copy_from_slice(vs)`.
abbrev pub write_at : ℕ → Buffer → Buffer → Buffer
write_at zero vs b = overwrite vs b
write_at (suc i) vs [] = []
write_at (suc i) vs (x ∷ b) = x ∷ write_at i vs b

pub from_be_bytes-two : (v : ℕ) → v < 2 ^ 16 → from_be_bytes (to_be_bytes 2 v) ≡ v
from_be_bytes-two v h = omega arith

pub from_be_bytes-four : (v : ℕ) → v < 2 ^ 32 → from_be_bytes (to_be_bytes 4 v) ≡ v
from_be_bytes-four v h = omega arith

pub from_be_bytes-eight : (v : ℕ) → v < 2 ^ 64 → from_be_bytes (to_be_bytes 8 v) ≡ v
from_be_bytes-eight v h = omega arith
