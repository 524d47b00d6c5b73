-- ===== src/SdLog/Http/Serve.antt =====
-- The end and the result of sending a file, `serve_file` of src/sdlog.rs.
use rust_gps_ntp.Common.{
  ℕ, zero, suc, ◌+◌, ◌*◌, ◌/◌, ◌^◌, ◌⊎◌, inl, inr, ◌<◌, ◌≤◌, ◌≡◌, refl, ap, Bool, le_or_lt, true,
  false, Option, none, some, [], ◌∷◌, ◌++◌, ltb, length, take, drop, length-take, length-drop,
  arith,
}
use rust_gps_ntp.Ntp.Bytes.{Buffer}
use rust_gps_ntp.SdLog.Http.{
  Sent, Answer, serve_round, serve_chunks, serve_file, saturating_add_u64, http_chunk_bytes,
}

-- A round that goes on ends if its successors do.
serve_round-ends :
    (more : Bool) (chunk : Option Buffer) (w : Bool) (out : Buffer) (next : Buffer → Option Sent)
    → ((c : ℕ) (s : Buffer) → more ≡ true → (r : Sent) × (next (c ∷ s) ≡ some r))
    → (r : Sent) × (serve_round more chunk w out next ≡ some r)
serve_round-ends false chunk w out next f = (Sent.complete out, refl)
serve_round-ends true none w out next f = (Sent.broken out, refl)
serve_round-ends true (some []) w out next f = (Sent.complete out, refl)
serve_round-ends true (some (c ∷ s)) false out next f = (Sent.broken out, refl)
serve_round-ends true (some (c ∷ s)) true out next f = f c s refl

serve_chunks-ends :
    (read : ℕ → Option Buffer) (write_ok : ℕ → Bool) (fuel len offset : ℕ) (out : Buffer)
    → len < 2 ^ 64
    → 0 < fuel
    → len < offset + fuel
    → (r : Sent) × (serve_chunks read write_ok fuel len offset out ≡ some r)
unfolding serve_chunks
serve_chunks-ends read write_ok zero len offset out small some_fuel enough = absurd (omega arith)
serve_chunks-ends read write_ok (suc fuel) len offset out small some_fuel enough =
    serve_round-ends (ltb offset len) (read offset) (write_ok offset) out
      (λ chunk.
        serve_chunks read write_ok fuel len (saturating_add_u64 offset (length chunk))
          (out ++ chunk))
      (λ c s more.
        serve_chunks-ends read write_ok fuel len (saturating_add_u64 offset (length (c ∷ s)))
          (out ++ (c ∷ s)) small (ground (arith, more)) (ground (arith, more)))

-- Whatever the reads give and wherever a read or a write fails, the sending of a file ends: one
-- more round than the file's length in bytes is enough, for a length of a `u64`.
pub serve_file-ends :
    (len : ℕ) (read : ℕ → Option Buffer) (write_ok : ℕ → Bool)
    → len < 2 ^ 64
    → (r : Sent) × (serve_file (some len) read write_ok ≡ Answer.streamed len (some r))
unfolding serve_file
serve_file-ends len read write_ok small =
    let k = serve_chunks-ends read write_ok (len + 1) len 0 [] small (omega arith) (omega arith) in
    (k.0, ap (Answer.streamed len) k.1)

-- The reads of a file that holds the given bytes, each as long as the buffer.
abbrev pub read_chunk : Buffer → ℕ → Option Buffer
read_chunk file offset = some (take http_chunk_bytes (drop offset file))

take_self : (k : ℕ) (xs : Buffer) → take k xs ≡ take (length (take k xs)) xs
take_self zero xs = refl
take_self (suc k) [] = refl
take_self (suc k) (x ∷ xs) = ap (λ (t : Buffer). x ∷ t) (take_self k xs)

take-more :
    (a k : ℕ) (xs : Buffer)
    → take a xs ++ take k (drop a xs) ≡ take (a + length (take k (drop a xs))) xs
take-more zero k xs =
    let e : 0 + length (take k xs) ≡ length (take k xs) = omega arith in rw e (take_self k xs)
take-more (suc a) zero [] = let e : suc a + 0 ≡ suc a = omega arith in rw e refl
take-more (suc a) (suc k) [] = let e : suc a + 0 ≡ suc a = omega arith in rw e refl
take-more (suc a) k (x ∷ xs) =
    let e : suc a + length (take k (drop a xs)) ≡ suc (a + length (take k (drop a xs))) =
      omega arith in
    rw e (ap (λ (t : Buffer). x ∷ t) (take-more a k xs))

take-past : (a b : ℕ) (xs : Buffer) → length xs ≤ a → a ≤ b → take a xs ≡ take b xs
take-past zero zero xs h le = refl
take-past zero (suc b) [] h le = refl
take-past zero (suc b) (x ∷ xs) h le = absurd (omega arith)
take-past (suc a) zero xs h le = absurd (omega arith)
take-past (suc a) (suc b) [] h le = refl
take-past (suc a) (suc b) (x ∷ xs) h le =
    ap (λ (t : Buffer). x ∷ t) (take-past a b xs (omega arith) (omega arith))

-- The end of the chunk in which a length is reached, where every chunk is full.
abbrev pub chunk_end : ℕ → ℕ
chunk_end len = (len + 2047) / 2048 * 2048

-- The answer is the file up to that end, or up to its own end.
abbrev pub SentUpTo : ℕ → Buffer → Answer → Type 0
SentUpTo len file a = a ≡ Answer.streamed len (some (Sent.complete (take (chunk_end len) file)))

serve_round_cases :
    (Q : Option Sent → Type 0) (more : Bool) (chunk out : Buffer) (next : Buffer → Option Sent)
    → (more ≡ false → Q (some (Sent.complete out)))
    → (more ≡ true → length chunk ≡ 0 → Q (some (Sent.complete out)))
    → (more ≡ true → 0 < length chunk → Q (next chunk))
    → Q (serve_round more (some chunk) true out next)
serve_round_cases Q false chunk out next f g h = f refl
serve_round_cases Q true [] out next f g h = g refl refl
serve_round_cases Q true (c ∷ s) out next f g h = h refl (omega arith)

-- Between two rounds every chunk has been full, or the file has ended.
serve_chunks-SentUpTo :
    (file : Buffer) (fuel len offset k : ℕ)
    → len + http_chunk_bytes < 2 ^ 64
    → 0 < fuel
    → len < offset + fuel
    → offset ≤ chunk_end len
    → (offset ≡ k * 2048) ⊎ (length file ≤ offset)
    → serve_chunks (read_chunk file) (λ _. true) fuel len offset (take offset file)
      ≡ some (Sent.complete (take (chunk_end len) file))
unfolding serve_chunks
serve_chunks-SentUpTo file zero len offset k small f enough near full = absurd (omega arith)
serve_chunks-SentUpTo file (suc fuel) len offset k small f enough near full =
    let chunk = take http_chunk_bytes (drop offset file) in
    serve_round_cases (λ r. r ≡ some (Sent.complete (take (chunk_end len) file))) (ltb offset len)
      chunk (take offset file)
      (λ c.
        serve_chunks (read_chunk file) (λ _. true) fuel len (saturating_add_u64 offset (length c))
          (take offset file ++ c))
      (λ e. ap (λ b. some (Sent.complete b)) (at_end (ground (arith, e))))
      (λ e empty.
        let short : length file ≤ offset = omega (
          arith,
          empty,
          length-take http_chunk_bytes (drop offset file),
          length-drop offset file,
        ) in
        ap (λ b. some (Sent.complete b)) (take-past offset (chunk_end len) file short near))
      (λ e some_bytes.
        let before : offset < len = ground (arith, e) in
        let taken = length-take http_chunk_bytes (drop offset file) in
        let left = length-drop offset file in
        let short : length chunk ≤ http_chunk_bytes = omega (arith, taken) in
        let moved : saturating_add_u64 offset (length chunk) ≡ offset + length chunk =
          omega arith in
        let aligned : offset ≡ k * 2048 = elim full [
          | inl e ↦ e
          | inr short ↦ absurd (omega (arith, taken, left))
        ] in
        rw (moved, take-more offset http_chunk_bytes file)
          (serve_chunks-SentUpTo file fuel len (offset + length chunk) (suc k) small (omega arith)
            (omega arith) (omega arith) (next_full aligned)))
  where
    at_end : len ≤ offset → take offset file ≡ take (chunk_end len) file
    at_end past = elim full [
      | inl e ↦ let same : offset ≡ chunk_end len = omega arith in ap (λ n. take n file) same
      | inr short ↦ take-past offset (chunk_end len) file short near
    ]

    next_full :
        offset ≡ k * 2048
        → (offset + length (take http_chunk_bytes (drop offset file)) ≡ suc k * 2048)
          ⊎ (length file ≤ offset + length (take http_chunk_bytes (drop offset file)))
    next_full e =
        let taken = length-take http_chunk_bytes (drop offset file) in
        let left = length-drop offset file in
        elim (le_or_lt (length file) (offset + http_chunk_bytes)) [
          | inl l ↦ inr (omega (arith, taken, left))
          | inr l ↦ inl (omega (arith, taken, left))
        ]

-- A file that holds the given bytes while it is sent, however long it was when its length was taken,
-- is sent up to the end of the chunk of 2048 bytes in which that length is reached, or to its own end
-- if that comes first: if no read or write fails, every read fills its buffer as far as the file goes,
-- and the length is not within a chunk of 2^64. A file that has kept its length is therefore sent
-- whole.
pub serve_file-SentUpTo :
    (file : Buffer) (len : ℕ)
    → len + http_chunk_bytes < 2 ^ 64
    → SentUpTo len file (serve_file (some len) (read_chunk file) (λ _. true))
unfolding serve_file
serve_file-SentUpTo file len small = ap (Answer.streamed len) (
    serve_chunks-SentUpTo file (len + 1) len 0 0 small (omega arith) (omega arith) (omega arith)
      (inl refl))
