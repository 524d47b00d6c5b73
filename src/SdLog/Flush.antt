-- ===== src/SdLog/Flush.antt =====
-- The log files after a flush, src/sdlog.rs.
use rust_gps_ntp.Common.{
  ℕ, zero, suc, ◌+◌, ◌%◌, ◌/◌, ◌≤◌, ◌≡◌, refl, Bool, true, false, Option, none, some, List, [], ◌∷◌,
  ◌++◌, ◌&&◌, ltb, ◌==◌, length, take, length-append, length-take, Bool-cases, Option-cases, inl,
  inr, if◌then◌else◌, arith,
}
use rust_gps_ntp.Common.Decimal.{print_digits, print_u32}
use rust_gps_ntp.Ntp.Bytes.{Buffer}
use rust_gps_ntp.Ntp.Packet.{codes}
use rust_gps_ntp.SdLog.{
  LineQueue, Card, Faults, contents, is_large, is_nil, rotate, write_one, write_all, texts_of,
  append_texts, after_rotation, dropped_line, flush_to_card, rotate_at_bytes, queue_max_bytes,
  drain,
}
use rust_gps_ntp.SdLog.Queue.{total, total-append}

abbrev pub concat : List Buffer → Buffer
concat [] = []
concat (line ∷ lines) = line ++ concat lines

write_one-length :
    (o : Option ℕ) (line file : Buffer) (rest : Buffer × Bool) (n : ℕ)
    → length rest.0 ≤ n
    → length file + length line ≤ n
    → length (write_one o line file rest).0 ≤ n
write_one-length none line file rest n h k = h
write_one-length (some m) line file rest n h k =
    omega (arith, length-append file (take m line), length-take m line)

write_all-length :
    (fault : ℕ → Option ℕ) (i : ℕ) (lines : List Buffer) (file : Buffer)
    → length (write_all fault i lines file).0 ≤ length file + total lines
unfolding write_all
write_all-length fault i [] file = omega arith
write_all-length fault i (line ∷ lines) file =
    write_one-length (fault i) line file (write_all fault (suc i) lines (file ++ line))
      (length file + total (line ∷ lines))
      (omega (arith, write_all-length fault (suc i) lines (file ++ line), length-append file line))
      (omega arith)

-- The notice of dropped lines takes at most 68 bytes.
print_digits-length : (fuel n : ℕ) → length (print_digits fuel n) ≤ fuel
print_digits-length zero n = omega arith
print_digits-length (suc fuel) n = ground (
  arith,
  print_digits-length fuel (n / 10),
  length-append {A = ℕ} (print_digits fuel (n / 10)) ((b'0' + n % 10) ∷ []),
)

dropped_line-length : (n : ℕ) → length (dropped_line n) ≤ 68
unfolding dropped_line print_u32
dropped_line-length n = ground (arith, print_digits-length 10 n)

texts_of-total : (lines : List Buffer) (n : ℕ) → total (texts_of lines n) ≤ total lines + 68
texts_of-total lines n = elim (Bool-cases (ltb 0 n)) [
  | inl e ↦ rw e (omega (arith, total-append lines (dropped_line n ∷ []), dropped_line-length n))
  | inr e ↦ rw e (omega (arith, total-append lines []))
]

append_texts-length :
    (f : Faults) (texts : List Buffer) (c : Card)
    → length (contents (append_texts f texts c).0.current)
      ≤ length (contents c.current) + total texts
append_texts-length f texts c = elim (Bool-cases f.open_ok) [
  | inl e ↦ rw e (write_all-length f.write 0 texts (contents c.current))
  | inr e ↦ rw e (omega arith)
]

abbrev pub file_bound : ℕ
file_bound = rotate_at_bytes + queue_max_bytes + 68

abbrev pub IsBounded : Card → Type 0
IsBounded c =
    (length (contents c.current) ≤ file_bound) × (length (contents c.rotated) ≤ file_bound)

rotate-IsBounded : (f : Faults) (c : Card) → IsBounded c → IsBounded (rotate f c).0
unfolding rotate
rotate-IsBounded f c h = ground arith

rotate-empty : (f : Faults) (c : Card) → (rotate f c).1 ≡ true → (rotate f c).0.current ≡ none
unfolding rotate
rotate-empty f c h = ground arith

append_texts-rotated :
    (f : Faults) (texts : List Buffer) (c : Card) → (append_texts f texts c).0.rotated ≡ c.rotated
append_texts-rotated f texts c = elim (Bool-cases f.open_ok) [
  | inl e ↦ rw e refl
  | inr e ↦ rw e refl
]

append_texts-IsBounded :
    (f : Faults) (texts : List Buffer) (c : Card)
    → length (contents c.current) + total texts ≤ file_bound
    → length (contents c.rotated) ≤ file_bound
    → IsBounded (append_texts f texts c).0
append_texts-IsBounded f texts c h k =
    (omega (arith, append_texts-length f texts c), rw (append_texts-rotated f texts c) k)

after_rotation-IsBounded :
    (f : Faults) (texts : List Buffer) (r : Card × Bool)
    → IsBounded r.0
    → (r.1 ≡ true → length (contents r.0.current) + total texts ≤ file_bound)
    → IsBounded (after_rotation f texts r).0
after_rotation-IsBounded f texts (c, true) h k = append_texts-IsBounded f texts c (k refl) h.1
after_rotation-IsBounded f texts (c, false) h k = h

small_lem :
    (f : Faults) (c : Card)
    → f.metadata_ok ≡ true
    → is_large f c ≡ false
    → length (contents c.current) ≤ rotate_at_bytes
small_lem f c ok e = elim (Option-cases c.current) [
  | inl p ↦ ground (arith, p)
  | inr (b, p) ↦ ground (arith, p)
]

-- The room that a flush needs, once the log has been rotated if it is large.
room_lem :
    (f : Faults) (texts : List Buffer) (c : Card)
    → f.metadata_ok ≡ true
    → total texts ≤ queue_max_bytes + 68
    → IsBounded c
    → let r : Card × Bool = if is_large f c then rotate f c else (c, true) in
      IsBounded (after_rotation f texts r).0
room_lem f texts c ok t h = elim (Bool-cases (is_large f c)) [
  | inl e ↦ rw e (
      after_rotation-IsBounded f texts (rotate f c) (rotate-IsBounded f c h)
        (λ k. let empty = rotate-empty f c k in rw empty (omega arith)))
  | inr e ↦ rw e (
      after_rotation-IsBounded f texts (c, true) h
        (λ k. let small = small_lem f c ok e in omega arith))
]

-- Where the size of the log can be read, a flush keeps both files on the card within 8 MiB and the
-- 16 KiB of a full queue, with 68 bytes for the notice of dropped lines, whichever of its other calls
-- fail and wherever a write breaks off.
pub flush_to_card-IsBounded :
    (f : Faults) (q : LineQueue) (c : Card)
    → f.metadata_ok ≡ true
    → total q.lines ≤ queue_max_bytes
    → IsBounded c
    → IsBounded (flush_to_card f q c).1
unfolding flush_to_card drain
flush_to_card-IsBounded f q c ok t h =
    let room =
      room_lem f (texts_of q.lines q.dropped) c ok (omega (arith, texts_of-total q.lines q.dropped))
        h in
    elim (Bool-cases (is_nil q.lines && q.dropped == 0)) [ inl e ↦ rw e h | inr e ↦ rw e room ]

-- The notice of the lines that were dropped, if there were any.
abbrev pub notice : ℕ → Buffer
notice zero = []
notice (suc n) =
    codes "- WARN rust_gps_ntp::sdlog: "
    ++ (print_u32 (suc n) ++ codes " line(s) dropped (queue full)\n")
