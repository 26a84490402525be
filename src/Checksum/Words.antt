-- ===== src/Checksum/Words.antt =====
-- The words of `do_csum`: what the 64-bit loop and the aligning words before it and after it sum up,
-- in registers that do not overflow.
use native.Mathlib.Nat.{one-le-pow}
use zapret.Base.{
  ℕ, zero, suc, ◌+◌, ◌-◌, ◌*◌, ◌/◌, ◌%◌, ◌^◌, ◌≤◌, ◌<◌, ◌≡◌, refl, subst, ap, ◌∙◌, inl, inr, some,
  arith, length, drop, length-drop, drop-drop, Bool-cases, ltb, ◌==◌, if◌then◌else◌, bit_and,
}
use zapret.Base.Bits.{u64, ◌>>◌, bit_and_low, bit_and_window, ◌<<◌}
use zapret.Memory.{Bytes}
use zapret.Checksum.{Csum, add, add_words, words64, words32, words16, when}
use zapret.Checksum.Sum.{
  Stage, then-Stage, Took, SameMod, taken_by, skip-Stage, when-add-Stage, when-align-Stage,
}
use zapret.Checksum.Fold.{◌≈◌}
use zapret.Checksum.Little.{le, le_zero, le-add, le-lt, read-le, drop-Bytes}

-- The word and its carry, added to what was there.
carry_step :
    (result carry w : ℕ)
    → result + carry < 2 ^ 64
    → w < 2 ^ 64
    → let r = u64 (u64 (result + carry) + w) in
      (r + (if ltb r w then 1 else 0) < 2 ^ 64)
      × (r + (if ltb r w then 1 else 0) ≈ result + carry + w)
carry_step result carry w h hw = ground arith

record Summed (count carry : ℕ) (s : Csum) : Type 0 where
  out : Csum
  last : ℕ
  returns : add_words count carry s ≡ some (out, last)
  rest : out.buff ≡ drop (8 * count) s.buff
  moved : out.addr ≡ s.addr + 8 * count
  same_len : out.len ≡ s.len
  bounded : out.result + last < 2 ^ 64
  total : out.result + last ≈ s.result + carry + le (8 * count) s.buff

add_words-Summed :
    (count carry : ℕ) (s : Csum)
    → Bytes s.buff
    → 8 * count ≤ length s.buff
    → s.result + carry < 2 ^ 64
    → Summed count carry s
unfolding add_words
add_words-Summed zero carry s bytes fits small = record {
  out = s;
  last = carry;
  returns = refl;
  rest = refl;
  moved = omega arith;
  same_len = refl;
  bounded = small;
  total = omega (arith, le_zero s.buff);
}
add_words-Summed (suc count) carry s bytes fits small =
    let w : ℕ = le 8 s.buff in
    let r : ℕ = u64 (u64 (s.result + carry) + w) in
    let c : ℕ = if ltb r w then 1 else 0 in
    let s' : Csum = record s { result = r; buff = drop 8 s.buff; addr = s.addr + 8 } in
    let step = carry_step s.result carry w small (le-lt 8 s.buff bytes) in
    let rec =
      add_words-Summed count c s' (drop-Bytes 8 s.buff bytes) (omega (arith, length-drop 8 s.buff))
        step.0 in
    let whole : 8 * suc count ≡ 8 + 8 * count = omega arith in
    record {
      out = rec.out;
      last = rec.last;
      returns = rw (read-le 8 s.buff (omega arith)) rec.returns;
      rest = rw whole (rec.rest ∙ drop-drop (8 * count) 8 s.buff);
      moved = omega (arith, rec.moved);
      same_len = rec.same_len;
      bounded = rec.bounded;
      total = rw whole (omega (arith, rec.total, step.1, le-add 8 (8 * count) s.buff));
    }

words64-Stage :
    (count : ℕ) (s : Csum)
    → Bytes s.buff
    → 8 * count ≤ length s.buff
    → s.result < 2 ^ 33
    → Stage (8 * count) (Took 0) (2 ^ 33) s (words64 count s)
unfolding words64
words64-Stage count s bytes fits small = elim (Bool-cases (count == 0)) [
  | inl nothing ↦
      let none_left : 8 * count ≡ 0 = ground arith in
      rw (nothing, none_left) (skip-Stage (2 ^ 33) s small)
  | inr some_left ↦
      let w = add_words-Summed count 0 s bytes fits (omega arith) in
      let total : ℕ = u64 (w.out.result + w.last) in
      let low = bit_and_low 32 total in
      rw some_left (record {
        out = record w.out { result = u64 (bit_and total 0xffffffff + (total >> 32)) };
        returns = rw w.returns;
        rest = w.rest;
        left = omega (arith, w.same_len);
        bounded = omega (arith, low);
        total = omega (arith, low, w.bounded, w.total);
      })
]

-- How many words are left after the alignment.
abbrev left_of : ℕ → ℕ → ℕ
left_of bit count = if bit == 0 then count else count - 1

-- The bit of the length that stands for a last word of `2 ^ k` bytes.
last_word : (k len : ℕ) → taken_by (bit_and len (1 << k)) (2 ^ k) ≡ 2 ^ k * (len / 2 ^ k % 2)
last_word k len = rw (bit_and_window 1 k len) (grind (arith, one-le-pow k 2 (omega arith)))

pub last-Stage :
    (k c limit : ℕ) (s : Csum)
    → Bytes s.buff
    → s.len / 2 ^ k % 2 ≡ c % 2
    → 2 ^ k * (c % 2) ≤ length s.buff
    → s.result + 256 ^ (2 ^ k) ≤ limit
    → limit ≤ 2 ^ 64
    → Stage (2 ^ k * (c % 2)) (Took 0) limit s (when (bit_and s.len (1 << k)) (add (2 ^ k)) s)
last-Stage k c limit s bytes counted fits small word =
    let e : taken_by (bit_and s.len (1 << k)) (2 ^ k) ≡ 2 ^ k * (c % 2) =
      last_word k s.len ∙ ap (λ (t : ℕ). 2 ^ k * t) counted in
    subst (λ n. Stage n (Took 0) limit s (when (bit_and s.len (1 << k)) (add (2 ^ k)) s)) e
      (when-add-Stage (bit_and s.len (1 << k)) (2 ^ k) limit s bytes (omega (arith, e)) small word)

-- The 32-bit words that are left go in as 64-bit words, with one before and one after them if need
-- be.
words32-Stage :
    (count : ℕ) (s : Csum)
    → Bytes s.buff
    → s.len / 4 ≡ count
    → 4 * count ≤ length s.buff
    → s.result < 2 ^ 17
    → Stage (4 * count) (SameMod 4) (2 ^ 33 + 2 ^ 32) s (words32 count s)
unfolding words32
words32-Stage count s bytes counted fits small = elim (Bool-cases (count == 0)) [
  | inl nothing ↦
      let none_left : 4 * count ≡ 0 = ground arith in
      rw (nothing, none_left)
        (record {
          out = s;
          returns = refl;
          rest = refl;
          left = refl;
          bounded = omega arith;
          total = omega (arith, le_zero s.buff);
        })
  | inr some_left ↦
      let bit : ℕ = bit_and s.addr 4 in
      let c : ℕ = left_of bit count in
      let whole : taken_by bit 4 + (8 * (c >> 1) + 4 * (c % 2)) ≡ 4 * count = ground arith in
      subst (λ n. Stage n (SameMod 4) (2 ^ 33 + 2 ^ 32) s (words32 count s)) whole
        (rw some_left (
          then-Stage _ _ (Took 0) (SameMod 4) _ bytes
            (when-align-Stage bit 4 (2 ^ 33) s bytes (ground arith) (omega arith) (omega arith))
            (ground arith) (λ y z p q. ground arith)
            (λ t after.
              then-Stage _ _ (Took 0) (Took 0) _ after.bytes
                (words64-Stage (c >> 1) t after.bytes (ground (arith, after.long)) after.small)
                (omega arith) (λ y z p q. omega arith)
                (λ u later.
                  last-Stage 2 c (2 ^ 33 + 2 ^ 32) u later.bytes
                    (ground (arith, after.left, later.left))
                    (ground (arith, after.long, later.long)) (omega (arith, later.small))
                    (omega arith)))))
]

-- All 16-bit words, in words of up to 64 bits.
pub words16-Stage :
    (count : ℕ) (s : Csum)
    → Bytes s.buff
    → s.len / 2 ≡ count
    → 2 * count ≤ length s.buff
    → s.result < 2 ^ 16
    → Stage (2 * count) (SameMod 2) (2 ^ 34 - 256) s (words16 count s)
unfolding words16
words16-Stage count s bytes counted fits small = elim (Bool-cases (count == 0)) [
  | inl nothing ↦
      let none_left : 2 * count ≡ 0 = ground arith in
      rw (nothing, none_left)
        (record {
          out = s;
          returns = refl;
          rest = refl;
          left = refl;
          bounded = omega arith;
          total = omega (arith, le_zero s.buff);
        })
  | inr some_left ↦
      let bit : ℕ = bit_and s.addr 2 in
      let c : ℕ = left_of bit count in
      let whole : taken_by bit 2 + (4 * (c >> 1) + 2 * (c % 2)) ≡ 2 * count = ground arith in
      subst (λ n. Stage n (SameMod 2) (2 ^ 34 - 256) s (words16 count s)) whole
        (rw some_left (
          then-Stage _ _ (SameMod 2) (SameMod 2) _ bytes
            (when-align-Stage bit 2 (2 ^ 17) s bytes (ground arith) (omega arith) (omega arith))
            (ground arith) (λ y z p q. ground arith)
            (λ t after.
              then-Stage _ _ (Took 0) (SameMod 2) _ after.bytes
                (words32-Stage (c >> 1) t after.bytes (ground (arith, after.left))
                  (ground (arith, after.long)) after.small)
                (omega arith) (λ y z p q. omega arith)
                (λ u later.
                  last-Stage 1 c (2 ^ 34 - 256) u later.bytes
                    (ground (arith, after.left, later.left))
                    (ground (arith, after.long, later.long)) (omega (arith, later.small))
                    (omega arith)))))
]
