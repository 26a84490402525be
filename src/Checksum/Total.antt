-- ===== src/Checksum/Total.antt =====
-- `do_csum` as a whole: the RFC 1071 sum, except for a carry that the last fold loses.
use zapret.Base.{
  ℕ, zero, suc, ◌+◌, ◌-◌, ◌*◌, ◌/◌, ◌%◌, ◌^◌, ◌≤◌, ◌<◌, ◌≡◌, refl, subst, ◌∙◌, List, [], ◌∷◌,
  Option, some, arith, length, ◌==◌, if◌then◌else◌, false, bit_and,
}
use native.Mathlib.Decide.{dec_lt}
use zapret.Base.Bits.{u8, ◌>>◌, ◌<<◌, bit_and_low, bit_or_add_low}
use zapret.Memory.{Bytes, ◌>>=◌}
use zapret.Checksum.{Csum, read, odd_byte, even_part, when, swap_bytes, do_csum, from64to16}
use zapret.Checksum.Fold.{◌≈◌, Overflows, from64to16_exact, from64to16_lost}
use zapret.Checksum.Little.{le, word_sum, le-word_sum, le_next}
use zapret.Checksum.Sum.{Stage, Took, SameMod, then-Stage}
use zapret.Checksum.Words.{words16-Stage, last-Stage}

even_part-Stage :
    (s : Csum)
    → Bytes s.buff
    → s.len ≤ length s.buff
    → s.result < 2 ^ 16
    → Stage s.len (SameMod 2) (2 ^ 34) s (even_part s)
unfolding even_part
even_part-Stage s bytes fits small =
    let whole : 2 * (s.len >> 1) + 1 * (s.len % 2) ≡ s.len = omega arith in
    subst (λ n. Stage n (SameMod 2) (2 ^ 34) s (even_part s)) whole
      (then-Stage _ _ (Took 0) (SameMod 2) _ bytes
        (words16-Stage (s.len >> 1) s bytes refl (omega arith) small) (omega arith)
        (λ y z p q. omega arith)
        (λ u after.
          last-Stage 0 s.len (2 ^ 34) u after.bytes (omega (arith, after.left))
            (omega (arith, after.long)) (omega (arith, after.small)) (omega arith)))

swap_bytes-eq : (w : ℕ) → w < 2 ^ 16 → swap_bytes w ≡ w % 256 * 256 + w / 256
unfolding swap_bytes
swap_bytes-eq w h =
    rw
      (
        bit_and_low 8 (w >> 8),
        bit_and_low 8 w,
        bit_or_add_low 8 ((w % 2 ^ 8) << 8) ((w >> 8) % 2 ^ 8) (omega arith) (omega arith),
      )
      (omega arith)

-- The weight of the carry that can be lost: at an odd address the bytes are swapped at the end.
abbrev pub lost : ℕ → ℕ
lost addr = if addr % 2 == 0 then 1 else 256

-- The sum of the words before it is folded to 16 bits.
unfoldable pub total_of : List ℕ → ℕ → ℕ → Option ℕ
total_of buff addr len = if len == 0 then some 0 else do
  s ←
      when (u8 (bit_and addr 1)) odd_byte
        (record { result = 0; buff = buff; addr = addr; len = len })
  s1 ← even_part s
  some s1.result

-- A checksum is returned and fits 16 bits. Before the fold the sum was `total`; unless its fold
-- overflows, the checksum is `sum` in one's complement arithmetic, and if it does, one carry short.
pub record IsSum (addr sum : ℕ) (before r : Option ℕ) : Type 0 where
  pub value : ℕ
  pub total : ℕ
  pub returns : r ≡ some value
  pub word : value < 2 ^ 16
  pub unfolded : before ≡ some total
  pub small : total < 2 ^ 34
  pub exact : ¬ Overflows total → value ≈ sum
  pub short : Overflows total → value + lost addr ≈ sum

from64to16-lt : (x : ℕ) → from64to16 x < 2 ^ 16
unfolding from64to16
from64to16-lt x = omega arith

even-IsSum :
    (addr len : ℕ) (s : Csum) (r : Option Csum)
    → addr % 2 ≡ 0
    → s.result ≡ 0
    → Stage len (SameMod 2) (2 ^ 34) s r
    → IsSum addr (le len s.buff) (r >>= λ t. some t.result) (r >>= λ t. some (from64to16 t.result))
even-IsSum addr len s r even clean st = record {
  value = from64to16 st.out.result;
  total = st.out.result;
  returns = rw st.returns;
  word = from64to16-lt st.out.result;
  unfolded = rw st.returns;
  small = st.bounded;
  exact = λ fine.
      omega (arith, from64to16_exact st.out.result (omega (arith, st.bounded)) fine, st.total);
  short = λ over.
      ground (arith, from64to16_lost st.out.result (omega (arith, st.bounded)) over, st.total);
}

odd-IsSum :
    (addr len b : ℕ) (s : Csum) (r : Option Csum)
    → addr % 2 ≡ 1
    → s.result ≡ b << 8
    → Stage len (SameMod 2) (2 ^ 34) s r
    → IsSum addr
        (b + 256 * le len s.buff)
        (r >>= λ t. some t.result)
        (r >>= λ t. some (swap_bytes (from64to16 t.result)))
odd-IsSum addr len b s r odd first st =
    let f : ℕ = from64to16 st.out.result in
    let swapped = swap_bytes-eq f (from64to16-lt st.out.result) in
    record {
      value = swap_bytes f;
      total = st.out.result;
      returns = rw st.returns;
      word = omega (arith, swapped, from64to16-lt st.out.result);
      unfolded = rw st.returns;
      small = st.bounded;
      exact = λ fine. omega (
        arith,
        swapped,
        from64to16_exact st.out.result (omega (arith, st.bounded)) fine,
        st.total,
      );
      short = λ over. ground (
        arith,
        swapped,
        from64to16_lost st.out.result (omega (arith, st.bounded)) over,
        st.total,
      );
    }

IsSum-cong :
    (addr sum sum' : ℕ) (before r : Option ℕ)
    → sum ≈ sum'
    → IsSum addr sum before r
    → IsSum addr sum' before r
IsSum-cong addr sum sum' before r e s = record {
  value = s.value;
  total = s.total;
  returns = s.returns;
  word = s.word;
  unfolded = s.unfolded;
  small = s.small;
  exact = λ fine. s.exact fine ∙ e;
  short = λ over. s.short over ∙ e;
}

nonempty-IsSum :
    (buff : List ℕ) (addr len : ℕ)
    → Bytes buff
    → suc len ≤ length buff
    → IsSum addr (le (suc len) buff) (total_of buff addr (suc len)) (do_csum buff addr (suc len))
unfolding do_csum total_of odd_byte read
nonempty-IsSum [] addr len bytes fits = absurd (omega arith)
nonempty-IsSum (b ∷ buff) addr len bytes fits =
    let low : u8 (bit_and addr 1) ≡ addr % 2 = omega (arith, bit_and_low 1 addr) in
    let more : (suc len == 0) ≡ false = ground arith in
    let le_first = le_next b buff len in
    elim (dec_lt 0 (addr % 2)) [
      | yes odd ↦
          let is_one : addr % 2 ≡ 1 = omega arith in
          let s : Csum = record {
            result = (b + 256 * 0) << 8;
            buff = buff;
            addr = addr + 1;
            len = suc len - 1;
          } in
          let one_less : suc len - 1 ≡ len = omega arith in
          rw (le_first, more, low, is_one)
            (odd-IsSum addr len b s (even_part s) is_one (omega arith) (
              subst (λ n. Stage n (SameMod 2) (2 ^ 34) s (even_part s)) one_less
                (even_part-Stage s bytes.1 (omega arith) (omega (arith, bytes.0)))))
      | no even ↦
          let is_zero : addr % 2 ≡ 0 = omega arith in
          let s : Csum = record { result = 0; buff = b ∷ buff; addr = addr; len = suc len } in
          rw (more, low, is_zero)
            (even-IsSum addr (suc len) s (even_part s) is_zero refl
              (even_part-Stage s bytes fits (omega arith)))
    ]

-- For a buffer of at least `len` bytes, each below 256, at any address `do_csum` returns its RFC
-- 1071 sum, unless the fold of the total that its own additions give, which is below 2^34,
-- overflows; then the sum is one carry short.
pub do_csum-IsSum :
    (buff : List ℕ) (addr len : ℕ)
    → Bytes buff
    → len ≤ length buff
    → IsSum addr (word_sum len buff) (total_of buff addr len) (do_csum buff addr len)
unfolding do_csum total_of
do_csum-IsSum buff addr zero bytes fits = record {
  value = 0;
  total = 0;
  returns = refl;
  word = omega arith;
  unfolded = refl;
  small = omega arith;
  exact = λ fine. unfold word_sum in refl;
  short = λ over. absurd (omega arith);
}
do_csum-IsSum buff addr (suc len) bytes fits =
    IsSum-cong addr (le (suc len) buff) (word_sum (suc len) buff) _ _ (le-word_sum (suc len) buff)
      (nonempty-IsSum buff addr len bytes fits)
