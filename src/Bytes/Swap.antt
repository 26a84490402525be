-- ===== src/Bytes/Swap.antt =====
-- `bswap16`, `bswap24` and `bswap48`, seen byte by byte.
use zapret.Base.{ℕ, ◌+◌, ◌*◌, ◌/◌, ◌%◌, ◌^◌, ◌<◌, ◌≡◌, arith, bit_or}
use zapret.Base.Bits.{◌<<◌, ◌>>◌, u32, bit_or_add_low, bit_and_low, bit_and_window}
use zapret.Bytes.{bswap16, bswap24, bswap48}

-- Byte `k` of a number.
abbrev pub byte : ℕ → ℕ → ℕ
byte u k = u / 2 ^ (8 * k) % 2 ^ 8

bswap16-bytes : (u : ℕ) → u < 2 ^ 16 → bswap16 u ≡ byte u 0 * 2 ^ 8 + byte u 1
unfolding bswap16
bswap16-bytes u h =
    rw (bit_and_low 8 u, bit_or_add_low 8 ((u % 2 ^ 8) << 8) (u >> 8) (omega arith) (omega arith))
      (omega arith)

bswap24-bytes : (u : ℕ) → bswap24 u ≡ byte u 0 * 2 ^ 16 + byte u 1 * 2 ^ 8 + byte u 2
unfolding bswap24
bswap24-bytes u =
    rw
      (
        bit_and_low 8 (u >> 16),
        bit_and_window 8 8 u,
        bit_and_window 8 16 (u32 (u << 16)),
        bit_or_add_low 8 (byte u 1 << 8) (byte u 2) (omega arith) (omega arith),
        bit_or_add_low 16 ((u32 (u << 16) / 2 ^ 16 % 2 ^ 8) << 16) (byte u 2 + byte u 1 << 8)
            (omega arith) (omega arith),
      )
      (omega arith)

low_fields :
    (b0 b1 b2 b3 b4 b5 : ℕ)
    → b0 < 256
    → b1 < 256
    → b2 < 256
    → b3 < 256
    → b4 < 256
    → bit_or
        (bit_or (bit_or (bit_or (bit_or b0 (b1 << 8)) (b2 << 16)) (b3 << 24)) (b4 << 32))
        (b5 << 40)
      ≡ b0 + b1 << 8 + b2 << 16 + b3 << 24 + b4 << 32 + b5 << 40
low_fields b0 b1 b2 b3 b4 b5 h0 h1 h2 h3 h4 =
    rw
      (
        bit_or_add_low 8 (b1 << 8) b0 (omega arith) h0,
        bit_or_add_low 16 (b2 << 16) (b0 + b1 << 8) (omega arith) (omega arith),
        bit_or_add_low 24 (b3 << 24) (b0 + b1 << 8 + b2 << 16) (omega arith) (omega arith),
        bit_or_add_low 32 (b4 << 32) (b0 + b1 << 8 + b2 << 16 + b3 << 24) (omega arith)
            (omega arith),
      )
      (bit_or_add_low 40 (b5 << 40) (b0 + b1 << 8 + b2 << 16 + b3 << 24 + b4 << 32) (omega arith)
        (omega arith))

bswap48-bytes :
    (u : ℕ)
    → bswap48 u
      ≡ byte u 5 + byte u 4 << 8 + byte u 3 << 16 + byte u 2 << 24 + byte u 1 << 32 + byte u 0 << 40
unfolding bswap48
bswap48-bytes u =
    let top : byte u 5 << 40 / 2 ^ 40 ≡ byte u 5 = omega arith in
    let high : byte u 4 << 32 / 2 ^ 24 ≡ byte u 4 << 8 = omega arith in
    let mid : byte u 3 << 24 / 2 ^ 8 ≡ byte u 3 << 16 = omega arith in
    let low : byte u 2 << 16 * 2 ^ 8 ≡ byte u 2 << 24 = omega arith in
    let last : u % 2 ^ 8 ≡ byte u 0 = omega arith in
    let next : byte u 1 << 8 * 2 ^ 24 ≡ byte u 1 << 32 = omega arith in
    rw
      (
        bit_and_window 8 40 u,
        bit_and_window 8 32 u,
        bit_and_window 8 24 u,
        bit_and_window 8 16 u,
        bit_and_window 8 8 u,
        bit_and_low 8 u,
        top,
        high,
        mid,
        low,
        next,
        last,
      )
      (low_fields (byte u 5) (byte u 4) (byte u 3) (byte u 2) (byte u 1) (byte u 0) (omega arith)
        (omega arith) (omega arith) (omega arith) (omega arith))

pub data SwapWidth : Type 0 where
  s16 s24 s48 : SwapWidth

abbrev pub bits : SwapWidth → ℕ
bits s16 = 16
bits s24 = 24
bits s48 = 48

abbrev pub bswap : SwapWidth → ℕ → ℕ
bswap s16 = bswap16
bswap s24 = bswap24
bswap s48 = bswap48

-- The bytes of `v` are those of `u` in the other order, and there are no others.
abbrev pub Reversed : SwapWidth → ℕ → ℕ → Type 0
Reversed s16 u v = (byte v 0 ≡ byte u 1) × (byte v 1 ≡ byte u 0) × (v < 2 ^ 16)
Reversed s24 u v =
    (byte v 0 ≡ byte u 2) × (byte v 1 ≡ byte u 1) × (byte v 2 ≡ byte u 0) × (v < 2 ^ 24)
Reversed s48 u v =
    (byte v 0 ≡ byte u 5)
    × (byte v 1 ≡ byte u 4)
    × (byte v 2 ≡ byte u 3)
    × (byte v 3 ≡ byte u 2)
    × (byte v 4 ≡ byte u 1)
    × (byte v 5 ≡ byte u 0)
    × (v < 2 ^ 48)

-- On the numbers of its width, each swap reverses the order of the bytes, and is undone by itself.
pub bswap-Reversed :
    (w : SwapWidth) (u : ℕ) → u < 2 ^ bits w → Reversed w u (bswap w u) × (bswap w (bswap w u) ≡ u)
bswap-Reversed s16 u h =
    let first = bswap16-bytes u h in
    let word : bswap16 u < 2 ^ 16 = omega (arith, first) in
    (
      (omega (arith, first), omega (arith, first), word),
      omega (arith, first, bswap16-bytes (bswap16 u) word),
    )
bswap-Reversed s24 u h =
    let first = bswap24-bytes u in
    (
      (omega (arith, first), omega (arith, first), omega (arith, first), omega (arith, first)),
      omega (arith, first, bswap24-bytes (bswap24 u)),
    )
bswap-Reversed s48 u h =
    let first = bswap48-bytes u in
    (
      (
        omega (arith, first),
        omega (arith, first),
        omega (arith, first),
        omega (arith, first),
        omega (arith, first),
        omega (arith, first),
        omega (arith, first),
      ),
      omega (arith, first, bswap48-bytes (bswap48 u)),
    )
