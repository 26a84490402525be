-- ===== src/Bytes/Value.antt =====
-- The numbers that big-endian fields stand for, without `|`.
use zapret.Base.{
  ℕ, ◌+◌, ◌*◌, ◌^◌, ◌<◌, ◌≡◌, List, some, arith, bit_or, length, get_or, get_elem?,
  get_elem?-eq-get_or,
}
use zapret.Base.Bits.{◌<<◌, bit_or_add}
use zapret.Memory.{Bytes}
use zapret.Memory.Laws.{get_or-lt-256}
use zapret.Bytes.{pntoh16, pntoh24, pntoh32}

pub or2 : (a b : ℕ) → b < 256 → bit_or (a << 8) b ≡ a * 2 ^ 8 + b
or2 a b hb = bit_or_add 8 (a << 8) b (omega arith) hb

pub or3 :
    (a b c : ℕ)
    → b < 256
    → c < 256
    → bit_or (bit_or (a << 16) (b << 8)) c ≡ a * 2 ^ 16 + b * 2 ^ 8 + c
or3 a b c hb hc =
    rw (bit_or_add 16 (a << 16) (b << 8) (omega arith) (omega arith))
      (bit_or_add 8 (a << 16 + b << 8) c (omega arith) hc)

pub or4 :
    (a b c d : ℕ)
    → b < 256
    → c < 256
    → d < 256
    → bit_or (bit_or (bit_or (a << 24) (b << 16)) (c << 8)) d
      ≡ a * 2 ^ 24 + b * 2 ^ 16 + c * 2 ^ 8 + d
or4 a b c d hb hc hd =
    rw
      (
        bit_or_add 24 (a << 24) (b << 16) (omega arith) (omega arith),
        bit_or_add 16 (a << 24 + b << 16) (c << 8) (omega arith) (omega arith),
      )
      (bit_or_add 8 (a << 24 + b << 16 + c << 8) d (omega arith) hd)

pub or6 :
    (b0 b1 b2 b3 b4 b5 : ℕ)
    → b1 < 256
    → b2 < 256
    → b3 < 256
    → b4 < 256
    → b5 < 256
    → bit_or
        (bit_or (bit_or (bit_or (bit_or (b0 << 40) (b1 << 32)) (b2 << 24)) (b3 << 16)) (b4 << 8))
        b5
      ≡ b0 * 2 ^ 40 + b1 * 2 ^ 32 + b2 * 2 ^ 24 + b3 * 2 ^ 16 + b4 * 2 ^ 8 + b5
or6 b0 b1 b2 b3 b4 b5 h1 h2 h3 h4 h5 =
    rw
      (
        bit_or_add 40 (b0 << 40) (b1 << 32) (omega arith) (omega arith),
        bit_or_add 32 (b0 << 40 + b1 << 32) (b2 << 24) (omega arith) (omega arith),
        bit_or_add 24 (b0 << 40 + b1 << 32 + b2 << 24) (b3 << 16) (omega arith) (omega arith),
        bit_or_add 16 (b0 << 40 + b1 << 32 + b2 << 24 + b3 << 16) (b4 << 8) (omega arith)
            (omega arith),
      )
      (bit_or_add 8 (b0 << 40 + b1 << 32 + b2 << 24 + b3 << 16 + b4 << 8) b5 (omega arith) h5)

pub or8 :
    (b0 b1 b2 b3 b4 b5 b6 b7 : ℕ)
    → b1 < 256
    → b2 < 256
    → b3 < 256
    → b4 < 256
    → b5 < 256
    → b6 < 256
    → b7 < 256
    → bit_or
        (bit_or
          (bit_or
            (bit_or
              (bit_or (bit_or (bit_or (b0 << 56) (b1 << 48)) (b2 << 40)) (b3 << 32))
              (b4 << 24))
            (b5 << 16))
          (b6 << 8))
        b7
      ≡ b0 * 2 ^ 56
        + b1 * 2 ^ 48
        + b2 * 2 ^ 40
        + b3 * 2 ^ 32
        + b4 * 2 ^ 24
        + b5 * 2 ^ 16
        + b6 * 2 ^ 8
        + b7
or8 b0 b1 b2 b3 b4 b5 b6 b7 h1 h2 h3 h4 h5 h6 h7 =
    rw
      (
        bit_or_add 56 (b0 << 56) (b1 << 48) (omega arith) (omega arith),
        bit_or_add 48 (b0 << 56 + b1 << 48) (b2 << 40) (omega arith) (omega arith),
        bit_or_add 40 (b0 << 56 + b1 << 48 + b2 << 40) (b3 << 32) (omega arith) (omega arith),
        bit_or_add 32 (b0 << 56 + b1 << 48 + b2 << 40 + b3 << 32) (b4 << 24) (omega arith)
            (omega arith),
        bit_or_add 24 (b0 << 56 + b1 << 48 + b2 << 40 + b3 << 32 + b4 << 24) (b5 << 16)
            (omega arith) (omega arith),
        bit_or_add 16 (b0 << 56 + b1 << 48 + b2 << 40 + b3 << 32 + b4 << 24 + b5 << 16) (b6 << 8)
            (omega arith) (omega arith),
      )
      (bit_or_add 8 (b0 << 56 + b1 << 48 + b2 << 40 + b3 << 32 + b4 << 24 + b5 << 16 + b6 << 8) b7
        (omega arith) h7)

module _ (d : List ℕ) (p : ℕ) (bytes : Bytes d) where
  -- The byte at `p + i`.
  abbrev pub at : ℕ → ℕ
  at i = get_or d (p + i) 0

  at-lt : (i : ℕ) → at i < 256
  at-lt i = get_or-lt-256 d (p + i) bytes

  reads : (i : ℕ) → p + i < length d → get_elem? d (p + i) ≡ some (at i)
  reads i h = get_elem?-eq-get_or d (p + i) 0 h

  pub pntoh16-eq : p + 1 < length d → pntoh16 d p ≡ some (get_or d p 0 * 2 ^ 8 + at 1)
  unfolding pntoh16
  pntoh16-eq h =
      rw (get_elem?-eq-get_or d p 0 (omega arith), reads 1 h, or2 (get_or d p 0) (at 1) (at-lt 1))

  pub pntoh24-eq :
      p + 2 < length d → pntoh24 d p ≡ some (get_or d p 0 * 2 ^ 16 + at 1 * 2 ^ 8 + at 2)
  unfolding pntoh24
  pntoh24-eq h = rw (
    get_elem?-eq-get_or d p 0 (omega arith),
    reads 1 (omega arith),
    reads 2 h,
    or3 (get_or d p 0) (at 1) (at 2) (at-lt 1) (at-lt 2),
  )

  pub pntoh32-eq :
      p + 3 < length d
      → pntoh32 d p ≡ some (get_or d p 0 * 2 ^ 24 + at 1 * 2 ^ 16 + at 2 * 2 ^ 8 + at 3)
  unfolding pntoh32
  pntoh32-eq h = rw (
    get_elem?-eq-get_or d p 0 (omega arith),
    reads 1 (omega arith),
    reads 2 (omega arith),
    reads 3 h,
    or4 (get_or d p 0) (at 1) (at 2) (at 3) (at-lt 1) (at-lt 2) (at-lt 3),
  )

-- A 16-bit read inside the buffer succeeds.
pub pntoh16_total : (d : List ℕ) (p : ℕ) → p + 1 < length d → (v : ℕ) × (pntoh16 d p ≡ some v)
unfolding pntoh16
pntoh16_total d p h = (
  bit_or (get_or d p 0 << 8) (get_or d (p + 1) 0),
  rw (get_elem?-eq-get_or d p 0 (omega arith), get_elem?-eq-get_or d (p + 1) 0 h),
)
