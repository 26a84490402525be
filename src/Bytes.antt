-- ===== src/Bytes.antt =====
-- nfq2/helpers.c: the big-endian fields of packets, `pntoh16` to `pntoh64` and their writers, and
-- the byte swaps.
pub mod Value
pub mod RoundTrip
pub mod Swap
mod Examples
use zapret.Base.{ℕ, ◌+◌, List, [], ◌∷◌, Option, some, get_elem?, bit_and, bit_or}
use zapret.Base.Bits.{◌<<◌, ◌>>◌, u8, u16, u32}
use zapret.Memory.{◌>>=◌, store}

unfoldable pub pntoh16 : List ℕ → ℕ → Option ℕ
pntoh16 d p = do a ← get_elem? d p; b ← get_elem? d (p + 1); some (bit_or (a << 8) b)

unfoldable pub phton16 : List ℕ → ℕ → ℕ → Option (List ℕ)
phton16 d p v = store d p (u8 (v >> 8) ∷ bit_and v 0xff ∷ [])

unfoldable pub pntoh24 : List ℕ → ℕ → Option ℕ
pntoh24 d p = do
  a ← get_elem? d p
  b ← get_elem? d (p + 1)
  c ← get_elem? d (p + 2)
  some (bit_or (bit_or (a << 16) (b << 8)) c)

unfoldable pub phton24 : List ℕ → ℕ → ℕ → Option (List ℕ)
phton24 d p v = store d p (u8 (v >> 16) ∷ u8 (v >> 8) ∷ u8 v ∷ [])

unfoldable pub pntoh32 : List ℕ → ℕ → Option ℕ
pntoh32 d p = do
  a ← get_elem? d p
  b ← get_elem? d (p + 1)
  c ← get_elem? d (p + 2)
  e ← get_elem? d (p + 3)
  some (bit_or (bit_or (bit_or (a << 24) (b << 16)) (c << 8)) e)

unfoldable pub phton32 : List ℕ → ℕ → ℕ → Option (List ℕ)
phton32 d p v = store d p (u8 (v >> 24) ∷ u8 (v >> 16) ∷ u8 (v >> 8) ∷ u8 v ∷ [])

unfoldable pub pntoh48 : List ℕ → ℕ → Option ℕ
pntoh48 d p = do
  b0 ← get_elem? d p
  b1 ← get_elem? d (p + 1)
  b2 ← get_elem? d (p + 2)
  b3 ← get_elem? d (p + 3)
  b4 ← get_elem? d (p + 4)
  b5 ← get_elem? d (p + 5)
  some (
      bit_or
        (bit_or (bit_or (bit_or (bit_or (b0 << 40) (b1 << 32)) (b2 << 24)) (b3 << 16)) (b4 << 8))
        b5)

unfoldable pub phton48 : List ℕ → ℕ → ℕ → Option (List ℕ)
phton48 d p v =
    store d p (u8 (v >> 40) ∷ u8 (v >> 32) ∷ u8 (v >> 24) ∷ u8 (v >> 16) ∷ u8 (v >> 8) ∷ u8 v ∷ [])

unfoldable pub pntoh64 : List ℕ → ℕ → Option ℕ
pntoh64 d p = do
  b0 ← get_elem? d p
  b1 ← get_elem? d (p + 1)
  b2 ← get_elem? d (p + 2)
  b3 ← get_elem? d (p + 3)
  b4 ← get_elem? d (p + 4)
  b5 ← get_elem? d (p + 5)
  b6 ← get_elem? d (p + 6)
  b7 ← get_elem? d (p + 7)
  some (
      bit_or
        (bit_or
          (bit_or
            (bit_or (bit_or (bit_or (bit_or (b0 << 56) (b1 << 48)) (b2 << 40)) (b3 << 32))
              (b4 << 24))
            (b5 << 16))
          (b6 << 8))
        b7)

unfoldable pub phton64 : List ℕ → ℕ → ℕ → Option (List ℕ)
phton64 d p v = store d p (
    u8 (v >> 56)
    ∷ u8 (v >> 48)
    ∷ u8 (v >> 40)
    ∷ u8 (v >> 32)
    ∷ u8 (v >> 24)
    ∷ u8 (v >> 16)
    ∷ u8 (v >> 8)
    ∷ u8 v
    ∷ [])

unfoldable pub bswap16 : ℕ → ℕ
bswap16 u = u16 (bit_or (u >> 8) (bit_and u 0xff << 8))

-- `|` binds looser than `&`, and the shift to the left is done in 32 bits.
unfoldable pub bswap24 : ℕ → ℕ
bswap24 u =
    bit_or (bit_or (bit_and (u >> 16) 0xff) (bit_and u 0xff00)) (bit_and (u32 (u << 16)) 0xff0000)

unfoldable pub bswap48 : ℕ → ℕ
bswap48 u =
    bit_or
      (bit_or
        (bit_or
          (bit_or (bit_or (bit_and u 0xff0000000000 >> 40) (bit_and u 0xff00000000 >> 24))
            (bit_and u 0xff000000 >> 8))
          (bit_and u 0xff0000 << 8))
        (bit_and u 0xff00 << 24))
      (bit_and u 0xff << 40)
