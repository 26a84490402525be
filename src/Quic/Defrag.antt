-- ===== src/Quic/Defrag.antt =====
-- nfq2/protocol.c, `QUICDefragCrypto`: the CRYPTO frames of a packet are put together. The clean
-- text is `clean_len` bytes at index `p` of the memory `d`; `defrag` is the buffer of the result,
-- 10 bytes of header and the data.
pub mod Full
pub mod Bounds
pub mod Total
mod Examples
use zapret.Base.{
  ℕ, zero, suc, ◌+◌, ◌-◌, ◌<◌, List, [], ◌∷◌, ◌++◌, Option, none, some, Bool, true, false, ◌&&◌,
  ◌||◌, ltb, leb, ◌==◌, if◌then◌else◌, get_elem?, length, drop, max, bit_or,
}
use zapret.Base.Bits.{u64}
use zapret.Memory.{◌>>=◌, put, store}
use zapret.Bytes.{phton64}
use zapret.Queue.{copy_bytes}
use zapret.Datagrams.{zeros}
use zapret.Quic.{tvb_get_varint, tvb_get_size}

pub record Range64 : Type 0 where
  pub offset : ℕ
  pub len : ℕ

abbrev pub max_defrag_pieces : ℕ
max_defrag_pieces = 128

-- The variables of the loop.
pub record Pieces : Type 0 where
  pub pos : ℕ
  pub zeropos : ℕ
  pub szmax : ℕ
  pub found : Bool
  pub ranges : List Range64
  pub defrag : List ℕ

-- An exact duplicate of an earlier piece.
unfoldable pub has_range : List Range64 → ℕ → ℕ → Bool
has_range [] offset sz = false
has_range (r ∷ rs) offset sz = r.offset == offset && (r.len == sz) || has_range rs offset sz

-- The piece is copied, and a gap before it is filled with zeros. `ranges` is an array of
-- `max_defrag_pieces` on the stack; a write behind it faults.
unfoldable pub add_piece : List ℕ → ℕ → ℕ → ℕ → Pieces → Option Pieces
add_piece d at offset sz s = if leb max_defrag_pieces (length s.ranges) then none else do
  cleared ←
      if ltb s.zeropos offset
      then store s.defrag (10 + s.zeropos) (zeros (offset - s.zeropos))
      else some s.defrag
  bytes ← copy_bytes sz (drop at d)
  filled ← store cleared (10 + offset) bytes
  some (record s {
    zeropos = max s.zeropos (offset + sz);
    szmax = max s.szmax (offset + sz);
    found = true;
    ranges = s.ranges ++ record { offset = offset; len = sz } ∷ [];
    defrag = filled;
  })

-- A CRYPTO frame, from behind its type on; the inner `none` is false.
unfoldable pub crypto_piece : List ℕ → ℕ → ℕ → ℕ → ℕ → ℕ → ℕ → Pieces → Option (Option Pieces)
crypto_piece d p clean_len data_len pos offset sz s =
    if ltb clean_len (u64 (pos + sz)) || ltb data_len (u64 (offset + sz))
    then some none
    else if has_range s.ranges offset sz
    then some (some (record s { pos = pos + sz }))
    else (do s' ← add_piece d (p + pos) offset sz s; some (some (record s' { pos = pos + sz })))

unfoldable pub crypto_frame : List ℕ → ℕ → ℕ → ℕ → ℕ → Pieces → Option (Option Pieces)
crypto_frame d p clean_len data_len pos s =
    if leb clean_len pos || leb max_defrag_pieces (length s.ranges) then some none else do
      b ← get_elem? d (p + pos)
      if leb clean_len (u64 (pos + tvb_get_size b)) then some none else do
        (offset, n) ← tvb_get_varint d (p + pos)
        b2 ← get_elem? d (p + (pos + n))
        if ltb clean_len (u64 (pos + n + tvb_get_size b2)) then some none else do
          (sz, n2) ← tvb_get_varint d (p + (pos + n))
          crypto_piece d p clean_len data_len (pos + n + n2) offset sz s

-- A round ends in the next, or in false.
unfoldable pub frames_rest :
    (Pieces → Option (Option Pieces)) → Option Pieces → Option (Option Pieces)
frames_rest again none = some none
frames_rest again (some s) = again s

-- The loop; each round goes on by a byte at least, so that `clean_len` rounds are enough.
unfoldable pub frames : ℕ → List ℕ → ℕ → ℕ → ℕ → Pieces → Option (Option Pieces)
frames zero d p clean_len data_len s = if leb clean_len s.pos then some (some s) else none
frames (suc fuel) d p clean_len data_len s =
    let again = λ (s' : Pieces). frames fuel d p clean_len data_len s' in
    if leb clean_len s.pos then some (some s) else do
      ft ← get_elem? d (p + s.pos)
      if leb ft 1
          then again (record s { pos = s.pos + 1 })
          else (if ft == 6
              then (do r ← crypto_frame d p clean_len data_len (s.pos + 1) s; frames_rest again r)
              else some none)

-- The ranges in the order of their offsets, joined where they meet.
unfoldable pub merge_from : Range64 → List Range64 → List Range64
merge_from current [] = current ∷ []
merge_from current (next ∷ rs) =
    let current_end = current.offset + current.len in
    let next_end = next.offset + next.len in
    let joined =
      merge_from (record current { len = max next_end current_end - current.offset }) rs in
    let apart = merge_from next rs in
    if leb next.offset current_end then joined else current ∷ apart

unfoldable pub merge : List Range64 → List Range64
merge [] = []
merge (r ∷ rs) = merge_from r rs

-- `range==1 && !ranges[0].offset`.
unfoldable pub is_full : List Range64 → Bool
is_full (r ∷ []) = r.offset == 0
is_full rs = false

-- The answer: the length of the result, whether it is full, and the buffer.
unfoldable pub finish :
    (List Range64 → List Range64) → Option Pieces → Option (Option (ℕ × Bool × List ℕ))
finish qsort none = some none
finish qsort (some s) =
    if s.found
    then (do
      d0 ← put s.defrag 0 6
      d1 ← put d0 1 0
      d2 ← phton64 d1 2 s.szmax
      top ← get_elem? d2 2
      d3 ← put d2 2 (bit_or top 0xc0)
      some (some (s.szmax + 10, is_full (merge (qsort s.ranges)), d3)))
    else some none

-- `qsort` of the C library, by offset, is a parameter.
unfoldable pub quic_defrag_crypto :
    (List Range64 → List Range64)
    → List ℕ
    → ℕ
    → ℕ
    → List ℕ
    → ℕ
    → Option (Option (ℕ × Bool × List ℕ))
quic_defrag_crypto qsort d p clean_len defrag defrag_len =
    if ltb defrag_len 10 then some none else do
      s ←
          frames clean_len d p clean_len (defrag_len - 10) (record {
            pos = 0;
            zeropos = 0;
            szmax = 0;
            found = false;
            ranges = [];
            defrag = defrag;
          })
      finish qsort s
