-- ===== src/Checksum.antt =====
-- nfq2/checksum.c: the Internet checksum by 64-bit additions, on a little-endian host. `buff` is
-- the memory from the pointer on and `addr` the pointer's address, which decides the alignment.
pub mod Fold
pub mod Little
pub mod Sum
pub mod Words
pub mod Total
mod Examples
use zapret.Base.{
  ℕ, zero, suc, ◌+◌, ◌-◌, ◌*◌, ◌^◌, List, [], ◌∷◌, Option, none, some, Bool, true, false, ltb, ◌==◌,
  if◌then◌else◌, bit_and, bit_or, drop,
}
use zapret.Base.Bits.{◌<<◌, ◌>>◌, u8, u16, u32, u64}
use zapret.Memory.{◌>>=◌}

pub from64to16 : ℕ → ℕ
from64to16 x =
    let u = u32 (u16 x + u16 (x >> 16) + u16 (x >> 32) + u16 (x >> 48)) in
    u16 (u16 u + u16 (u >> 16))

-- The `k`-byte word at the pointer, read in little-endian order.
pub read : ℕ → List ℕ → Option ℕ
read zero buff = some 0
read (suc k) [] = none
read (suc k) (b ∷ buff) = do w ← read k buff; some (b + 256 * w)

-- The variables of `do_csum`.
pub record Csum : Type 0 where
  pub result : ℕ
  pub buff : List ℕ
  pub addr : ℕ
  pub len : ℕ

-- `result += word; buff += k`.
pub add : ℕ → Csum → Option Csum
add k s = do
  w ← read k s.buff
  some (record s { result = u64 (s.result + w); buff = drop k s.buff; addr = s.addr + k })

-- The 64-bit words, `count` of them, with the carry of each addition kept for the next.
pub add_words : ℕ → ℕ → Csum → Option (Csum × ℕ)
add_words zero carry s = some (s, carry)
add_words (suc count) carry s = do
  w ← read 8 s.buff
  let result = u64 (u64 (s.result + carry) + w)
  let carry' = if ltb result w then 1 else 0
  add_words count carry' (record s { result = result; buff = drop 8 s.buff; addr = s.addr + 8 })

-- `if (count) { do ... while (count); result += carry; result = fold }`.
pub words64 : ℕ → Csum → Option Csum
words64 count s = if count == 0 then some s else do
  (s', carry) ← add_words count 0 s
  let total = u64 (s'.result + carry)
  some (record s' { result = u64 (bit_and total 0xffffffff + (total >> 32)) })

-- A step that is taken if a bit of the length or the address is set.
abbrev pub when : ℕ → (Csum → Option Csum) → Csum → Option Csum
when bit step s = if bit == 0 then some s else step s

-- A word before the aligned part, which is taken off the length.
pub align : ℕ → Csum → Option Csum
align k s = add k (record s { len = s.len - k })

-- What is done for `count` 32-bit words.
pub words32 : ℕ → Csum → Option Csum
words32 count s = if count == 0 then some s else do
  s1 ← when (bit_and s.addr 4) (align 4) s
  s2 ← words64 ((if bit_and s.addr 4 == 0 then count else count - 1) >> 1) s1
  when (bit_and s2.len 4) (add 4) s2

-- What is done for `count` 16-bit words.
pub words16 : ℕ → Csum → Option Csum
words16 count s = if count == 0 then some s else do
  s1 ← when (bit_and s.addr 2) (align 2) s
  s2 ← words32 ((if bit_and s.addr 2 == 0 then count else count - 1) >> 1) s1
  when (bit_and s2.len 2) (add 2) s2

-- The first byte of a buffer at an odd address is the high byte of a word.
pub odd_byte : Csum → Option Csum
odd_byte s = do
  b ← read 1 s.buff
  some (record s { result = b << 8; buff = drop 1 s.buff; addr = s.addr + 1; len = s.len - 1 })

-- From `count = len >> 1` to the last byte.
pub even_part : Csum → Option Csum
even_part s = do s1 ← words16 (s.len >> 1) s; when (bit_and s1.len 1) (add 1) s1

pub swap_bytes : ℕ → ℕ
swap_bytes w = bit_or (bit_and (w >> 8) 0xff) (bit_and w 0xff << 8)

pub do_csum : List ℕ → ℕ → ℕ → Option ℕ
do_csum buff addr len = if len == 0 then some 0 else do
  let odd = u8 (bit_and addr 1)
  s ← when odd odd_byte (record { result = 0; buff = buff; addr = addr; len = len })
  s1 ← even_part s
  let sum = from64to16 s1.result
  some (if odd == 0 then sum else swap_bytes sum)
