-- ===== src/Strings/Hex.antt =====
-- `hex_digit` and `parse_hex_str`: the digits of bytes give the bytes.
use zapret.Base.{
  ℕ, zero, suc, ◌/◌, ◌%◌, ◌≤◌, ◌<◌, ◌≡◌, refl, List, [], ◌∷◌, some, Bool, true, arith, length,
}
use zapret.Base.Bits.{bit_or_join}
use zapret.Memory.{Bytes}
use zapret.Strings.{parse_hex_digit, parse_hex_byte, parse_hex_str, store_byte, hex_digit}

parse_hex_digit-hex_digit : (v : ℕ) → v < 16 → parse_hex_digit (hex_digit v) ≡ v
unfolding parse_hex_digit hex_digit
parse_hex_digit-hex_digit v h = ground arith

parse_hex_byte-hex_digit :
    (v : ℕ) → v < 256 → parse_hex_byte (hex_digit (v / 16)) (hex_digit (v % 16)) ≡ some v
unfolding parse_hex_byte
parse_hex_byte-hex_digit v h =
    let hi = parse_hex_digit-hex_digit (v / 16) (omega arith) in
    let lo = parse_hex_digit-hex_digit (v % 16) (omega arith) in
    let joined = bit_or_join 4 (v / 16) (v % 16) (omega arith) in
    rw (hi, lo) (ground (arith, joined))

-- The text of bytes in upper-case digits.
abbrev pub hex_str : List ℕ → List ℕ
hex_str [] = []
hex_str (b ∷ bs) = hex_digit (b / 16) ∷ hex_digit (b % 16) ∷ hex_str bs

-- The digits of bytes, parsed into a buffer with room for them all, give the bytes and succeed.
pub parse_hex_str-hex_str :
    (bs : List ℕ) (size : ℕ)
    → Bytes bs
    → length bs ≤ size
    → ◌≡◌ {A = List ℕ × Bool} (parse_hex_str (hex_str bs) size) (bs, true)
unfolding parse_hex_str store_byte
parse_hex_str-hex_str [] zero h room = refl
parse_hex_str-hex_str [] (suc size) h room = refl
parse_hex_str-hex_str (b ∷ bs) zero h room = absurd (omega arith)
parse_hex_str-hex_str (b ∷ bs) (suc size) h room =
    let first = parse_hex_byte-hex_digit b h.0 in
    let rest = parse_hex_str-hex_str bs size h.1 (omega arith) in rw (first, rest) refl
