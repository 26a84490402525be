-- ===== src/Checksum/Fold.antt =====
-- The fold of a 64-bit sum to 16 bits, modulo 65535, where `2 ^ 16` counts as 1.
use zapret.Base.{ℕ, ◌+◌, ◌%◌, ◌/◌, ◌^◌, ◌≤◌, ◌<◌, ◌≡◌, arith}
use zapret.Base.Bits.{u16, ◌>>◌}
use zapret.Checksum.{from64to16}

-- The two numbers stand for the same sum in one's complement arithmetic.
infix 50 ◌≈◌
abbrev pub ◌≈◌ : ℕ → ℕ → Type 0
x ≈ y = x % 65535 ≡ y % 65535

-- The sum of the four 16-bit parts.
abbrev pub parts : ℕ → ℕ
parts x = u16 x + u16 (x >> 16) + u16 (x >> 32) + u16 (x >> 48)

-- Adding the carries of that sum to its low 16 bits gives a carry once more.
abbrev pub Overflows : ℕ → Type 0
Overflows x = 2 ^ 16 ≤ parts x % 2 ^ 16 + parts x / 2 ^ 16

pub from64to16_exact : (x : ℕ) → x < 2 ^ 64 → ¬ Overflows x → from64to16 x ≈ x
unfolding from64to16
from64to16_exact x h none_lost = omega arith

-- The fold of a sum below 2^64 on which the second addition carries is one less than the sum, in
-- one's complement arithmetic.
pub from64to16_lost : (x : ℕ) → x < 2 ^ 64 → Overflows x → from64to16 x + 1 ≈ x
unfolding from64to16
from64to16_lost x h lost = omega arith
