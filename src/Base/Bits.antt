-- ===== src/Base/Bits.antt =====
-- `|`, `&` and the shifts of C on native numbers: what a mask of low bits keeps, and what joining
-- two disjoint fields gives.
use Prim.Native.Nat.{
  ℕ, zero, suc, ◌+◌, ◌-◌, ◌*◌, ◌/◌, ◌%◌, ◌^◌, ◌≤◌, ◌<◌, min, max, bit_and, bit_or, digits,
  bit_and-bitwise, bit_or-bitwise,
}
use mathlib.Core.Path.{◌≡◌, refl, ap}
use native.Mathlib.Nat.{pow-suc, one-le-pow, mul_comm, div-div-eq-div-mul}
use native.Mathlib.Omega.{arith}

infixl 75 ◌<<◌ ◌>>◌
abbrev pub ◌<<◌ : ℕ → ℕ → ℕ
x << k = x * 2 ^ k

abbrev pub ◌>>◌ : ℕ → ℕ → ℕ
x >> k = x / 2 ^ k

abbrev pub u8 : ℕ → ℕ
u8 n = n % 2 ^ 8

abbrev pub u16 : ℕ → ℕ
u16 n = n % 2 ^ 16

abbrev pub u32 : ℕ → ℕ
u32 n = n % 2 ^ 32

abbrev pub u64 : ℕ → ℕ
u64 n = n % 2 ^ 64

-- Any fuel from the first argument on gives the same digits.
module _ (z : ℕ → ℕ) (f : ℕ → ℕ → ℕ) where
  enough : (a n m b : ℕ) → a ≤ n → a ≤ m → digits z f n a b ≡ digits z f m a b
  enough a zero zero b p q = refl
  enough zero zero (suc m) b p q = refl
  enough (suc a) zero m b p q = absurd (omega arith)
  enough zero (suc n) zero b p q = refl
  enough (suc a) (suc n) zero b p q = absurd (omega arith)
  enough zero (suc n) (suc m) b p q = refl
  enough (suc a) (suc n) (suc m) b p q =
      rw (enough (suc a / 2) n m (b / 2) (omega arith) (omega arith))

or_digit : (a b : ℕ) → bit_or a b ≡ bit_or (a / 2) (b / 2) * 2 + max (a % 2) (b % 2)
or_digit zero b = simp bit_or-bitwise (omega arith)
or_digit (suc a) b =
    simp bit_or-bitwise
      (omega (arith, enough (λ y. y) max (suc a / 2) a (suc a / 2) (b / 2) (omega arith)))

and_digit : (a b : ℕ) → bit_and a b ≡ bit_and (a / 2) (b / 2) * 2 + min (a % 2) (b % 2)
and_digit zero b = simp bit_and-bitwise (omega arith)
and_digit (suc a) b =
    simp bit_and-bitwise
      (omega (arith, enough (λ y. 0) min (suc a / 2) a (suc a / 2) (b / 2) (omega arith)))

or_zero_below : (n a : ℕ) → a ≤ n → bit_or a 0 ≡ a
or_zero_below n zero h = refl
or_zero_below zero (suc a) h = absurd (omega arith)
or_zero_below (suc n) (suc a) h =
    omega (arith, or_digit (suc a) 0, or_zero_below n (suc a / 2) (omega arith))

and_zero_below : (n a : ℕ) → a ≤ n → bit_and a 0 ≡ 0
and_zero_below n zero h = refl
and_zero_below zero (suc a) h = absurd (omega arith)
and_zero_below (suc n) (suc a) h =
    omega (arith, and_digit (suc a) 0, and_zero_below n (suc a / 2) (omega arith))

shift_digit : (q k : ℕ) → q * 2 ^ suc k ≡ 2 * (q * 2 ^ k)
shift_digit q k = omega (arith, ap (λ (t : ℕ). q * t) (pow-suc 2 k))

-- A field moved above a narrower one joins it as a sum.
pub bit_or_join : (k hi lo : ℕ) → lo < 2 ^ k → bit_or (hi << k) lo ≡ hi * 2 ^ k + lo
bit_or_join zero hi lo h = ground (arith, or_zero_below hi hi)
bit_or_join (suc k) hi lo h = ground (
  arith,
  or_digit (hi * 2 ^ suc k) lo,
  shift_digit hi k,
  bit_or_join k hi (lo / 2) (omega (arith, pow-suc 2 k)),
)

and_low : (k hi lo : ℕ) → lo < 2 ^ k → bit_and (hi * 2 ^ k + lo) (2 ^ k - 1) ≡ lo
and_low zero hi lo h = ground (arith, and_zero_below (hi * 2 ^ 0 + lo) (hi * 2 ^ 0 + lo))
and_low (suc k) hi lo h = ground (
  arith,
  and_digit (hi * 2 ^ suc k + lo) (2 ^ suc k - 1),
  shift_digit hi k,
  pow-suc 2 k,
  and_low k hi (lo / 2) (omega (arith, pow-suc 2 k)),
)

-- Masking with `k` ones leaves the remainder by `2 ^ k`.
pub bit_and_low : (k a : ℕ) → bit_and a (2 ^ k - 1) ≡ a % 2 ^ k
bit_and_low k a = ground (arith, one-le-pow k 2, and_low k (a / 2 ^ k) (a % 2 ^ k))

-- `|` of a multiple of `2 ^ k` and a value below `2 ^ k` is their sum.
pub bit_or_add : (k x y : ℕ) → x % 2 ^ k ≡ 0 → y < 2 ^ k → bit_or x y ≡ x + y
bit_or_add k x y h lt =
    let whole : x / 2 ^ k * 2 ^ k ≡ x = omega arith in
    ground (arith, whole, bit_or_join k (x / 2 ^ k) y lt)

halves : (a k : ℕ) → a / 2 / 2 ^ k ≡ a / 2 ^ suc k
halves a k = rw (pow-suc, mul_comm (2 ^ k) 2) (div-div-eq-div-mul a 2 (2 ^ k))

-- Masking with `n` ones above `k` zeros keeps that window of bits, in place.
pub bit_and_window : (n k a : ℕ) → bit_and a ((2 ^ n - 1) << k) ≡ (a / 2 ^ k % 2 ^ n) << k
bit_and_window n zero a = ground (arith, bit_and_low n a)
bit_and_window n (suc k) a = ground (
  arith,
  and_digit a ((2 ^ n - 1) * 2 ^ suc k),
  shift_digit (2 ^ n - 1) k,
  shift_digit (a / 2 ^ suc k % 2 ^ n) k,
  bit_and_window n k (a / 2),
  halves a k,
)

or_comm_below : (n a b : ℕ) → a + b ≤ n → bit_or a b ≡ bit_or b a
or_comm_below zero zero zero h = refl
or_comm_below zero zero (suc b) h = absurd (omega arith)
or_comm_below zero (suc a) b h = absurd (omega arith)
or_comm_below (suc n) zero zero h = refl
or_comm_below (suc n) zero (suc b) h = omega (
  arith,
  or_digit 0 (suc b),
  or_digit (suc b) 0,
  or_comm_below n (0 / 2) (suc b / 2) (omega arith),
)
or_comm_below (suc n) (suc a) b h = omega (
  arith,
  or_digit (suc a) b,
  or_digit b (suc a),
  or_comm_below n (suc a / 2) (b / 2) (omega arith),
)

pub bit_or_comm : (a b : ℕ) → bit_or a b ≡ bit_or b a
bit_or_comm a b = or_comm_below (a + b) a b (omega arith)

-- The same sum with the low part first.
pub bit_or_add_low : (k x y : ℕ) → x % 2 ^ k ≡ 0 → y < 2 ^ k → bit_or y x ≡ y + x
bit_or_add_low k x y h lt = omega (arith, bit_or_comm y x, bit_or_add k x y h lt)
