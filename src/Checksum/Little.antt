-- ===== src/Checksum/Little.antt =====
-- The first bytes of a buffer as one little-endian number, which modulo 65535 is the sum of their
-- 16-bit words.
use Prim.Native.Nat.add
use native.Mathlib.Nat.{one-le-pow, pow-suc}
use zapret.Base.{
  ℕ, zero, suc, ◌+◌, ◌*◌, ◌/◌, ◌%◌, ◌^◌, ◌≤◌, ◌<◌, ◌≡◌, refl, ap, List, [], ◌∷◌, some, arith,
  length, drop,
}
use zapret.Memory.{Bytes}
use zapret.Checksum.{read}
use zapret.Checksum.Fold.{◌≈◌}

-- A buffer that ends early counts as zero from there on.
pub le : ℕ → List ℕ → ℕ
le zero buff = 0
le (suc n) [] = 0
le (suc n) (b ∷ buff) = b + 256 * le n buff

-- RFC 1071 in the order of a little-endian host: the sum of the 16-bit words of the first `n`
-- bytes, the last of which is padded with a zero.
unfoldable pub word_sum : ℕ → List ℕ → ℕ
word_sum zero buff = 0
word_sum (suc n) [] = 0
word_sum (suc zero) (b ∷ buff) = b
word_sum (suc (suc n)) (b ∷ []) = b
word_sum (suc (suc n)) (b ∷ c ∷ buff) = b + 256 * c + word_sum n buff

pub le-word_sum : (n : ℕ) (buff : List ℕ) → le n buff ≈ word_sum n buff
unfolding le word_sum
le-word_sum zero buff = refl
le-word_sum (suc n) [] = refl
le-word_sum (suc zero) (b ∷ buff) = omega arith
le-word_sum (suc (suc n)) (b ∷ []) = omega arith
le-word_sum (suc (suc n)) (b ∷ c ∷ buff) = omega (arith, le-word_sum n buff)

pub le_zero : (buff : List ℕ) → le 0 buff ≡ 0
unfolding le
le_zero buff = refl

pub le_next : (b : ℕ) (buff : List ℕ) (n : ℕ) → le (suc n) (b ∷ buff) ≡ b + 256 * le n buff
unfolding le
le_next b buff n = refl

pub read-le : (k : ℕ) (buff : List ℕ) → k ≤ length buff → read k buff ≡ some (le k buff)
unfolding read le
read-le zero buff h = refl
read-le (suc k) [] h = absurd (omega arith)
read-le (suc k) (b ∷ buff) h = rw (read-le k buff (omega arith))

pub le-lt : (n : ℕ) (buff : List ℕ) → Bytes buff → le n buff < 256 ^ n
unfolding le
le-lt zero buff h = omega arith
le-lt (suc n) [] h = one-le-pow (suc n) 256 (omega arith)
le-lt (suc n) (b ∷ buff) h = omega (arith, le-lt n buff h.1, pow-suc 256 n)

pub drop-Bytes : (k : ℕ) (buff : List ℕ) → Bytes buff → Bytes (drop k buff)
drop-Bytes zero buff h = h
drop-Bytes (suc k) [] h = tt
drop-Bytes (suc k) (b ∷ buff) h = drop-Bytes k buff h.1

pub le_nil : (n : ℕ) → le n [] ≡ 0
unfolding le
le_nil zero = refl
le_nil (suc n) = refl

-- A number of bytes is read in two parts.
pub le-add : (k m : ℕ) (buff : List ℕ) → le (k + m) buff ≡ le k buff + 256 ^ k * le m (drop k buff)
unfolding le
le-add zero m buff = rw add.zero (omega arith)
le-add (suc k) m [] = rw (le_nil (suc k + m), le_nil m) (omega arith)
le-add (suc k) m (b ∷ buff) =
    rw add.suc
      (omega (arith, le-add k m buff, ap (λ (t : ℕ). t * le m (drop k buff)) (pow-suc 256 k)))

even_scale : (k x : ℕ) → 256 ^ (2 * k) * x ≈ x
even_scale zero x = omega arith
even_scale (suc k) x =
    let two_more : 2 * suc k ≡ suc (suc (2 * k)) = omega arith in
    rw two_more (
      omega (
        arith,
        ap (λ (t : ℕ). t * x) (pow-suc 256 (suc (2 * k))),
        ap (λ (t : ℕ). t * (256 * x)) (pow-suc 256 (2 * k)),
        even_scale k (256 * 256 * x),
      ))

-- Modulo 65535 an even number of bytes in front only adds.
pub le-add_even :
    (n m : ℕ) (buff : List ℕ) → n % 2 ≡ 0 → le (n + m) buff ≈ le n buff + le m (drop n buff)
le-add_even n m buff even =
    let half : 2 * (n / 2) ≡ n = omega arith in
    omega (arith, le-add n m buff, rw half at (even_scale (n / 2) (le m (drop n buff))))
