-- ===== src/Checksum/Sum.antt =====
-- A stage of `do_csum` keeps the sum of the bytes that it read, modulo 65535, and stages compose.
use native.Mathlib.Nat.{one-le-pow}
use zapret.Base.{
  ℕ, ◌+◌, ◌-◌, ◌%◌, ◌^◌, ◌≤◌, ◌<◌, ◌≡◌, refl, ap, ◌∙◌, inl, inr, Option, some, arith, length, drop,
  length-drop, drop-drop, Bool-cases, ◌==◌, if◌then◌else◌,
}
use zapret.Base.Bits.{u64}
use zapret.Memory.{Bytes, ◌>>=◌}
use zapret.Checksum.{Csum, add, align, when}
use zapret.Checksum.Fold.{◌≈◌}
use zapret.Checksum.Little.{le, le_zero, le-add_even, le-lt, read-le, drop-Bytes}

-- The length fell by `taken`, or by a multiple of `m`.
abbrev pub Took : ℕ → ℕ → ℕ → Type 0
Took taken before after = after ≡ before - taken

abbrev pub SameMod : ℕ → ℕ → ℕ → Type 0
SameMod m before after = after % m ≡ before % m

-- A stage read `n` bytes into the sum, changed the length by `L`, and left the sum below `limit`.
pub record Stage (n : ℕ) (L : ℕ → ℕ → Type 0) (limit : ℕ) (s : Csum) (r : Option Csum)
    : Type 0 where
  pub out : Csum
  pub returns : r ≡ some out
  pub rest : out.buff ≡ drop n s.buff
  pub left : L s.len out.len
  pub bounded : out.result < limit
  pub total : out.result ≈ s.result + le n s.buff

-- What the next stage may rely on.
pub record After (n : ℕ) (L : ℕ → ℕ → Type 0) (limit : ℕ) (s t : Csum) : Type 0 where
  pub bytes : Bytes t.buff
  pub long : length t.buff ≡ length s.buff - n
  pub left : L s.len t.len
  pub small : t.result < limit

-- Two stages one after the other.
pub then-Stage :
    {n limit : ℕ} {L : ℕ → ℕ → Type 0} {s : Csum} {r : Option Csum} (n' limit' : ℕ)
    (L' L'' : ℕ → ℕ → Type 0) (f : Csum → Option Csum)
    → Bytes s.buff
    → Stage n L limit s r
    → n % 2 ≡ 0
    → ((b c : ℕ) → L s.len b → L' b c → L'' s.len c)
    → ((t : Csum) → After n L limit s t → Stage n' L' limit' t (f t))
    → Stage (n + n') L'' limit' s (r >>= f)
then-Stage {n} {s = s} n' limit' L' L'' f bytes one even glue next =
    let two = next one.out (record {
      bytes = rw one.rest (drop-Bytes n s.buff bytes);
      long = ap length one.rest ∙ length-drop n s.buff;
      left = one.left;
      small = one.bounded;
    }) in
    record {
      out = two.out;
      returns = rw one.returns two.returns;
      rest = two.rest ∙ ap (drop n') one.rest ∙ drop-drop n' n s.buff;
      left = glue one.out.len two.out.len one.left two.left;
      bounded = two.bounded;
      total =
          omega (arith, two.total, one.total, ap (le n') one.rest, le-add_even n n' s.buff even);
    }

module _ (k limit : ℕ) (s : Csum) (bytes : Bytes s.buff) (fits : k ≤ length s.buff)
    (small : s.result + 256 ^ k ≤ limit) (word : limit ≤ 2 ^ 64) where
  pub add-Stage : Stage k (Took 0) limit s (add k s)
  unfolding add
  add-Stage = record {
    out = record s {
      result = u64 (s.result + le k s.buff);
      buff = drop k s.buff;
      addr = s.addr + k;
    };
    returns = rw (read-le k s.buff fits);
    rest = refl;
    left = omega arith;
    bounded = omega (arith, le-lt k s.buff bytes);
    total = omega (arith, le-lt k s.buff bytes);
  }

  pub align-Stage : Stage k (Took k) limit s (align k s)
  unfolding align add
  align-Stage = record {
    out = record {
      result = u64 (s.result + le k s.buff);
      buff = drop k s.buff;
      addr = s.addr + k;
      len = s.len - k;
    };
    returns = rw (read-le k s.buff fits);
    rest = refl;
    left = refl;
    bounded = omega (arith, le-lt k s.buff bytes);
    total = omega (arith, le-lt k s.buff bytes);
  }

pub skip-Stage : (limit : ℕ) (s : Csum) → s.result < limit → Stage 0 (Took 0) limit s (some s)
skip-Stage limit s small = record {
  out = s;
  returns = refl;
  rest = refl;
  left = omega arith;
  bounded = small;
  total = omega (arith, le_zero s.buff);
}

-- What a step of `k` bytes reads, if its bit is set.
abbrev pub taken_by : ℕ → ℕ → ℕ
taken_by bit k = if bit == 0 then 0 else k

pub when-add-Stage :
    (bit k limit : ℕ) (s : Csum)
    → Bytes s.buff
    → taken_by bit k ≤ length s.buff
    → s.result + 256 ^ k ≤ limit
    → limit ≤ 2 ^ 64
    → Stage (taken_by bit k) (Took 0) limit s (when bit (add k) s)
when-add-Stage bit k limit s bytes fits small word = elim (Bool-cases (bit == 0)) [
  | inl off ↦ rw off (skip-Stage limit s (omega (arith, one-le-pow k 256 (omega arith))))
  | inr on ↦ rw on (add-Stage k limit s bytes (rw on at fits) small word)
]

pub when-align-Stage :
    (bit k limit : ℕ) (s : Csum)
    → Bytes s.buff
    → taken_by bit k ≤ length s.buff
    → s.result + 256 ^ k ≤ limit
    → limit ≤ 2 ^ 64
    → Stage (taken_by bit k) (Took (taken_by bit k)) limit s (when bit (align k) s)
when-align-Stage bit k limit s bytes fits small word = elim (Bool-cases (bit == 0)) [
  | inl off ↦ rw off (skip-Stage limit s (omega (arith, one-le-pow k 256 (omega arith))))
  | inr on ↦ rw on (align-Stage k limit s bytes (rw on at fits) small word)
]
