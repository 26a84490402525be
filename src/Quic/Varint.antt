-- ===== src/Quic/Varint.antt =====
-- The variable-length integers of QUIC: what is read, and how they are written.
use zapret.Base.{
  ℕ, ◌+◌, ◌^◌, ◌≤◌, ◌<◌, ◌≡◌, refl, List, Option, some, ◌==◌, arith, get_elem?, length, bit_and,
  Bool-cases, inl, inr,
}
use zapret.Base.Bits.{◌<<◌, ◌>>◌, u8, bit_and_low}
use zapret.Memory.{◌>>=◌, Bytes}
use zapret.Memory.Laws.{get_elem?-lt-256}
use zapret.Memory.Safe.{
  Returns, Any, bind-Returns, branch-Returns, pntoh16-Returns, pntoh32-Returns, pntoh64-Returns,
}
use zapret.Bytes.{pntoh16, pntoh32, pntoh64}
use zapret.Quic.{varint_of, tvb_get_varint, tvb_get_size}

-- The number of bytes that the first byte announces, and a value of at most 62 bits.
abbrev pub Varint : ℕ → ℕ × ℕ → Type 0
Varint b (v, n) = (n ≡ tvb_get_size b) × (v < 2 ^ 62) × (1 ≤ n) × (n ≤ 8)

pub size_of : (b : ℕ) → b < 256 → (1 ≤ tvb_get_size b) × (tvb_get_size b ≤ 8)
unfolding tvb_get_size
size_of b h = elim (Bool-cases (b >> 6 == 0)) [
  | inl e ↦ let k : b >> 6 ≡ 0 = ground arith in rw k (omega arith, omega arith)
  | inr e0 ↦ elim (Bool-cases (b >> 6 == 1)) [
    | inl e ↦ let k : b >> 6 ≡ 1 = ground arith in rw k (omega arith, omega arith)
    | inr e1 ↦ elim (Bool-cases (b >> 6 == 2)) [
      | inl e ↦ let k : b >> 6 ≡ 2 = ground arith in rw k (omega arith, omega arith)
      | inr e2 ↦ let k : b >> 6 ≡ 3 = ground arith in rw k (omega arith, omega arith)
    ]
  ]
]

-- The size at each value of the two high bits.
size_at : (b k : ℕ) → b >> 6 ≡ k → tvb_get_size b ≡ u8 (1 << k)
unfolding tvb_get_size
size_at b k e = rw e refl

-- A field of that many bytes, without its two high bits.
field-Varint :
    (b n : ℕ) (o : Option ℕ)
    → n ≡ tvb_get_size b
    → 1 ≤ n
    → n ≤ 8
    → (mask : ℕ) → ((v : ℕ) → bit_and v mask < 2 ^ 62)
    → Returns Any o
    → Returns (Varint b) (do v ← o; some (bit_and v mask, n))
field-Varint b n o size low high mask masked r =
    bind-Returns Any (Varint b) o _ r
      (λ v _ _. ((bit_and v mask, n), refl, (size, masked v, low, high)))

varint_of-Varint :
    (d : List ℕ) (p b : ℕ)
    → b < 256
    → p + tvb_get_size b ≤ length d
    → Returns (Varint b) (varint_of (b >> 6) d p b)
unfolding varint_of
varint_of-Varint d p b byte fits =
    branch-Returns (Varint b) (b >> 6 == 0) _ _
      (λ e0.
        let size = size_at b 0 (ground arith) in
        (
          (bit_and b 0x3f, 1),
          refl,
          (omega (arith, size), omega (arith, bit_and_low 6 b), omega arith, omega arith),
        ))
      (λ e0.
        branch-Returns (Varint b) (b >> 6 == 1) _ _
          (λ e1.
            let size = size_at b 1 (ground arith) in
            field-Varint b 2 (pntoh16 d p) (omega (arith, size)) (omega arith) (omega arith) 0x3fff
              (λ v. omega (arith, bit_and_low 14 v)) (pntoh16-Returns d p (omega (arith, size))))
          (λ e1.
            branch-Returns (Varint b) (b >> 6 == 2) _ _
              (λ e2.
                let size = size_at b 2 (ground arith) in
                field-Varint b 4 (pntoh32 d p) (omega (arith, size)) (omega arith) (omega arith)
                  0x3fffffff (λ v. omega (arith, bit_and_low 30 v))
                  (pntoh32-Returns d p (omega (arith, size))))
              (λ e2.
                let last : b >> 6 ≡ 3 = ground arith in
                let size = size_at b 3 last in
                branch-Returns (Varint b) (b >> 6 == 3) _ _
                  (λ e3.
                    field-Varint b 8 (pntoh64 d p) (omega (arith, size)) (omega arith) (omega arith)
                      0x3fffffffffffffff (λ v. omega (arith, bit_and_low 62 v))
                      (pntoh64-Returns d p (omega (arith, size))))
                  (λ e3. absurd (ground arith)))))

-- Where the bytes that the first byte announces may be read, the integer is read from them alone,
-- it has the announced size, from 1 to 8, and is below 2^62.
pub tvb_get_varint-Varint :
    (d : List ℕ) (p b : ℕ)
    → Bytes d
    → get_elem? d p ≡ some b
    → p + tvb_get_size b ≤ length d
    → Returns (Varint b) (tvb_get_varint d p)
unfolding tvb_get_varint
tvb_get_varint-Varint d p b bytes e fits =
    let byte = get_elem?-lt-256 d p bytes e in
    let r = varint_of-Varint d p b byte fits in (r.0, rw e r.1, r.2)
