-- ===== src/Bytes/RoundTrip.antt =====
-- A field that was written is read back, at each of the five widths.
use zapret.Base.{
  ℕ, ◌+◌, ◌*◌, ◌%◌, ◌^◌, ◌≤◌, ◌<◌, ◌≡◌, refl, ◌∙◌, ap, ◌⊎◌, List, [], ◌∷◌, Option, some, arith,
  bit_and, length, get_elem?,
}
use zapret.Base.Bits.{◌>>◌, u8, bit_and_low}
use zapret.Memory.{store}
use zapret.Memory.Laws.{store-some, get_elem?-store_inside, get_elem?-store_outside}
use zapret.Bytes.Value.{or2, or3, or4, or6, or8}
use zapret.Bytes.{
  pntoh16, pntoh24, pntoh32, pntoh48, pntoh64, phton16, phton24, phton32, phton48, phton64,
}

pub data Width : Type 0 where
  w16 w24 w32 w48 w64 : Width

abbrev pub size : Width → ℕ
size w16 = 2
size w24 = 3
size w32 = 4
size w48 = 6
size w64 = 8

abbrev pub load_field : Width → List ℕ → ℕ → Option ℕ
load_field w16 = pntoh16
load_field w24 = pntoh24
load_field w32 = pntoh32
load_field w48 = pntoh48
load_field w64 = pntoh64

abbrev pub store_field : Width → List ℕ → ℕ → ℕ → Option (List ℕ)
store_field w16 = phton16
store_field w24 = phton24
store_field w32 = phton32
store_field w48 = phton48
store_field w64 = phton64

-- The write returns a buffer of the same length that reads back as `v` and differs at no other
-- byte.
pub record Writes (w : Width) (d : List ℕ) (p v : ℕ) : Type 0 where
  pub out : List ℕ
  pub returns : store_field w d p v ≡ some out
  pub same_length : length out ≡ length d
  pub read_back : load_field w out p ≡ some v
  pub kept : (i : ℕ) → (i < p) ⊎ (p + size w ≤ i) → get_elem? out i ≡ get_elem? d i

module _ (d : List ℕ) (p : ℕ) (bs : List ℕ) {d' : List ℕ} (h : store d p bs ≡ some d') where
  first : 0 < length bs → get_elem? d' p ≡ get_elem? bs 0
  first lt = let at : p + 0 ≡ p = omega arith in rw at at (get_elem?-store_inside d p bs 0 h lt)

  next : (i : ℕ) → i < length bs → get_elem? d' (p + i) ≡ get_elem? bs i
  next i = get_elem?-store_inside d p bs i h

-- A store of the bytes `bs` is a write of the field, if those bytes are read as `v`.
store-Writes :
    (w : Width) (d : List ℕ) (p v : ℕ) (bs : List ℕ)
    → store_field w d p v ≡ store d p bs
    → length bs ≡ size w
    → p + size w ≤ length d
    → ((out : List ℕ) → store d p bs ≡ some out → load_field w out p ≡ some v)
    → Writes w d p v
store-Writes w d p v bs is_store sized fits reads =
    let s = store-some d p bs (omega arith) in
    record {
      out = s.0;
      returns = is_store ∙ s.1;
      same_length = s.2;
      read_back = reads s.0 s.1;
      kept = λ i out. get_elem?-store_outside d p bs i s.1 (ground arith);
    }

module _ (d : List ℕ) (p v : ℕ) {d' : List ℕ} where
  load16 :
      v < 2 ^ 16 → store d p (u8 (v >> 8) ∷ bit_and v 0xff ∷ []) ≡ some d' → pntoh16 d' p ≡ some v
  unfolding pntoh16
  load16 range h =
      rw
        (
          first d p _ h (omega arith),
          next d p _ h 1 (omega arith),
          bit_and_low 8 v,
          or2 (u8 (v >> 8)) (v % 2 ^ 8) (omega arith),
        )
        (ap some (omega arith))

  load24 :
      v < 2 ^ 24
      → store d p (u8 (v >> 16) ∷ u8 (v >> 8) ∷ u8 v ∷ []) ≡ some d'
      → pntoh24 d' p ≡ some v
  unfolding pntoh24
  load24 range h =
      rw
        (
          first d p _ h (omega arith),
          next d p _ h 1 (omega arith),
          next d p _ h 2 (omega arith),
          or3 (u8 (v >> 16)) (u8 (v >> 8)) (u8 v) (omega arith) (omega arith),
        )
        (ap some (omega arith))

  load32 :
      v < 2 ^ 32
      → store d p (u8 (v >> 24) ∷ u8 (v >> 16) ∷ u8 (v >> 8) ∷ u8 v ∷ []) ≡ some d'
      → pntoh32 d' p ≡ some v
  unfolding pntoh32
  load32 range h =
      rw
        (
          first d p _ h (omega arith),
          next d p _ h 1 (omega arith),
          next d p _ h 2 (omega arith),
          next d p _ h 3 (omega arith),
          or4 (u8 (v >> 24)) (u8 (v >> 16)) (u8 (v >> 8)) (u8 v) (omega arith) (omega arith)
              (omega arith),
        )
        (ap some (omega arith))

  load48 :
      v < 2 ^ 48
      → store d p
          (u8 (v >> 40) ∷ u8 (v >> 32) ∷ u8 (v >> 24) ∷ u8 (v >> 16) ∷ u8 (v >> 8) ∷ u8 v ∷ [])
        ≡ some d'
      → pntoh48 d' p ≡ some v
  unfolding pntoh48
  load48 range h =
      rw
        (
          first d p _ h (omega arith),
          next d p _ h 1 (omega arith),
          next d p _ h 2 (omega arith),
          next d p _ h 3 (omega arith),
          next d p _ h 4 (omega arith),
          next d p _ h 5 (omega arith),
          or6 (u8 (v >> 40)) (u8 (v >> 32)) (u8 (v >> 24)) (u8 (v >> 16)) (u8 (v >> 8)) (u8 v)
              (omega arith) (omega arith) (omega arith) (omega arith) (omega arith),
        )
        (ap some (omega arith))

  load64 :
      v < 2 ^ 64
      → store d p (
          u8 (v >> 56)
          ∷ u8 (v >> 48)
          ∷ u8 (v >> 40)
          ∷ u8 (v >> 32)
          ∷ u8 (v >> 24)
          ∷ u8 (v >> 16)
          ∷ u8 (v >> 8)
          ∷ u8 v
          ∷ [])
        ≡ some d'
      → pntoh64 d' p ≡ some v
  unfolding pntoh64
  load64 range h =
      rw
        (
          first d p _ h (omega arith),
          next d p _ h 1 (omega arith),
          next d p _ h 2 (omega arith),
          next d p _ h 3 (omega arith),
          next d p _ h 4 (omega arith),
          next d p _ h 5 (omega arith),
          next d p _ h 6 (omega arith),
          next d p _ h 7 (omega arith),
          or8 (u8 (v >> 56)) (u8 (v >> 48)) (u8 (v >> 40)) (u8 (v >> 32)) (u8 (v >> 24))
              (u8 (v >> 16)) (u8 (v >> 8)) (u8 v) (omega arith) (omega arith) (omega arith)
              (omega arith) (omega arith) (omega arith) (omega arith),
        )
        (ap some (omega arith))

-- A write of any width at `p`, of a value that fits it and inside the buffer, is read back and
-- changes nothing else.
pub phton-Writes :
    (w : Width) (d : List ℕ) (p v : ℕ)
    → p + size w ≤ length d
    → v < 2 ^ (8 * size w)
    → Writes w d p v
unfolding phton16 phton24 phton32 phton48 phton64
phton-Writes w16 d p v fits range =
    store-Writes w16 d p v (u8 (v >> 8) ∷ bit_and v 0xff ∷ []) refl refl fits
      (λ out h. load16 d p v range h)
phton-Writes w24 d p v fits range =
    store-Writes w24 d p v (u8 (v >> 16) ∷ u8 (v >> 8) ∷ u8 v ∷ []) refl refl fits
      (λ out h. load24 d p v range h)
phton-Writes w32 d p v fits range =
    store-Writes w32 d p v (u8 (v >> 24) ∷ u8 (v >> 16) ∷ u8 (v >> 8) ∷ u8 v ∷ []) refl refl fits
      (λ out h. load32 d p v range h)
phton-Writes w48 d p v fits range =
    store-Writes w48 d p v
      (u8 (v >> 40) ∷ u8 (v >> 32) ∷ u8 (v >> 24) ∷ u8 (v >> 16) ∷ u8 (v >> 8) ∷ u8 v ∷ []) refl
      refl fits (λ out h. load48 d p v range h)
phton-Writes w64 d p v fits range =
    store-Writes w64 d p v
      (u8 (v >> 56)
        ∷ u8 (v >> 48)
        ∷ u8 (v >> 40)
        ∷ u8 (v >> 32)
        ∷ u8 (v >> 24)
        ∷ u8 (v >> 16)
        ∷ u8 (v >> 8)
        ∷ u8 v
        ∷ [])
      refl refl fits (λ out h. load64 d p v range h)
