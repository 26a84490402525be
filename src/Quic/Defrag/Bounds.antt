-- ===== src/Quic/Defrag/Bounds.antt =====
-- A CRYPTO frame is read in the clean text and written in the buffer.
use zapret.Base.{
  ℕ, zero, suc, ◌+◌, ◌-◌, ◌^◌, ◌≤◌, ◌<◌, ◌≡◌, refl, ap, ◌∙◌, List, Option, none, some, ◌||◌, ltb,
  leb, false, if◌then◌else◌, arith, get_elem?, length, length-drop, length-take, take, drop,
}
use zapret.Base.Bits.{u64}
use zapret.Memory.{Bytes, store}
use zapret.Memory.Laws.{store-some, get_elem?-lt-256}
use zapret.Memory.Safe.{
  Returns, Any, bind-Returns, branch-Returns, get_elem?-Returns, weaken-Returns,
}
use zapret.Queue.{copy_bytes}
use zapret.Queue.Order.{copy_bytes-Returns}
use zapret.Datagrams.{zeros}
use zapret.Quic.{tvb_get_varint, tvb_get_size}
use zapret.Quic.Varint.{Varint, size_of, tvb_get_varint-Varint}
use zapret.Quic.Defrag.{Pieces, max_defrag_pieces, has_range, add_piece, crypto_piece, crypto_frame}

length-zeros : (n : ℕ) → length (zeros n) ≡ n
length-zeros zero = refl
length-zeros (suc n) = omega (arith, length-zeros n)

-- The buffer keeps its size, and what was written of the data is in it.
abbrev pub Held : ℕ → Pieces → Type 0
Held data_len s = (length s.defrag ≡ data_len + 10) × (s.zeropos ≤ data_len) × (s.szmax ≤ data_len)

-- So it does, and the loop has gone on.
abbrev pub Later : ℕ → ℕ → Option Pieces → Type 0
Later data_len pos none = Unit {0}
Later data_len pos (some s) = Held data_len s × (pos ≤ s.pos)

Later-weaken :
    (data_len pos from : ℕ) (o : Option Pieces)
    → pos ≤ from
    → Later data_len from o
    → Later data_len pos o
Later-weaken data_len pos from none le h = tt
Later-weaken data_len pos from (some s) le (held, on) = (held, omega arith)

-- A write inside the buffer.
pub store-Returns :
    (b : List ℕ) (p : ℕ) (bs : List ℕ)
    → p + length bs ≤ length b
    → Returns (λ (r : List ℕ). length r ≡ length b) (store b p bs)
store-Returns b p bs h = store-some b p bs h

cleared-Returns :
    (data_len offset : ℕ) (s : Pieces)
    → Held data_len s
    → offset ≤ data_len
    → Returns
        (λ (r : List ℕ). length r ≡ data_len + 10)
        (if ltb s.zeropos offset
          then store s.defrag (10 + s.zeropos) (zeros (offset - s.zeropos))
          else some s.defrag)
cleared-Returns data_len offset s held fits =
    branch-Returns _ (ltb s.zeropos offset) _ _
      (λ gap.
        let before : s.zeropos < offset = ground arith in
        let size = length-zeros (offset - s.zeropos) in
        let r =
          store-Returns s.defrag (10 + s.zeropos) (zeros (offset - s.zeropos))
            (omega (arith, size, held.0)) in
        (r.0, r.1, r.2 ∙ held.0))
      (λ _. (s.defrag, refl, held.0))

add_piece-Returns :
    (d : List ℕ) (at offset sz data_len : ℕ) (s : Pieces)
    → Held data_len s
    → at + sz ≤ length d
    → offset + sz ≤ data_len
    → length s.ranges < 128
    → Returns (Held data_len) (add_piece d at offset sz s)
unfolding add_piece
add_piece-Returns d at offset sz data_len s held inside fits free =
    let space : leb 128 (length s.ranges) ≡ false = ground arith in
    rw space (
      bind-Returns (λ (r : List ℕ). length r ≡ data_len + 10) _ _ _
        (cleared-Returns data_len offset s held (omega arith))
        (λ cleared _ same.
          bind-Returns (λ (r : List ℕ). r ≡ take sz (drop at d)) _ (copy_bytes sz (drop at d)) _
            (copy_bytes-Returns sz (drop at d) (omega (arith, length-drop at d)))
            (λ bytes _ e.
              let size : length bytes ≤ sz =
                omega (arith, length-take sz (drop at d), ap length e) in
              bind-Returns (λ (r : List ℕ). length r ≡ length cleared) _
                (store cleared (10 + offset) bytes) _
                (store-Returns cleared (10 + offset) bytes (omega (arith, size, same)))
                (λ filled _ kept.
                  (_, refl, (kept ∙ same, omega (arith, held.1), omega (arith, held.2)))))))

module _ (d : List ℕ) (p clean_len data_len : ℕ) (bytes : Bytes d) (fits : p + clean_len ≤ length d)
    (small : clean_len < 2 ^ 62) where
  crypto_piece-Later :
      (pos offset sz : ℕ) (s : Pieces)
      → Held data_len s
      → pos ≤ clean_len
      → offset < 2 ^ 62
      → sz < 2 ^ 62
      → length s.ranges < 128
      → Returns (Later data_len pos) (crypto_piece d p clean_len data_len pos offset sz s)
  unfolding crypto_piece
  crypto_piece-Later pos offset sz s held inside small_offset small_sz free =
      branch-Returns (Later data_len pos)
        (ltb clean_len (u64 (pos + sz)) || ltb data_len (u64 (offset + sz))) _ _
        (λ _. (none, refl, tt))
        (λ whole.
          let in_text : pos + sz ≤ clean_len = ground arith in
          let in_buffer : offset + sz ≤ data_len = ground arith in
          branch-Returns (Later data_len pos) (has_range s.ranges offset sz) _ _
            (λ _. (_, refl, (held, omega arith)))
            (λ _.
              bind-Returns (Held data_len) _ (add_piece d (p + pos) offset sz s) _
                (add_piece-Returns d (p + pos) offset sz data_len s held (omega arith) in_buffer
                  free)
                (λ s' _ held'. (_, refl, (held', omega arith)))))

  pub crypto_frame-Later :
      (pos : ℕ) (s : Pieces)
      → Held data_len s
      → Returns (Later data_len pos) (crypto_frame d p clean_len data_len pos s)
  unfolding crypto_frame
  crypto_frame-Later pos s held =
      branch-Returns (Later data_len pos)
        (leb clean_len pos || leb max_defrag_pieces (length s.ranges)) _ _ (λ _. (none, refl, tt))
        (λ more.
          let inside : pos < clean_len = ground arith in
          let free : length s.ranges < 128 = ground arith in
          bind-Returns Any _ (get_elem? d (p + pos)) _ (get_elem?-Returns d (p + pos) (omega arith))
            (λ b e _.
              let size = size_of b (get_elem?-lt-256 d (p + pos) bytes e) in
              branch-Returns (Later data_len pos) (leb clean_len (u64 (pos + tvb_get_size b))) _ _
                (λ _. (none, refl, tt))
                (λ room.
                  let first : pos + tvb_get_size b < clean_len = ground arith in
                  bind-Returns (Varint b) _ (tvb_get_varint d (p + pos)) _
                    (tvb_get_varint-Varint d (p + pos) b bytes e (omega arith))
                    (λ (offset, n) _ (n_size, below, n_low, n_high).
                      let at : p + (pos + n) < length d = omega arith in
                      bind-Returns Any _ (get_elem? d (p + (pos + n))) _
                        (get_elem?-Returns d (p + (pos + n)) at)
                        (λ b2 e2 _.
                          let size2 = size_of b2 (get_elem?-lt-256 d (p + (pos + n)) bytes e2) in
                          branch-Returns (Later data_len pos)
                            (ltb clean_len (u64 (pos + n + tvb_get_size b2))) _ _
                            (λ _. (none, refl, tt))
                            (λ room2.
                              let second : pos + n + tvb_get_size b2 ≤ clean_len = ground arith in
                              bind-Returns (Varint b2) _ (tvb_get_varint d (p + (pos + n))) _
                                (tvb_get_varint-Varint d (p + (pos + n)) b2 bytes e2 (omega arith))
                                (λ (sz, n2) _ (n2_size, below2, n2_low, n2_high).
                                  weaken-Returns
                                    (λ o. Later-weaken data_len pos (pos + n + n2) o (omega arith))
                                    (crypto_piece-Later (pos + n + n2) offset sz s held
                                      (omega arith) below below2 free))))))))
