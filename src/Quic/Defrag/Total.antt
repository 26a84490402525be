-- ===== src/Quic/Defrag/Total.antt =====
-- `QUICDefragCrypto` ends, reads only the clean text and writes only its buffer.
use zapret.Base.{
  ℕ, zero, suc, ◌+◌, ◌-◌, ◌^◌, ◌≤◌, ◌<◌, ◌≡◌, refl, List, Option, none, some, Bool, true, ltb, leb,
  ◌==◌, arith, get_elem?, length, subst,
}
use zapret.Memory.{Bytes, put, store}
use zapret.Memory.Laws.{put-some}
use zapret.Memory.Safe.{Returns, Any, bind-Returns, branch-Returns, get_elem?-Returns}
use zapret.Bytes.{phton64}
use zapret.Quic.Defrag.{
  Range64, Pieces, crypto_frame, frames_rest, frames, finish, quic_defrag_crypto,
}
use zapret.Quic.Defrag.Bounds.{Held, Later, store-Returns, crypto_frame-Later}

-- The result fits the buffer.
abbrev pub Result : ℕ → Option (ℕ × Bool × List ℕ) → Type 0
Result defrag_len none = Unit {0}
Result defrag_len (some (n, full, out)) = (10 ≤ n) × (n ≤ defrag_len) × (length out ≡ defrag_len)

module _ (d : List ℕ) (p clean_len data_len : ℕ) (bytes : Bytes d) (fits : p + clean_len ≤ length d)
    (small : clean_len < 2 ^ 62) where
  -- What the loop leaves.
  HeldIf : Option Pieces → Type 0
  HeldIf none = Unit {0}
  HeldIf (some s) = Held data_len s

  frames_rest-Returns :
      (again : Pieces → Option (Option Pieces)) (pos : ℕ) (r : Option Pieces)
      → ((s : Pieces) → Held data_len s → pos ≤ s.pos → Returns HeldIf (again s))
      → Later data_len pos r
      → Returns HeldIf (frames_rest again r)
  unfolding frames_rest HeldIf
  frames_rest-Returns again pos none go later = (none, refl, tt)
  frames_rest-Returns again pos (some s) go (held, on) = go s held on

  frames-Returns :
      (fuel : ℕ) (s : Pieces)
      → Held data_len s
      → clean_len ≤ s.pos + fuel
      → Returns HeldIf (frames fuel d p clean_len data_len s)
  unfolding frames HeldIf
  frames-Returns zero s held enough =
      let over : leb clean_len s.pos ≡ true = ground arith in (some s, rw over refl, held)
  frames-Returns (suc fuel) s held enough =
      branch-Returns HeldIf (leb clean_len s.pos) _ _ (λ _. (some s, refl, held))
        (λ more.
          let inside : s.pos < clean_len = ground arith in
          bind-Returns Any _ (get_elem? d (p + s.pos)) _
            (get_elem?-Returns d (p + s.pos) (omega arith))
            (λ ft _ _.
              branch-Returns HeldIf (leb ft 1) _ _
                (λ _. frames-Returns fuel (record s { pos = s.pos + 1 }) held (omega arith))
                (λ _.
                  branch-Returns HeldIf (ft == 6) _ _
                    (λ _.
                      bind-Returns (Later data_len (s.pos + 1)) _
                        (crypto_frame d p clean_len data_len (s.pos + 1) s) _
                        (crypto_frame-Later d p clean_len data_len bytes fits small (s.pos + 1) s
                          held)
                        (λ r _ later.
                          frames_rest-Returns (frames fuel d p clean_len data_len) (s.pos + 1) r
                            (λ s' held' on. frames-Returns fuel s' held' (omega arith)) later))
                    (λ _. (none, refl, tt)))))

  finish-Returns :
      (qsort : List Range64 → List Range64) (o : Option Pieces)
      → HeldIf o
      → Returns (Result (data_len + 10)) (finish qsort o)
  unfolding finish phton64 HeldIf
  finish-Returns qsort none held = (none, refl, tt)
  finish-Returns qsort (some s) (size, cleared, top) =
      branch-Returns (Result (data_len + 10)) s.found _ _
        (λ _.
          bind-Returns (λ (r : List ℕ). length r ≡ length s.defrag) _ (put s.defrag 0 6) _
            (put-some s.defrag 0 6 (omega (arith, size)))
            (λ d0 _ e0.
              bind-Returns (λ (r : List ℕ). length r ≡ length d0) _ (put d0 1 0) _
                (put-some d0 1 0 (omega (arith, size, e0)))
                (λ d1 _ e1.
                  bind-Returns (λ (r : List ℕ). length r ≡ length d1) _ (store d1 2 _) _
                    (store-Returns d1 2 _ (omega (arith, size, e0, e1)))
                    (λ d2 _ e2.
                      bind-Returns Any _ (get_elem? d2 2) _
                        (get_elem?-Returns d2 2 (omega (arith, size, e0, e1, e2)))
                        (λ high _ _.
                          bind-Returns (λ (r : List ℕ). length r ≡ length d2) _ (put d2 2 _) _
                            (put-some d2 2 _ (omega (arith, size, e0, e1, e2)))
                            (λ d3 _ e3. (
                              _,
                              refl,
                              (omega arith, omega arith, omega (arith, size, e0, e1, e2, e3)),
                            )))))))
        (λ _. (none, refl, tt))

-- For a clean text of fewer than 2^62 bytes that may be read, and a buffer of `defrag_len` bytes:
-- the frames are put together in a bounded number of rounds, only the text is read, only the buffer
-- and the array of 128 ranges are written, and a result has at least its header of 10 bytes and fits the buffer.
pub quic_defrag_crypto-Returns :
    (qsort : List Range64 → List Range64) (d : List ℕ) (p clean_len : ℕ) (defrag : List ℕ)
    → Bytes d
    → p + clean_len ≤ length d
    → clean_len < 2 ^ 62
    → Returns
        (Result (length defrag))
        (quic_defrag_crypto qsort d p clean_len defrag (length defrag))
unfolding quic_defrag_crypto
quic_defrag_crypto-Returns qsort d p clean_len defrag bytes fits small =
    branch-Returns (Result (length defrag)) (ltb (length defrag) 10) _ _ (λ _. (none, refl, tt))
      (λ room.
        let ten : 10 ≤ length defrag = ground arith in
        let whole : length defrag - 10 + 10 ≡ length defrag = omega arith in
        bind-Returns (HeldIf d p clean_len (length defrag - 10) bytes fits small) _
          (frames clean_len d p clean_len (length defrag - 10) _) _
          (frames-Returns d p clean_len (length defrag - 10) bytes fits small clean_len _
            (omega arith, omega arith, omega arith) (omega arith))
          (λ o _ held.
            subst (λ (n : ℕ). Returns (Result n) (finish qsort o)) whole
              (finish-Returns d p clean_len (length defrag - 10) bytes fits small qsort o held)))
