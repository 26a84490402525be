-- ===== src/Quic/Initial.antt =====
-- The header of a QUIC packet is read in the message.
use zapret.Base.{
  ℕ, ◌+◌, ◌^◌, ◌≤◌, ◌<◌, ◌≡◌, refl, List, Option, none, some, Bool, true, false, not, ◌||◌, ltb,
  leb, ◌==◌, arith, get_elem?, length, length-drop, length-take, drop, take, ap,
}
use zapret.Base.Bits.{u64}
use zapret.Memory.{Bytes}
use zapret.Memory.Safe.{
  Returns, Any, bind-Returns, branch-Returns, get_elem?-Returns, pntoh32-Returns, and-Returns,
  test-Returns, weaken-Returns, byte_is-Returns,
}
use zapret.Queue.{copy_bytes}
use zapret.Queue.Order.{copy_bytes-Returns}
use zapret.Quic.{
  tvb_get_varint, tvb_get_size, quic_draft_version, quic_is_long_header, quic_extract_version,
  quic_max_cid_length, quic_extract_dcid, initial_payload, initial_token, initial_scid,
  initial_dcid, is_quic_initial,
}
use zapret.Quic.Varint.{Varint}
use zapret.Quic.Bounds.{tvb_get_varint_at, tvb_get_size_at}

-- An id of at least one byte and at most 20.
abbrev pub CidFits : Option (List ℕ) → Type 0
CidFits none = Unit {0}
CidFits (some cid) = (1 ≤ length cid) × (length cid ≤ quic_max_cid_length)

module _ (d : List ℕ) (p len : ℕ) (bytes : Bytes d) (fits : p + len ≤ length d)
    (small : len < 2 ^ 62) where
  initial_payload-Returns :
      (offset : ℕ) → offset < len → Returns Any (initial_payload d p len offset)
  unfolding initial_payload
  initial_payload-Returns offset inside =
      bind-Returns Any Any (get_elem? d (p + offset)) _
        (get_elem?-Returns d (p + offset) (omega arith))
        (λ b e _.
          let size = tvb_get_size_at d p len bytes fits small offset b e in
          branch-Returns Any (ltb len (u64 (offset + tvb_get_size b))) _ _ (λ _. (false, refl, tt))
            (λ room.
              let more : offset + tvb_get_size b ≤ len = ground arith in
              bind-Returns (Varint b) Any (tvb_get_varint d (p + offset)) _
                (tvb_get_varint_at d p len bytes fits small offset b e more)
                (λ v _ _. (_, refl, tt))))

  initial_token-Returns : (offset : ℕ) → Returns Any (initial_token d p len offset)
  unfolding initial_token
  initial_token-Returns offset =
      branch-Returns Any (leb len offset) _ _ (λ _. (false, refl, tt))
        (λ at.
          let inside : offset < len = ground arith in
          bind-Returns Any Any (get_elem? d (p + offset)) _
            (get_elem?-Returns d (p + offset) (omega arith))
            (λ b e _.
              let size = tvb_get_size_at d p len bytes fits small offset b e in
              branch-Returns Any (ltb len (u64 (offset + tvb_get_size b))) _ _
                (λ _. (false, refl, tt))
                (λ room.
                  let more : offset + tvb_get_size b ≤ len = ground arith in
                  bind-Returns (Varint b) Any (tvb_get_varint d (p + offset)) _
                    (tvb_get_varint_at d p len bytes fits small offset b e more)
                    (λ (sz, n) _ (n_size, below, n_low, n_high).
                      branch-Returns Any (leb len (u64 (u64 (offset + n) + sz))) _ _
                        (λ _. (false, refl, tt))
                        (λ behind.
                          initial_payload-Returns (u64 (u64 (offset + n) + sz)) (ground arith))))))

  initial_scid-Returns : (offset : ℕ) → Returns Any (initial_scid d p len offset)
  unfolding initial_scid
  initial_scid-Returns offset =
      branch-Returns Any (leb len offset) _ _ (λ _. (false, refl, tt))
        (λ at.
          let inside : offset < len = ground arith in
          bind-Returns Any Any (get_elem? d (p + offset)) _
            (get_elem?-Returns d (p + offset) (omega arith))
            (λ n _ _.
              branch-Returns Any (ltb quic_max_cid_length n) _ _ (λ _. (false, refl, tt))
                (λ _. initial_token-Returns (offset + (1 + n)))))

  quic_is_long_header-Returns :
      Returns (λ (t : Bool). t ≡ true → (9 ≤ len) × Unit {0}) (quic_is_long_header d p len)
  unfolding quic_is_long_header
  quic_is_long_header-Returns =
      and-Returns (9 ≤ len) (Unit {0}) (some (leb 9 len)) _ (test-Returns _ _ (λ e. ground arith))
        (λ nine. weaken-Returns (λ t _ _. tt) (byte_is-Returns d p _ (omega arith)))

  quic_extract_version-Returns : Returns Any (quic_extract_version d p len)
  unfolding quic_extract_version
  quic_extract_version-Returns =
      bind-Returns _ Any (quic_is_long_header d p len) _ quic_is_long_header-Returns (λ long _ nine.
        branch-Returns Any long _ _
          (λ yes_long. pntoh32-Returns d (p + 1) (omega (arith, (nine yes_long).0)))
          (λ _. (0, refl, tt)))

  -- For a message of fewer than 2^62 bytes, all of which may be read, the test for an initial
  -- packet returns and reads only the message.
  pub is_quic_initial-Returns : Returns Any (is_quic_initial d p len)
  unfolding is_quic_initial initial_dcid
  is_quic_initial-Returns =
      branch-Returns Any (ltb len 128) _ _ (λ _. (false, refl, tt))
        (λ at.
          let long : 128 ≤ len = ground arith in
          bind-Returns Any Any (quic_extract_version d p len) _ quic_extract_version-Returns
            (λ ver _ _.
              branch-Returns Any (ltb (quic_draft_version ver) 11) _ _ (λ _. (false, refl, tt))
                (λ _.
                  bind-Returns Any Any (get_elem? d p) _ (get_elem?-Returns d p (omega arith))
                    (λ b _ _.
                      branch-Returns Any _ _ _ (λ _. (false, refl, tt))
                        (λ _.
                          bind-Returns Any Any (get_elem? d (p + 5)) _
                            (get_elem?-Returns d (p + 5) (omega arith))
                            (λ n _ _.
                              branch-Returns Any (ltb quic_max_cid_length n) _ _
                                (λ _. (false, refl, tt))
                                (λ _. initial_scid-Returns (5 + (1 + n)))))))))

  -- For a message of fewer than 2^62 bytes, all of which may be read, the connection id is
  -- extracted without a read outside it, and fits the 20 bytes that are kept for it.
  pub quic_extract_dcid-CidFits : Returns CidFits (quic_extract_dcid d p len)
  unfolding quic_extract_dcid
  quic_extract_dcid-CidFits =
      bind-Returns _ CidFits (quic_is_long_header d p len) _ quic_is_long_header-Returns
        (λ long _ nine.
          branch-Returns CidFits (not long) _ _ (λ _. (none, refl, tt))
            (λ is_long.
              let yes_long : long ≡ true = ground arith in
              let room : 9 ≤ len = (nine yes_long).0 in
              bind-Returns Any CidFits (get_elem? d (p + 5)) _
                (get_elem?-Returns d (p + 5) (omega arith))
                (λ n _ _.
                  branch-Returns CidFits (n == 0 || ltb quic_max_cid_length n || ltb len (6 + n)) _
                    _ (λ _. (none, refl, tt))
                    (λ good.
                      let some_byte : 0 < n = ground arith in
                      let short : n ≤ 20 = ground arith in
                      let whole : 6 + n ≤ len = ground arith in
                      let left = length-drop (p + 6) d in
                      bind-Returns (λ (r : List ℕ). r ≡ take n (drop (p + 6) d)) CidFits
                        (copy_bytes n (drop (p + 6) d)) _
                        (copy_bytes-Returns n (drop (p + 6) d) (omega (arith, left)))
                        (λ cid _ e.
                          let size = length-take n (drop (p + 6) d) in
                          let same : length cid ≡ length (take n (drop (p + 6) d)) = ap length e in
                          (
                            some cid,
                            refl,
                            (omega (arith, left, size, same), omega (arith, left, size, same)),
                          ))))))
