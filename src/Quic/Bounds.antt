-- ===== src/Quic/Bounds.antt =====
-- A client hello in a QUIC frame lies in the message.
use zapret.Base.{
  ℕ, ◌+◌, ◌^◌, ◌≤◌, ◌<◌, ◌≡◌, refl, List, Option, none, some, Bool, true, false, not, ltb, leb,
  ◌==◌, if◌then◌else◌, arith, get_elem?, length,
}
use zapret.Base.Bits.{u64}
use zapret.Memory.{Bytes}
use zapret.Memory.Laws.{get_elem?-lt-256}
use zapret.Memory.Safe.{Returns, Any, bind-Returns, branch-Returns, get_elem?-Returns}
use zapret.Tls.{is_handshake_hello}
use zapret.Tls.Hello.{is_handshake_hello-Returns}
use zapret.Quic.{tvb_get_varint, tvb_get_size, crypto_data, is_quic_crypto_hello}
use zapret.Quic.Varint.{Varint, size_of, tvb_get_varint-Varint}

-- The hello that was found is in the message, behind the frame's type and two integers, and long
-- enough for its type and version.
abbrev pub HelloIn : ℕ → Option (ℕ × ℕ) → Type 0
HelloIn len none = Unit {0}
HelloIn len (some (from, n)) = (3 ≤ from) × (from + n ≤ len) × (6 ≤ n)

if-HelloIn :
    (hello : Bool) (len from n : ℕ)
    → 3 ≤ from
    → from + n ≤ len
    → (hello ≡ true → 6 ≤ n)
    → HelloIn len (if hello then some (from, n) else none)
if-HelloIn true len from n low high long = (low, high, long refl)
if-HelloIn false len from n low high long = tt

module _ (d : List ℕ) (p len : ℕ) (bytes : Bytes d) (fits : p + len ≤ length d)
    (small : len < 2 ^ 62) where
  -- An integer of which the announced bytes are in the message.
  pub tvb_get_varint_at :
      (offset b : ℕ)
      → get_elem? d (p + offset) ≡ some b
      → offset + tvb_get_size b ≤ len
      → Returns (Varint b) (tvb_get_varint d (p + offset))
  tvb_get_varint_at offset b e room = tvb_get_varint-Varint d (p + offset) b bytes e (omega arith)

  pub tvb_get_size_at :
      (offset b : ℕ)
      → get_elem? d (p + offset) ≡ some b
      → (1 ≤ tvb_get_size b) × (tvb_get_size b ≤ 8)
  tvb_get_size_at offset b e = size_of b (get_elem?-lt-256 d (p + offset) bytes e)

  crypto_data-HelloIn :
      (offset : ℕ) → 2 ≤ offset → offset < len → Returns (HelloIn len) (crypto_data d p len offset)
  unfolding crypto_data
  crypto_data-HelloIn offset low inside =
      bind-Returns Any _ (get_elem? d (p + offset)) _
        (get_elem?-Returns d (p + offset) (omega arith))
        (λ b e _.
          let size = tvb_get_size_at offset b e in
          branch-Returns (HelloIn len) (leb len (u64 (offset + tvb_get_size b))) _ _
            (λ _. (none, refl, tt))
            (λ room.
              let more : offset + tvb_get_size b < len = ground arith in
              bind-Returns (Varint b) _ (tvb_get_varint d (p + offset)) _
                (tvb_get_varint_at offset b e (omega arith))
                (λ (clen, n) _ (n_size, below, n_low, n_high).
                  let from : u64 (offset + n) ≡ offset + n = omega arith in
                  branch-Returns (HelloIn len) (ltb len (u64 (u64 (offset + n) + clen))) _ _
                    (λ _. (none, refl, tt))
                    (λ whole.
                      let in_len : offset + n + clen ≤ len = ground (arith, from) in
                      bind-Returns (λ (t : Bool). t ≡ true → 6 ≤ clen) _
                        (is_handshake_hello d (p + u64 (offset + n)) clen 1 true) _
                        (is_handshake_hello-Returns d (p + u64 (offset + n)) clen 1 true
                          (omega (arith, from)))
                        (λ hello _ long. (
                          _,
                          refl,
                          if-HelloIn hello len (u64 (offset + n)) clen (omega (arith, from))
                              (omega (arith, from, in_len)) long,
                        ))))))

  -- For a message of fewer than 2^62 bytes, all of which may be read, the search for a client hello
  -- in its first frame returns, reads only the message, and a hello that it finds lies inside the
  -- message and has at least six bytes.
  pub is_quic_crypto_hello-HelloIn : Returns (HelloIn len) (is_quic_crypto_hello d p len)
  unfolding is_quic_crypto_hello
  is_quic_crypto_hello-HelloIn =
      branch-Returns (HelloIn len) (ltb len 3) _ _ (λ _. (none, refl, tt))
        (λ three.
          let long : 3 ≤ len = ground arith in
          bind-Returns Any _ (get_elem? d p) _ (get_elem?-Returns d p (omega arith)) (λ ft _ _.
            branch-Returns (HelloIn len) (not (ft == 6)) _ _ (λ _. (none, refl, tt))
              (λ _.
                bind-Returns Any _ (get_elem? d (p + 1)) _
                  (get_elem?-Returns d (p + 1) (omega arith))
                  (λ b e _.
                    branch-Returns (HelloIn len) (leb len (1 + tvb_get_size b)) _ _
                      (λ _. (none, refl, tt))
                      (λ room.
                        let more : 1 + tvb_get_size b < len = ground arith in
                        bind-Returns (Varint b) _ (tvb_get_varint d (p + 1)) _
                          (tvb_get_varint_at 1 b e (omega arith))
                          (λ (coff, n) _ (n_size, below, n_low, n_high).
                            branch-Returns (HelloIn len) (not (coff == 0)) _ _
                              (λ _. (none, refl, tt))
                              (λ _. crypto_data-HelloIn (1 + n) (omega arith) (omega arith))))))))
