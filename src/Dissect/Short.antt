-- ===== src/Dissect/Short.antt =====
-- An IPv4 packet whose total length is shorter than its header: both checks of nfq2/darkmagic.c
-- accept it.
use zapret.Base.{
  ℕ, zero, suc, ◌+◌, ◌≤◌, ◌<◌, ◌≡◌, refl, List, [], ◌∷◌, none, some, Bool, true, false, ltb, leb,
  ◌&&◌, if◌then◌else◌, arith, length, get_elem?, bit_and, ◌∙◌,
}
use zapret.Base.Bits.{◌>>◌, bit_and_low}
use zapret.Memory.Safe.{Returns, bind-Returns}
use zapret.Ipv6.{Skip}
use zapret.Bytes.{pntoh16}
use zapret.Packet.{ipproto_tcp}
use zapret.Dissect.{
  Layers, ip_header_len, proto_check_ipv4, proto_check_ipv4_payload, proto_skip_ipv4,
  proto_check_tcp, after_l3, cut_to, dissect_ipv4, dissect_l4, proto_dissect_l3l4,
}

get_elem?_beyond : (d : List ℕ) (i : ℕ) → length d ≤ i → get_elem? d i ≡ none
get_elem?_beyond [] i h = refl
get_elem?_beyond (b ∷ d) zero h = absurd (omega arith)
get_elem?_beyond (b ∷ d) (suc i) h = get_elem?_beyond d i (omega arith)

module _ (d : List ℕ) (p len b n off : ℕ) (first : get_elem? d p ≡ some b) (is4 : b >> 4 ≡ 4)
    (least : 20 ≤ ip_header_len b) (whole : ip_header_len b ≤ len)
    (total : pntoh16 d (p + 2) ≡ some n) (short : n < ip_header_len b) where
  accepted : proto_check_ipv4 d p len ≡ some true
  unfolding proto_check_ipv4
  accepted =
      let long : ltb len 20 ≡ false = ground arith in
      let fits : (leb 20 (ip_header_len b) && leb (ip_header_len b) len) ≡ true = ground arith in
      rw (long, first, is4, fits) refl

  accepted_payload :
      (no_payload_check : Bool)
      → (if no_payload_check then some true else proto_check_ipv4_payload d p len) ≡ some true
  unfolding proto_check_ipv4_payload
  accepted_payload true = refl
  accepted_payload false = let fits : leb n len ≡ true = ground arith in rw (total, fits) refl

  -- What the network layer leaves: more bytes than there are addresses in half the memory.
  abbrev Overrun : Layers → Type 0
  Overrun l =
      (l.proto ≡ ipproto_tcp)
      × (l.frag ≡ false)
      × (l.data_payload ≡ p + ip_header_len b)
      × (20 ≤ l.len_payload)

  -- The step over the header.
  SkipsTo : (m proto : ℕ) → Type 0
  SkipsTo m proto =
      Returns
        (λ (s : Skip).
          (s.proto_type ≡ proto)
          × (s.frag ≡ false)
          × (s.data_at ≡ p + ip_header_len b)
          × (20 ≤ s.len))
        (proto_skip_ipv4 d p m proto)

  -- The header fills no more than 60 bytes.
  header_small : ip_header_len b ≤ 60
  unfolding ip_header_len
  header_small = omega (arith, bit_and_low 4 b)

  proto_skip_ipv4-Overrun :
      (m proto : ℕ)
      → m < ip_header_len b
      → pntoh16 d (p + 6) ≡ some off
      → bit_and off 0x3fff ≡ 0
      → SkipsTo m proto
  unfolding proto_skip_ipv4 SkipsTo
  proto_skip_ipv4-Overrun m proto less flags unbroken =
      bind-Returns (λ x. x ≡ b) _ (get_elem? d p) _ (b, first, refl)
        (λ b' _ eb.
          bind-Returns (λ x. x ≡ off) _ (pntoh16 d (p + 6)) _ (off, flags, refl)
            (λ off' _ eo. (
              _,
              refl,
              (refl, rw (eo, unbroken) refl, rw eb refl, rw eb (ground (arith, header_small))),
            )))

  dissect_ipv4-Overrun :
      get_elem? d (p + 9) ≡ some ipproto_tcp
      → pntoh16 d (p + 6) ≡ some off
      → bit_and off 0x3fff ≡ 0
      → Returns Overrun (dissect_ipv4 d p len)
  unfolding dissect_ipv4 after_l3 cut_to SkipsTo
  dissect_ipv4-Overrun tcp flags unbroken =
      bind-Returns (λ x. x ≡ ipproto_tcp) Overrun (get_elem? d (p + 9)) _ (ipproto_tcp, tcp, refl)
        (λ proto _ is_tcp.
          bind-Returns (λ x. x ≡ n) Overrun (pntoh16 d (p + 2)) _ (n, total, refl)
            (λ iplen _ same.
              bind-Returns _ Overrun (proto_skip_ipv4 d p (cut_to iplen len) proto) _
                (proto_skip_ipv4-Overrun (cut_to iplen len) proto (ground arith) flags unbroken)
                (λ s _ at. (_, refl, (at.0 ∙ is_tcp, at.1, at.2, at.3)))))

  dissect_l4_faults :
      (no_payload_check : Bool) (l : Layers)
      → length d ≤ p + ip_header_len b + 12
      → Overrun l
      → dissect_l4 no_payload_check d l ≡ none
  unfolding dissect_l4 proto_check_tcp
  dissect_l4_faults no_payload_check l ends (tcp, whole_packet, at, long) =
      let room : ltb l.len_payload 20 ≡ false = ground arith in
      let behind : get_elem? d (l.data_payload + 12) ≡ none =
        get_elem?_beyond d (l.data_payload + 12) (omega (arith, at)) in
      rw (whole_packet, tcp, room, behind) refl

  -- An IPv4 packet of TCP that is no fragment, whose header is whole and whose total length is
  -- shorter than its header, in memory that ends at most 12 bytes behind the header: both checks
  -- accept it, the length of what is left wraps around, and the dissection reads behind the memory.
  pub proto_dissect_l3l4_faults :
      (no_payload_check : Bool)
      → get_elem? d (p + 9) ≡ some ipproto_tcp
      → pntoh16 d (p + 6) ≡ some off
      → bit_and off 0x3fff ≡ 0
      → length d ≤ p + ip_header_len b + 12
      → proto_dissect_l3l4 d p len no_payload_check ≡ none
  unfolding proto_dissect_l3l4
  proto_dissect_l3l4_faults no_payload_check tcp flags unbroken ends =
      let (l, returns, over) = dissect_ipv4-Overrun tcp flags unbroken in
      rw
        (
          accepted,
          accepted_payload no_payload_check,
          returns,
          dissect_l4_faults no_payload_check l ends over,
        )
        refl
