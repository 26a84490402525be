-- ===== src/Dissect/Bounds.antt =====
-- The headers that `proto_dissect_l3l4` finds lie in the packet.
use zapret.Base.{
  ℕ, ◌+◌, ◌-◌, ◌*◌, ◌/◌, ◌%◌, ◌≤◌, ◌<◌, ◌≡◌, refl, ◌⊎◌, inl, inr, List, Option, none, some, Bool,
  true, false, not, ltb, ◌==◌, arith, length, get_elem?,
}
use zapret.Base.Bits.{◌>>◌, u16, bit_and_low}
use zapret.Memory.Safe.{
  Returns, Any, bind-Returns, branch-Returns, get_elem?-Returns, pntoh16-Returns,
}
use zapret.Bytes.{pntoh16}
use zapret.Ipv6.{Skip, proto_skip_ipv6}
use zapret.Ipv6.Bounds.{Stays, proto_skip_ipv6-Returns}
use zapret.Dissect.{
  Layers, ip_header_len, tcp_header_len, proto_check_ipv4, proto_skip_ipv4, proto_check_tcp,
  no_layers, after_l3, cut_to, dissect_ipv4, dissect_ipv6,
}

-- The network header at the start of the packet and its length: what the first byte of IPv4 says,
-- in words of four bytes and at least 20 bytes, and at least 40 bytes of IPv6.
abbrev pub NetworkAt : List ℕ → ℕ → ℕ → Option ℕ → Option ℕ → Type 0
NetworkAt d p n none none = n ≡ 0
NetworkAt d p n (some q) none =
    (q ≡ p) × (20 ≤ n) × (b : ℕ) × (get_elem? d p ≡ some b) × (n ≡ 4 * (b % 16))
NetworkAt d p n none (some q) = (q ≡ p) × (40 ≤ n)
NetworkAt d p n (some q) (some q6) = ⊥

-- The transport header at `at` and its length: what the thirteenth byte of TCP says, in words of
-- four bytes and at least 20 bytes, and 8 bytes of UDP and ICMP. There is one at most.
abbrev pub TransportAt : List ℕ → ℕ → ℕ → Option ℕ → Option ℕ → Option ℕ → Type 0
TransportAt d at n none none none = n ≡ 0
TransportAt d at n (some q) none none =
    (q ≡ at) × (20 ≤ n) × (b : ℕ) × (get_elem? d (at + 12) ≡ some b) × (n ≡ 4 * (b / 16))
TransportAt d at n none (some q) none = (q ≡ at) × (n ≡ 8)
TransportAt d at n none none (some q) = (q ≡ at) × (n ≡ 8)
TransportAt d at n tcp udp icmp = ⊥

-- The layers follow each other in the first `len` bytes of the packet at `p`.
abbrev pub Nested : List ℕ → ℕ → ℕ → Layers → Type 0
Nested d p len l =
    (l.data_pkt ≡ p)
    × (l.len_pkt ≤ len)
    × (l.len_l3 + l.transport_len ≤ l.len_pkt)
    × (l.len_l4 + l.len_payload ≡ l.transport_len)
    × NetworkAt d p l.len_l3 l.ip l.ip6
    × TransportAt d (p + l.len_l3) l.len_l4 l.tcp l.udp l.icmp

-- The payload is behind the headers, or nothing was recognized and it is empty.
abbrev pub PayloadAt : Layers → Type 0
PayloadAt l =
    (l.data_payload ≡ l.data_pkt + l.len_l3 + l.len_l4)
    ⊎ ((l.data_payload ≡ 0) × (l.len_payload ≡ 0) × (l.ip ≡ none) × (l.ip6 ≡ none))

abbrev pub Inside : List ℕ → ℕ → ℕ → Layers → Type 0
Inside d p len l = Nested d p len l × PayloadAt l

-- After the network layer.
abbrev pub L3 : List ℕ → ℕ → ℕ → Layers → Type 0
L3 d p len l =
    (l.data_pkt ≡ p)
    × (l.len_pkt ≤ len)
    × (l.len_l3 + l.transport_len ≤ l.len_pkt)
    × (l.len_payload ≡ l.transport_len)
    × (l.data_payload ≡ l.data_pkt + l.len_l3)
    × (l.len_l4 ≡ 0)
    × (l.tcp ≡ none)
    × (l.udp ≡ none)
    × (l.icmp ≡ none)
    × NetworkAt d p l.len_l3 l.ip l.ip6

no-TransportAt :
    (d : List ℕ) (at n : ℕ) (tcp udp icmp : Option ℕ)
    → n ≡ 0
    → tcp ≡ none
    → udp ≡ none
    → icmp ≡ none
    → TransportAt d at n tcp udp icmp
no-TransportAt d at n tcp udp icmp clean no_tcp no_udp no_icmp = rw (no_tcp, no_udp, no_icmp) clean

pub L3-Inside : (d : List ℕ) (p len : ℕ) (l : Layers) → L3 d p len l → Inside d p len l
L3-Inside d p len l (base, cut, fits, rest, at, no_l4, no_tcp, no_udp, no_icmp, net) = (
  (
    base,
    cut,
    fits,
    omega arith,
    net,
    no-TransportAt d _ _ l.tcp l.udp l.icmp no_l4 no_tcp no_udp no_icmp,
  ),
  inl (omega arith),
)

pub no_layers-Inside : (d : List ℕ) (p len : ℕ) → Inside d p len (no_layers p len)
unfolding no_layers
no_layers-Inside d p len =
    ((refl, omega arith, omega arith, refl, refl, refl), inr (refl, refl, refl, refl))

pub proto_check_ipv4-Returns :
    (d : List ℕ) (p len : ℕ)
    → p + len ≤ length d
    → Returns
        (λ (t : Bool).
          t ≡ true
          → (b : ℕ) × (get_elem? d p ≡ some b)
            × (b >> 4 ≡ 4)
            × (20 ≤ ip_header_len b)
            × (ip_header_len b ≤ len))
        (proto_check_ipv4 d p len)
unfolding proto_check_ipv4
proto_check_ipv4-Returns d p len fits =
    branch-Returns _ (ltb len 20) _ _ (λ _. (false, refl, λ h. absurd (cc)))
      (λ long. bind-Returns Any _ (get_elem? d p) _ (get_elem?-Returns d p (ground arith)) (λ b e _.
        branch-Returns _ (not (b >> 4 == 4)) _ _ (λ _. (false, refl, λ h. absurd (cc)))
          (λ is4. (_, refl, λ h. (b, e, ground arith, ground arith, ground arith)))))

pub proto_check_tcp-Returns :
    (d : List ℕ) (p len : ℕ)
    → p + len ≤ length d
    → Returns
        (λ (t : Bool).
          t ≡ true
          → (b : ℕ) × (get_elem? d (p + 12) ≡ some b)
            × (20 ≤ tcp_header_len b)
            × (tcp_header_len b ≤ len))
        (proto_check_tcp d p len)
unfolding proto_check_tcp
proto_check_tcp-Returns d p len fits =
    branch-Returns _ (ltb len 20) _ _ (λ _. (false, refl, λ h. absurd (cc)))
      (λ long.
        bind-Returns Any _ (get_elem? d (p + 12)) _ (get_elem?-Returns d (p + 12) (ground arith))
          (λ b e _. (_, refl, λ h. (b, e, ground arith, ground arith))))

proto_skip_ipv4-Returns :
    (d : List ℕ) (p len proto b : ℕ)
    → p + 7 < length d
    → get_elem? d p ≡ some b
    → ip_header_len b ≤ len
    → Returns
        (λ (s : Skip). (s.data_at ≡ p + ip_header_len b) × (s.len ≡ len - ip_header_len b))
        (proto_skip_ipv4 d p len proto)
unfolding proto_skip_ipv4
proto_skip_ipv4-Returns d p len proto b room e whole =
    bind-Returns Any _ (get_elem? d p) _ (get_elem?-Returns d p (omega arith)) (λ b' e' _.
      let same : b' ≡ b = cc in
      bind-Returns Any _ (pntoh16 d (p + 6)) _ (pntoh16-Returns d (p + 6) (omega arith))
        (λ off _ _. (_, refl, (rw same refl, rw same (ground arith)))))

-- The state after the network layer.
after_l3-L3 :
    (d : List ℕ) (l : Layers) (s : Skip) (p len : ℕ)
    → l.data_pkt ≡ p
    → l.len_pkt ≤ len
    → p ≤ s.data_at
    → s.data_at + s.len ≤ p + l.len_pkt
    → l.len_l4 ≡ 0
    → (l.tcp ≡ none) × (l.udp ≡ none) × (l.icmp ≡ none)
    → NetworkAt d p (s.data_at - l.data_pkt) l.ip l.ip6
    → L3 d p len (after_l3 l s)
unfolding after_l3
after_l3-L3 d l s p len base cut from fits no_l4 (no_tcp, no_udp, no_icmp) net =
    (base, cut, omega arith, refl, omega arith, no_l4, no_tcp, no_udp, no_icmp, net)

-- The header length field of IPv4, in words of four bytes.
ip_header_len_words : (b : ℕ) → ip_header_len b ≡ 4 * (b % 16)
unfolding ip_header_len
ip_header_len_words b = omega (arith, bit_and_low 4 b)

cut_to-least : (iplen len : ℕ) → (cut_to iplen len ≤ len) × (cut_to iplen len ≤ iplen)
unfolding cut_to
cut_to-least iplen len = (ground arith, ground arith)

cut_to-greatest : (n iplen len : ℕ) → n ≤ iplen → n ≤ len → n ≤ cut_to iplen len
unfolding cut_to
cut_to-greatest n iplen len a b = ground arith

pub dissect_ipv4-Returns :
    (d : List ℕ) (p len b : ℕ)
    → p + len ≤ length d
    → get_elem? d p ≡ some b
    → 20 ≤ ip_header_len b
    → ip_header_len b ≤ len
    → ((n : ℕ) → pntoh16 d (p + 2) ≡ some n → ip_header_len b ≤ n)
    → Returns (L3 d p len) (dissect_ipv4 d p len)
unfolding dissect_ipv4 no_layers
dissect_ipv4-Returns d p len b fits e least whole total =
    bind-Returns Any _ (get_elem? d (p + 9)) _ (get_elem?-Returns d (p + 9) (omega arith))
      (λ proto _ _.
        bind-Returns Any _ (pntoh16 d (p + 2)) _ (pntoh16-Returns d (p + 2) (omega arith))
          (λ iplen en _.
            let in_cut = cut_to-greatest (ip_header_len b) iplen len (total iplen en) whole in
            let small = cut_to-least iplen len in
            bind-Returns _ _ (proto_skip_ipv4 d p (cut_to iplen len) proto) _
              (proto_skip_ipv4-Returns d p (cut_to iplen len) proto b (omega arith) e in_cut)
              (λ s _ at. (
                _,
                refl,
                after_l3-L3 d _ s p len refl small.0 (omega (arith, at.0))
                    (omega (arith, at.0, at.1)) refl (refl, refl, refl)
                    (refl, omega (arith, at.0), b, e, omega (arith, at.0, ip_header_len_words b)),
              ))))

pub dissect_ipv6-Returns :
    (d : List ℕ) (p len : ℕ)
    → p + len ≤ length d
    → 40 ≤ len
    → ((n : ℕ) → pntoh16 d (p + 4) ≡ some n → n + 40 < 65536)
    → Returns (L3 d p len) (dissect_ipv6 d p len)
unfolding dissect_ipv6 no_layers Stays
dissect_ipv6-Returns d p len fits base no_wrap =
    bind-Returns Any _ (pntoh16 d (p + 4)) _ (pntoh16-Returns d (p + 4) (omega arith)) (λ plen en _.
      let short : plen + 40 < 65536 = no_wrap plen en in
      let in_cut : 40 ≤ cut_to (u16 (plen + 40)) len =
        cut_to-greatest 40 (u16 (plen + 40)) len (omega arith) base in
      let small = cut_to-least (u16 (plen + 40)) len in
      bind-Returns _ _ (proto_skip_ipv6 d p (cut_to (u16 (plen + 40)) len)) _
        (proto_skip_ipv6-Returns d p (cut_to (u16 (plen + 40)) len) in_cut (omega (arith, small.0)))
        (λ s _ st. (
          _,
          refl,
          after_l3-L3 d _ s p len refl small.0 (omega (arith, st.0)) st.1 refl (refl, refl, refl)
              (refl, omega (arith, st.0)),
        )))
