-- ===== src/Dissect/Transport.antt =====
-- The headers that `proto_dissect_l3l4` finds in the transport layer lie in the packet.
use zapret.Base.{
  bit_and, subst, ◌*◌, ◌/◌, ℕ, ◌+◌, ◌-◌, ◌≤◌, ◌<◌, ◌≡◌, refl, inl, inr, List, Option, some, Bool,
  true, false, ◌&&◌, ◌||◌, ltb, leb, ◌==◌, if◌then◌else◌, arith, length, get_elem?, Bool-cases,
}
use zapret.Base.Bits.{◌>>◌}
use zapret.Memory.{◌>>=◌, ◌&&?◌, minus64}
use zapret.Memory.Safe.{
  Returns, Any, bind-Returns, branch-Returns, get_elem?-Returns, pntoh16-Returns, and-Returns,
  test-Returns,
}
use zapret.Bytes.{pntoh16}
use zapret.Packet.{ipproto_tcp, ipproto_udp}
use zapret.Dissect.{
  Layers, ip_header_len, tcp_header_len, proto_check_ipv4_payload, proto_check_tcp, proto_skip_tcp,
  proto_check_udp, proto_check_udp_payload, proto_skip_udp, proto_check_icmp, proto_skip_icmp,
  proto_check_ipv6, proto_check_ipv6_payload, no_layers, dissect_ipv4, dissect_ipv6, after_l4,
  dissect_icmp, dissect_udp, dissect_l4, proto_dissect_l3l4, ipproto_icmp, ipproto_icmpv6,
}
use zapret.Dissect.Bounds.{
  Inside, TransportAt, L3, L3-Inside, no_layers-Inside, proto_check_ipv4-Returns,
  proto_check_tcp-Returns, dissect_ipv4-Returns, dissect_ipv6-Returns,
}

with_l4 : Layers → ℕ → Option ℕ → Option ℕ → Option ℕ → Layers
with_l4 l n tcp udp icmp =
    after_l4 (record l { tcp = tcp; udp = udp; icmp = icmp })
      (l.data_payload + n, l.len_payload - n)

-- A transport header that takes `n` bytes where the network layer ends.
with_l4-Inside :
    (d : List ℕ) (l : Layers) (p len n : ℕ) (tcp udp icmp : Option ℕ)
    → L3 d p len l
    → n ≤ l.len_payload
    → TransportAt d l.data_payload n tcp udp icmp
    → Inside d p len (with_l4 l n tcp udp icmp)
unfolding after_l4 with_l4
with_l4-Inside d l p len n tcp udp icmp h whole header =
    let (base, cut, fits, rest, at, no_l4, no_tcp, no_udp, no_icmp, net) = h in
    let place : l.data_payload ≡ p + l.len_l3 = omega arith in
    let size : n ≡ l.data_payload + n - l.data_payload = omega arith in
    let header' =
      subst (λ a. TransportAt d a (l.data_payload + n - l.data_payload) tcp udp icmp) place
        (subst (λ m. TransportAt d l.data_payload m tcp udp icmp) size header) in
    ((base, cut, fits, omega arith, net, header'), inl (omega arith))

minus64_le : (a b : ℕ) → b ≤ a → minus64 a b ≡ a - b
minus64_le a b h = ground arith

-- The payload of the network layer is in the packet.
L3-room :
    (d : List ℕ) (l : Layers) (p len : ℕ)
    → p + len ≤ length d
    → L3 d p len l
    → l.data_payload + l.len_payload ≤ length d
L3-room d l p len fits (base, cut, inside, rest, at, no_l4, no_tcp, no_udp, no_icmp, net) =
    omega arith

dissect_icmp-Inside :
    (d : List ℕ) (l : Layers) (p len : ℕ) → L3 d p len l → Inside d p len (dissect_icmp l)
unfolding dissect_icmp proto_check_icmp proto_skip_icmp with_l4
dissect_icmp-Inside d l p len h =
    elim (Bool-cases
      ((l.proto == ipproto_icmp || (l.proto == ipproto_icmpv6)) && leb 8 l.len_payload)) [
        | inl yes_icmp ↦
            let whole : 8 ≤ l.len_payload = ground arith in
            let at =
              with_l4-Inside d l p len 8 l.tcp l.udp (some l.data_payload) h whole
                (rw (h.6, h.7) (refl, refl)) in
            rw (yes_icmp, minus64_le l.len_payload 8 whole) at
        | inr no_icmp ↦ rw no_icmp (L3-Inside d p len l h)
      ]

dissect_udp-Returns :
    (no_payload_check : Bool) (d : List ℕ) (l : Layers) (p len : ℕ)
    → p + len ≤ length d
    → L3 d p len l
    → Returns (Inside d p len) (dissect_udp no_payload_check d l)
unfolding dissect_udp proto_skip_udp with_l4 proto_check_udp proto_check_udp_payload
dissect_udp-Returns no_payload_check d l p len fits h =
    bind-Returns (λ (t : Bool). t ≡ true → (8 ≤ l.len_payload) × Unit {0}) _
      (some (l.proto == ipproto_udp && leb 8 l.len_payload) &&? _) _
      (and-Returns (8 ≤ l.len_payload) (Unit {0})
        (some (l.proto == ipproto_udp && leb 8 l.len_payload)) _
        (test-Returns _ _ (λ e. ground arith))
        (λ whole.
          branch-Returns _ no_payload_check _ _ (λ _. (true, refl, λ _. tt))
            (λ _.
              bind-Returns Any _ (pntoh16 d (l.data_payload + 4)) _
                (pntoh16-Returns d (l.data_payload + 4) (omega (arith, L3-room d l p len fits h)))
                (λ n _ _. (_, refl, λ _. tt)))))
      (λ t _ yes_udp.
        branch-Returns (Inside d p len) t _ _
          (λ is_udp.
            let whole = (yes_udp is_udp).0 in
            let at =
              with_l4-Inside d l p len 8 l.tcp (some l.data_payload) l.icmp h whole
                (rw (h.6, h.8) (refl, refl)) in
            (_, refl, rw (minus64_le l.len_payload 8 whole) at))
          (λ _. (_, refl, dissect_icmp-Inside d l p len h)))

abbrev HasTcp : List ℕ → Layers → Type 0
HasTcp d l =
    (b : ℕ) × (get_elem? d (l.data_payload + 12) ≡ some b)
    × (20 ≤ tcp_header_len b)
    × (tcp_header_len b ≤ l.len_payload)

abbrev HasIp : List ℕ → ℕ → ℕ → Type 0
HasIp d p len =
    (b : ℕ) × (get_elem? d p ≡ some b)
    × (b >> 4 ≡ 4)
    × (20 ≤ ip_header_len b)
    × (ip_header_len b ≤ len)

proto_skip_tcp-Returns :
    (d : List ℕ) (p len b : ℕ)
    → get_elem? d (p + 12) ≡ some b
    → tcp_header_len b ≤ len
    → Returns
        (λ (r : ℕ × ℕ). ◌≡◌ {A = ℕ × ℕ} r (p + tcp_header_len b, len - tcp_header_len b))
        (proto_skip_tcp d p len)
unfolding proto_skip_tcp
proto_skip_tcp-Returns d p len b e whole = (
  (p + tcp_header_len b, len - tcp_header_len b),
  rw (e, minus64_le len (tcp_header_len b) whole) refl,
  refl,
)

-- The header length field of TCP, in words of four bytes.
tcp_header_len_words : (b : ℕ) → tcp_header_len b ≡ 4 * (b / 16)
unfolding tcp_header_len
tcp_header_len_words b = omega arith

dissect_l4-Returns :
    (no_payload_check : Bool) (d : List ℕ) (l : Layers) (p len : ℕ)
    → p + len ≤ length d
    → L3 d p len l
    → Returns (Inside d p len) (dissect_l4 no_payload_check d l)
unfolding dissect_l4 with_l4
dissect_l4-Returns no_payload_check d l p len fits h =
    branch-Returns (Inside d p len) l.frag _ _ (λ _. (l, refl, L3-Inside d p len l h))
      (λ _.
        bind-Returns (λ (t : Bool). t ≡ true → (l.proto ≡ ipproto_tcp) × HasTcp d l) _
          (some (l.proto == ipproto_tcp) &&? proto_check_tcp d l.data_payload l.len_payload) _
          (and-Returns (l.proto ≡ ipproto_tcp) (HasTcp d l) _ _
            (test-Returns _ _ (λ e. ground arith))
            (λ _.
              proto_check_tcp-Returns d l.data_payload l.len_payload (L3-room d l p len fits h)))
          (λ t _ yes_tcp.
            branch-Returns (Inside d p len) t _ _
              (λ is_tcp.
                let (b, e, least, whole) = (yes_tcp is_tcp).1 in
                let at =
                  with_l4-Inside d l p len (tcp_header_len b) (some l.data_payload) l.udp l.icmp h
                    whole (rw (h.7, h.8) (refl, least, b, e, tcp_header_len_words b)) in
                bind-Returns
                  (λ (r : ℕ × ℕ).
                    ◌≡◌ {A = ℕ × ℕ} r
                      (l.data_payload + tcp_header_len b, l.len_payload - tcp_header_len b))
                  _ (proto_skip_tcp d l.data_payload l.len_payload) _
                  (proto_skip_tcp-Returns d l.data_payload l.len_payload b e whole)
                  (λ r _ e'. (_, refl, rw e' at)))
              (λ _. dissect_udp-Returns no_payload_check d l p len fits h)))

abbrev HasIp6 : List ℕ → ℕ → ℕ → Type 0
HasIp6 d p len = (b : ℕ) × (get_elem? d p ≡ some b) × (bit_and b 0xf0 ≡ 0x60) × (40 ≤ len)

proto_check_ipv6-Returns :
    (d : List ℕ) (p len : ℕ)
    → p + len ≤ length d
    → Returns (λ (t : Bool). t ≡ true → HasIp6 d p len) (proto_check_ipv6 d p len)
unfolding proto_check_ipv6
proto_check_ipv6-Returns d p len fits =
    branch-Returns _ (ltb len 40) _ _ (λ _. (false, refl, λ h. absurd (cc)))
      (λ long.
        bind-Returns Any _ (get_elem? d p) _ (get_elem?-Returns d p (ground arith))
          (λ b e _. (_, refl, λ h. (b, e, ground arith, ground arith))))

-- The check of the payload reads the length field only.
payload_check-Returns :
    (no_payload_check : Bool) (o : Option Bool)
    → Returns Any o
    → Returns (λ (t : Bool). t ≡ true → Unit {0}) (if no_payload_check then some true else o)
payload_check-Returns true o r = (true, refl, λ _. tt)
payload_check-Returns false o r = (r.0, r.1, λ _. tt)

proto_check_ipv4_payload-Returns :
    (d : List ℕ) (p len : ℕ) → p + 3 < length d → Returns Any (proto_check_ipv4_payload d p len)
unfolding proto_check_ipv4_payload
proto_check_ipv4_payload-Returns d p len h =
    bind-Returns Any Any (pntoh16 d (p + 2)) _ (pntoh16-Returns d (p + 2) (omega arith))
      (λ n _ _. (_, refl, tt))

proto_check_ipv6_payload-Returns :
    (d : List ℕ) (p len : ℕ) → p + 5 < length d → Returns Any (proto_check_ipv6_payload d p len)
unfolding proto_check_ipv6_payload
proto_check_ipv6_payload-Returns d p len h =
    bind-Returns Any Any (pntoh16 d (p + 4)) _ (pntoh16-Returns d (p + 4) (omega arith))
      (λ n _ _. (_, refl, tt))

dissect_v6-Returns :
    (d : List ℕ) (p len : ℕ) (no_payload_check : Bool)
    → p + len ≤ length d
    → ((b n : ℕ)
        → get_elem? d p ≡ some b
        → bit_and b 0xf0 ≡ 0x60
        → pntoh16 d (p + 4) ≡ some n
        → n + 40 < 65536)
    → Returns (Inside d p len) (do
      is_ip6 ←
          proto_check_ipv6 d p len
          &&? (if no_payload_check then some true else proto_check_ipv6_payload d p len)
      if is_ip6
          then (do l ← dissect_ipv6 d p len; dissect_l4 no_payload_check d l)
          else some (no_layers p len))
dissect_v6-Returns d p len no_payload_check fits no_wrap =
    bind-Returns (λ (t : Bool). t ≡ true → HasIp6 d p len × Unit {0}) _ _ _
      (and-Returns (HasIp6 d p len) (Unit {0}) _ _ (proto_check_ipv6-Returns d p len fits)
        (λ (b, e, is6, base).
          payload_check-Returns no_payload_check _
            (proto_check_ipv6_payload-Returns d p len (omega arith))))
      (λ t _ yes_ip6.
        branch-Returns (Inside d p len) t _ _
          (λ is_ip6.
            let (b, e, is6, base) = (yes_ip6 is_ip6).0 in
            bind-Returns (L3 d p len) _ (dissect_ipv6 d p len) _
              (dissect_ipv6-Returns d p len fits base (λ n. no_wrap b n e is6))
              (λ l _ h. dissect_l4-Returns no_payload_check d l p len fits h))
          (λ _. (_, refl, no_layers-Inside d p len)))

-- For a packet of `len` bytes, all of which may be read, whose total length covers its header if it
-- is IPv4, and whose payload length is at most 65495 if it is IPv6, the dissection returns and
-- reads only the packet. It reports one network and one transport header at most; the length of an
-- IPv4 or TCP header is that of its length field, of UDP and ICMP 8 bytes, of IPv6 at least 40; they
-- follow each other, whole, inside the packet, and the payload is what is left behind them.
pub proto_dissect_l3l4-Returns :
    (d : List ℕ) (p len : ℕ) (no_payload_check : Bool)
    → p + len ≤ length d
    → ((b n : ℕ)
        → get_elem? d p ≡ some b
        → b >> 4 ≡ 4
        → pntoh16 d (p + 2) ≡ some n
        → ip_header_len b ≤ n)
    → ((b n : ℕ)
        → get_elem? d p ≡ some b
        → bit_and b 0xf0 ≡ 0x60
        → pntoh16 d (p + 4) ≡ some n
        → n + 40 < 65536)
    → Returns (Inside d p len) (proto_dissect_l3l4 d p len no_payload_check)
unfolding proto_dissect_l3l4
proto_dissect_l3l4-Returns d p len no_payload_check fits total no_wrap =
    bind-Returns (λ (t : Bool). t ≡ true → HasIp d p len × Unit {0}) _ _ _
      (and-Returns (HasIp d p len) (Unit {0}) _ _ (proto_check_ipv4-Returns d p len fits)
        (λ (b, e, is4, least, whole).
          payload_check-Returns no_payload_check _
            (proto_check_ipv4_payload-Returns d p len (omega arith))))
      (λ t _ yes_ip.
        branch-Returns (Inside d p len) t _ _
          (λ is_ip.
            let (b, e, is4, least, whole) = (yes_ip is_ip).0 in
            bind-Returns (L3 d p len) _ (dissect_ipv4 d p len) _
              (dissect_ipv4-Returns d p len b fits e least whole (λ n. total b n e is4))
              (λ l _ h. dissect_l4-Returns no_payload_check d l p len fits h))
          (λ _. dissect_v6-Returns d p len no_payload_check fits no_wrap))
