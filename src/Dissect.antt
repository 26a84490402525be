-- ===== src/Dissect.antt =====
-- nfq2/darkmagic.c: the checks of IPv4, IPv6, TCP, UDP and ICMP headers, the steps over them, and
-- `proto_dissect_l3l4`, which finds the headers and the payload of a packet.
pub mod Bounds
pub mod Transport
pub mod Short
mod Examples
use zapret.Base.{
  ℕ, ◌+◌, ◌-◌, ◌*◌, List, Option, none, some, Bool, true, false, not, ◌&&◌, ◌||◌, ltb, leb, ◌==◌,
  if◌then◌else◌, get_elem?, bit_and,
}
use zapret.Base.Bits.{◌<<◌, ◌>>◌, u16}
use zapret.Memory.{◌>>=◌, ◌&&?◌, minus64}
use zapret.Bytes.{pntoh16}
use zapret.Ipv6.{Skip, proto_skip_ipv6}
use zapret.Packet.{ipproto_tcp, ipproto_udp}

abbrev pub ipproto_icmp : ℕ
ipproto_icmp = 1

abbrev pub ipproto_icmpv6 : ℕ
ipproto_icmpv6 = 58

-- `struct dissect`; the headers are their places in the packet, `none` for NULL.
pub record Layers : Type 0 where
  pub data_pkt : ℕ
  pub len_pkt : ℕ
  pub ip : Option ℕ
  pub ip6 : Option ℕ
  pub len_l3 : ℕ
  pub proto : ℕ
  pub tcp : Option ℕ
  pub udp : Option ℕ
  pub icmp : Option ℕ
  pub len_l4 : ℕ
  pub transport_len : ℕ
  pub data_payload : ℕ
  pub len_payload : ℕ
  pub frag : Bool
  pub frag_off : ℕ

-- `ip_hl << 2` of the first byte, and `th_off << 2` of the thirteenth.
unfoldable pub ip_header_len : ℕ → ℕ
ip_header_len b = bit_and b 0xf << 2

unfoldable pub tcp_header_len : ℕ → ℕ
tcp_header_len b = (b >> 4) << 2

unfoldable pub proto_check_ipv4 : List ℕ → ℕ → ℕ → Option Bool
proto_check_ipv4 d p len = if ltb len 20 then some false else do
  b ← get_elem? d p
  if not (b >> 4 == 4)
      then some false
      else some (leb 20 (ip_header_len b) && leb (ip_header_len b) len)

unfoldable pub proto_check_ipv4_payload : List ℕ → ℕ → ℕ → Option Bool
proto_check_ipv4_payload d p len = do ip_len ← pntoh16 d (p + 2); some (leb ip_len len)

-- The type of the payload is left to the caller.
unfoldable pub proto_skip_ipv4 : List ℕ → ℕ → ℕ → ℕ → Option Skip
proto_skip_ipv4 d p len proto = do
  b ← get_elem? d p
  off ← pntoh16 d (p + 6)
  some (record {
    data_at = p + ip_header_len b;
    len = minus64 len (ip_header_len b);
    proto_type = proto;
    frag = not (bit_and off 0x3fff == 0);
    frag_off = bit_and off 0x1fff << 3;
  })

unfoldable pub proto_check_tcp : List ℕ → ℕ → ℕ → Option Bool
proto_check_tcp d p len =
    if ltb len 20
    then some false
    else do b ← get_elem? d (p + 12); some (leb 20 (tcp_header_len b) && leb (tcp_header_len b) len)

-- The places after a header: the pointer and the length of the rest.
unfoldable pub proto_skip_tcp : List ℕ → ℕ → ℕ → Option (ℕ × ℕ)
proto_skip_tcp d p len = do
  b ← get_elem? d (p + 12)
  some (p + tcp_header_len b, minus64 len (tcp_header_len b))

unfoldable pub proto_check_udp : ℕ → Bool
proto_check_udp len = leb 8 len

unfoldable pub proto_check_udp_payload : List ℕ → ℕ → ℕ → Option Bool
proto_check_udp_payload d p len = do l ← pntoh16 d (p + 4); some (leb 8 l && leb l len)

unfoldable pub proto_skip_udp : ℕ → ℕ → ℕ × ℕ
proto_skip_udp p len = (p + 8, minus64 len 8)

unfoldable pub proto_check_icmp : ℕ → Bool
proto_check_icmp len = leb 8 len

unfoldable pub proto_skip_icmp : ℕ → ℕ → ℕ × ℕ
proto_skip_icmp p len = (p + 8, minus64 len 8)

unfoldable pub proto_check_ipv6 : List ℕ → ℕ → ℕ → Option Bool
proto_check_ipv6 d p len =
    if ltb len 40 then some false else do b ← get_elem? d p; some (bit_and b 0xf0 == 0x60)

-- The sum is an `int` and does not wrap.
unfoldable pub proto_check_ipv6_payload : List ℕ → ℕ → ℕ → Option Bool
proto_check_ipv6_payload d p len = do plen ← pntoh16 d (p + 4); some (leb (plen + 40) len)

-- After `memset` and the first two assignments.
unfoldable pub no_layers : ℕ → ℕ → Layers
no_layers p len = record {
  data_pkt = p;
  len_pkt = len;
  ip = none;
  ip6 = none;
  len_l3 = 0;
  proto = 0;
  tcp = none;
  udp = none;
  icmp = none;
  len_l4 = 0;
  transport_len = 0;
  data_payload = 0;
  len_payload = 0;
  frag = false;
  frag_off = 0;
}

-- The network layer is done: `data` and `len` after it, as the last assignments of the function
-- leave them when there is no transport header.
unfoldable pub after_l3 : Layers → Skip → Layers
after_l3 l s = record l {
  len_l3 = s.data_at - l.data_pkt;
  proto = s.proto_type;
  transport_len = s.len;
  data_payload = s.data_at;
  len_payload = s.len;
  frag = s.frag;
  frag_off = s.frag_off;
}

unfoldable pub cut_to : ℕ → ℕ → ℕ
cut_to iplen len = if ltb iplen len then iplen else len

unfoldable pub dissect_ipv4 : List ℕ → ℕ → ℕ → Option Layers
dissect_ipv4 d p len = do
  proto ← get_elem? d (p + 9)
  iplen ← pntoh16 d (p + 2)
  s ← proto_skip_ipv4 d p (cut_to iplen len) proto
  some (after_l3 (record (no_layers p (cut_to iplen len)) { ip = some p }) s)

-- `iplen` has 16 bits.
unfoldable pub dissect_ipv6 : List ℕ → ℕ → ℕ → Option Layers
dissect_ipv6 d p len = do
  plen ← pntoh16 d (p + 4)
  s ← proto_skip_ipv6 d p (cut_to (u16 (plen + 40)) len)
  some (after_l3 (record (no_layers p (cut_to (u16 (plen + 40)) len)) { ip6 = some p }) s)

-- The payload behind the transport header at `data_payload`.
unfoldable pub after_l4 : Layers → ℕ × ℕ → Layers
after_l4 l (data_at, len) = record l {
  len_l4 = data_at - l.data_payload;
  data_payload = data_at;
  len_payload = len;
}

unfoldable pub dissect_icmp : Layers → Layers
dissect_icmp l =
    if (l.proto == ipproto_icmp || (l.proto == ipproto_icmpv6)) && proto_check_icmp l.len_payload
    then after_l4 (record l { icmp = some l.data_payload })
        (proto_skip_icmp l.data_payload l.len_payload)
    else l

unfoldable pub dissect_udp : Bool → List ℕ → Layers → Option Layers
dissect_udp no_payload_check d l = do
  is_udp ←
      some (l.proto == ipproto_udp && proto_check_udp l.len_payload)
      &&? (if no_payload_check
          then some true
          else proto_check_udp_payload d l.data_payload l.len_payload)
  if is_udp
      then some (
          after_l4 (record l { udp = some l.data_payload })
            (proto_skip_udp l.data_payload l.len_payload))
      else some (dissect_icmp l)

unfoldable pub dissect_l4 : Bool → List ℕ → Layers → Option Layers
dissect_l4 no_payload_check d l = if l.frag then some l else do
  is_tcp ← some (l.proto == ipproto_tcp) &&? proto_check_tcp d l.data_payload l.len_payload
  if is_tcp
      then (do
        r ← proto_skip_tcp d l.data_payload l.len_payload
        some (after_l4 (record l { tcp = some l.data_payload }) r))
      else dissect_udp no_payload_check d l

unfoldable pub proto_dissect_l3l4 : List ℕ → ℕ → ℕ → Bool → Option Layers
proto_dissect_l3l4 d p len no_payload_check = do
  is_ip ←
      proto_check_ipv4 d p len
      &&? (if no_payload_check then some true else proto_check_ipv4_payload d p len)
  if is_ip then (do l ← dissect_ipv4 d p len; dissect_l4 no_payload_check d l) else do
    is_ip6 ←
        proto_check_ipv6 d p len
        &&? (if no_payload_check then some true else proto_check_ipv6_payload d p len)
    if is_ip6
        then (do l ← dissect_ipv6 d p len; dissect_l4 no_payload_check d l)
        else some (no_layers p len)

-- `ip` and `ip6` as the places of headers.
unfoldable pub ttl46 : List ℕ → Option ℕ → Option ℕ → Option ℕ
ttl46 d (some ip) ip6 = get_elem? d (ip + 8)
ttl46 d none (some ip6) = get_elem? d (ip6 + 7)
ttl46 d none none = some 0
