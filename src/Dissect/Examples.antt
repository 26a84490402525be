-- ===== src/Dissect/Examples.antt =====
-- An IPv4 packet with UDP, one whose total length is below its header, and an IPv6 packet with a
-- hop-by-hop header.
use zapret.Base.{ℕ, ◌≡◌, refl, List, [], ◌∷◌, ◌++◌, none, some, false, arith}
use zapret.Memory.Safe.{Returns}
use zapret.Bytes.{pntoh16}
use zapret.Ipv6.{is_payload, header_of}
use zapret.Ipv6.Find.{proto_find_ip6_exthdr}
use zapret.Ipv6.Find.Exact.{Finds, proto_find_ip6_exthdr-Finds}
use zapret.Dissect.{
  ip_header_len, proto_check_ipv4, proto_check_ipv4_payload, proto_skip_ipv4, proto_check_tcp,
  proto_check_udp, proto_check_udp_payload, proto_skip_udp, no_layers, after_l3, cut_to,
  dissect_ipv4, after_l4, dissect_udp, dissect_l4, proto_dissect_l3l4,
}
use zapret.Dissect.Bounds.{Inside}
use zapret.Dissect.Short.{proto_dissect_l3l4_faults}
use zapret.Dissect.Transport.{proto_dissect_l3l4-Returns}

-- The IPv4 header of a packet of `total` bytes.
abbrev ip_base : ℕ → ℕ → List ℕ
ip_base total proto =
    0x45 ∷ 0 ∷ 0 ∷ total ∷ 0 ∷ 0 ∷ 0 ∷ 0 ∷ 64 ∷ proto ∷ 0 ∷ 0 ∷ 10 ∷ 0 ∷ 0 ∷ 1 ∷ 10 ∷ 0 ∷ 0 ∷ 2 ∷ []

abbrev udp_packet : List ℕ
udp_packet = ip_base 30 17 ++ 1 ∷ 2 ∷ 0 ∷ 53 ∷ 0 ∷ 10 ∷ 0 ∷ 0 ∷ 7 ∷ 8 ∷ []

-- Two bytes of payload, behind 20 bytes of IPv4 and 8 of UDP.
finds_udp :
    proto_dissect_l3l4 udp_packet 0 30 false
    ≡ some (record {
      data_pkt = 0;
      len_pkt = 30;
      ip = some 0;
      ip6 = none;
      len_l3 = 20;
      proto = 17;
      tcp = none;
      udp = some 20;
      icmp = none;
      len_l4 = 8;
      transport_len = 10;
      data_payload = 28;
      len_payload = 2;
      frag = false;
      frag_off = 0;
    })
unfolding proto_dissect_l3l4 proto_check_ipv4 proto_check_ipv4_payload ip_header_len dissect_ipv4
    cut_to proto_skip_ipv4 after_l3 no_layers dissect_l4 dissect_udp proto_check_udp
    proto_check_udp_payload proto_skip_udp after_l4 pntoh16
finds_udp = refl

-- A total length of 0 is not rejected: the transport length wraps around, and the TCP header is
-- read behind the end of the packet.
reads_outside : proto_dissect_l3l4 (ip_base 0 6) 0 20 false ≡ none
unfolding proto_dissect_l3l4 proto_check_ipv4 proto_check_ipv4_payload ip_header_len dissect_ipv4
    cut_to proto_skip_ipv4 after_l3 no_layers dissect_l4 proto_check_tcp pntoh16
reads_outside = refl

proto_dissect_l3l4-Returns_example :
    Returns (Inside udp_packet 0 30) (proto_dissect_l3l4 udp_packet 0 30 false)
unfolding ip_header_len pntoh16
proto_dissect_l3l4-Returns_example =
    proto_dissect_l3l4-Returns udp_packet 0 30 false (omega arith)
      (λ b n e is4 en.
        let eb : b ≡ 0x45 = cc in let en' : n ≡ 30 = cc in rw (eb, en') (omega arith))
      (λ b n e is6 en. let en' : n ≡ 0 = cc in omega (arith, en'))

proto_dissect_l3l4_faults_example : proto_dissect_l3l4 (ip_base 0 6) 0 20 false ≡ none
unfolding ip_header_len pntoh16
proto_dissect_l3l4_faults_example =
    proto_dissect_l3l4_faults (ip_base 0 6) 0 20 0x45 0 0 refl refl (omega arith) (omega arith) refl
      (omega arith) false refl refl refl (omega arith)

abbrev options_udp : List ℕ
options_udp =
    0x60 ∷ 0 ∷ 0 ∷ 0 ∷ 0 ∷ 16 ∷ 0 ∷ 64 ∷ 0 ∷ 0 ∷ 0 ∷ 0 ∷ 0 ∷ 0 ∷ 0 ∷ 0 ∷ 0 ∷ 0 ∷ 0 ∷ 0 ∷ 0 ∷ 0 ∷ 0
    ∷ 1 ∷ 0 ∷ 0 ∷ 0 ∷ 0 ∷ 0 ∷ 0 ∷ 0 ∷ 0 ∷ 0 ∷ 0 ∷ 0 ∷ 0 ∷ 0 ∷ 0 ∷ 0 ∷ 2 ∷ 17 ∷ 0 ∷ 0 ∷ 0 ∷ 0 ∷ 0 ∷ 0
    ∷ 0 ∷ 1 ∷ 2 ∷ 3 ∷ 4 ∷ 0 ∷ 8 ∷ 0 ∷ 0 ∷ []

proto_find_ip6_exthdr-Finds_example :
    Returns (Finds options_udp 0 56 17) (proto_find_ip6_exthdr options_udp 0 56 17)
proto_find_ip6_exthdr-Finds_example =
    proto_find_ip6_exthdr-Finds options_udp 0 56 17 (omega arith)
      (unfold is_payload header_of in refl)
