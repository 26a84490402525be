-- ===== src/Ipv6/Examples.antt =====
-- A packet with a hop-by-hop header before UDP, and one that breaks off in its second header.
use zapret.Base.{ℕ, ◌≡◌, refl, List, [], ◌∷◌, ◌++◌, some, false, arith}
use zapret.Memory.Safe.{Returns}
use zapret.Bytes.{pntoh16}
use zapret.Ipv6.{
  proto_skip_ipv6, skip_headers, skip_sized, skip_rest, skip_header, set_fragment, stops,
  is_payload, header_of, header_len,
}
use zapret.Ipv6.Bounds.{Stays, proto_skip_ipv6-Returns}

-- The base header for `plen` bytes, of which a header of this type is the first.
abbrev base : ℕ → ℕ → List ℕ
base plen header =
    0x60 ∷ 0 ∷ 0 ∷ 0 ∷ 0 ∷ plen ∷ header ∷ 64 ∷ 0 ∷ 0 ∷ 0 ∷ 0 ∷ 0 ∷ 0 ∷ 0 ∷ 0 ∷ 0 ∷ 0 ∷ 0 ∷ 0 ∷ 0
    ∷ 0 ∷ 0 ∷ 1 ∷ 0 ∷ 0 ∷ 0 ∷ 0 ∷ 0 ∷ 0 ∷ 0 ∷ 0 ∷ 0 ∷ 0 ∷ 0 ∷ 0 ∷ 0 ∷ 0 ∷ 0 ∷ 2 ∷ []

abbrev options_udp : List ℕ
options_udp = base 16 0 ++ 17 ∷ 0 ∷ 0 ∷ 0 ∷ 0 ∷ 0 ∷ 0 ∷ 0 ∷ 1 ∷ 2 ∷ 3 ∷ 4 ∷ 0 ∷ 8 ∷ 0 ∷ 0 ∷ []

skips_options :
    proto_skip_ipv6 options_udp 0 56
    ≡ some (record { data_at = 48; len = 8; proto_type = 17; frag = false; frag_off = 0 })
unfolding proto_skip_ipv6 skip_headers skip_sized skip_rest skip_header set_fragment stops
    is_payload header_of header_len pntoh16
skips_options = refl

-- A routing header cut off after its first byte: the error leaves the type of the first header, not
-- 0.
cut_off :
    proto_skip_ipv6 (base 1 43 ++ 17 ∷ []) 0 41
    ≡ some (record { data_at = 40; len = 1; proto_type = 43; frag = false; frag_off = 0 })
unfolding proto_skip_ipv6 skip_headers skip_sized skip_rest skip_header set_fragment stops
    is_payload header_of header_len pntoh16
cut_off = refl

proto_skip_ipv6-Returns_example : Returns (Stays 40 56) (proto_skip_ipv6 options_udp 0 56)
proto_skip_ipv6-Returns_example =
    proto_skip_ipv6-Returns options_udp 0 56 (omega arith) (omega arith)
