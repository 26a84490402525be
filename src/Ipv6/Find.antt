-- ===== src/Ipv6/Find.antt =====
-- nfq2/darkmagic.c, `proto_find_ip6_exthdr`: the search for one extension header, by the same walk
-- as `proto_skip_ipv6`.
pub mod Exact
use zapret.Base.{
  ℕ, zero, suc, ◌+◌, ◌≤◌, ◌<◌, ◌≡◌, ◌≢◌, refl, sym, ap, ◌∙◌, subst, ◌⊎◌, List, Option, none, some,
  true, false, Bool, ltb, ◌==◌, if◌then◌else◌, arith, get_elem?, length, Bool-cases, inl, inr,
}
use zapret.Memory.{◌>>=◌, minus64, Laws.bind-some}
use zapret.Memory.Safe.{Returns}
use zapret.Bytes.{pntoh16}
use zapret.Track.Keeps.{some-injective}
use zapret.Ipv6.{
  Skip, Header, sized, fragment, auth, no_next, payload, header_of, header_len, set_fragment,
  is_payload, stops, skip_header, skip_headers, skip_sized, skip_rest, proto_skip_ipv6,
}
use zapret.Ipv6.Bounds.{Stays, proto_skip_ipv6-Returns}

-- The end of a round; `again` is the rest of the loop.
unfoldable pub find_rest : (ℕ → Skip → Option (Option ℕ)) → Option (ℕ × Skip) → Option (Option ℕ)
find_rest again none = some none
find_rest again (some (next, s)) = again next s

unfoldable pub find_sized :
    (ℕ → Skip → Option (Option ℕ)) → List ℕ → ℕ → Skip → Option ℕ → Option (Option ℕ)
find_sized again d header s none = some none
find_sized again d header s (some hdrlen) = do
  s' ← set_fragment (header_of header) d s
  r ← skip_header d s' hdrlen
  find_rest again r

unfoldable pub find_headers : ℕ → List ℕ → ℕ → ℕ → Skip → Option (Option ℕ)
find_headers zero d proto header s = if stops s then some none else none
find_headers (suc fuel) d proto header s =
    let again = λ (next : ℕ) (s' : Skip). find_headers fuel d proto next s' in
    if stops s
    then some none
    else if header == proto
    then some (some s.data_at)
    else if is_payload (header_of header)
    then some none
    else do h ← header_len (header_of header) d s.data_at s.len; find_sized again d header s h

-- The place of the header, `none` for NULL.
unfoldable pub proto_find_ip6_exthdr : List ℕ → ℕ → ℕ → ℕ → Option (Option ℕ)
proto_find_ip6_exthdr d p len proto = if ltb len 40 then some none else do
  header ← get_elem? d (p + 6)
  plen ← pntoh16 d (p + 4)
  let rest = minus64 len 40
  let n = if ltb plen rest then plen else rest
  find_headers n d proto header
      (record { data_at = p + 40; len = n; proto_type = header; frag = false; frag_off = 0 })
