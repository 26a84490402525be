-- ===== src/Ipv6.antt =====
-- nfq2/darkmagic.c, `proto_skip_ipv6`: the walk over the extension headers of an IPv6 packet.
pub mod Bounds
pub mod Find
mod Examples
use zapret.Base.{
  ℕ, zero, suc, ◌+◌, ◌-◌, ◌*◌, ◌<◌, List, Option, none, some, Bool, true, false, not, ◌&&◌, ◌||◌,
  ltb, ◌==◌, if◌then◌else◌, get_elem?, bit_and,
}
use zapret.Memory.{◌>>=◌, minus64}
use zapret.Bytes.{pntoh16}

-- `*data`, `*len`, `*proto_type`, `*frag` and `*frag_off`.
pub record Skip : Type 0 where
  pub data_at : ℕ
  pub len : ℕ
  pub proto_type : ℕ
  pub frag : Bool
  pub frag_off : ℕ

-- The cases of the switch.
pub data Header : Type 0 where
  sized fragment auth no_next payload : Header

-- Hop-by-hop options, routing, destination options, mobility, HIP and shim6 are sized by their
-- second byte; 44 is a fragment, 51 authentication, 59 no next header.
unfoldable pub header_of : ℕ → Header
header_of n =
    if n == 0 || (n == 43) || (n == 60) || (n == 135) || (n == 139) || (n == 140)
    then sized
    else if n == 44
    then fragment
    else if n == 51
    then auth
    else if n == 59
    then no_next
    else payload

-- The length of the header at `p`; the inner `none` is an error.
unfoldable pub header_len : Header → List ℕ → ℕ → ℕ → Option (Option ℕ)
header_len sized d p len =
    if ltb len 2 then some none else do b ← get_elem? d (p + 1); some (some (8 + b * 8))
header_len fragment d p len = some (if ltb len 8 then none else some 8)
header_len auth d p len =
    if ltb len 2 then some none else do b ← get_elem? d (p + 1); some (some (8 + b * 4))
header_len no_next d p len = some none
header_len payload d p len = some none

-- A fragment header sets the flag and the offset.
unfoldable pub set_fragment : Header → List ℕ → Skip → Option Skip
set_fragment fragment d s = do
  offlg ← pntoh16 d (s.data_at + 2)
  some (record s { frag = not (bit_and offlg 0xfff9 == 0); frag_off = bit_and offlg 0xfff8 })
set_fragment other d s = some s

unfoldable pub is_payload : Header → Bool
is_payload payload = true
is_payload other = false

-- The end of the loop: no byte is left, or the fragment is not the first.
unfoldable pub stops : Skip → Bool
stops s = s.len == 0 || (s.frag && not (s.frag_off == 0))

-- The header is skipped, if it is whole: its next-header field and the rest.
unfoldable pub skip_header : List ℕ → Skip → ℕ → Option (Option (ℕ × Skip))
skip_header d s hdrlen = if ltb s.len hdrlen then some none else do
  next ← get_elem? d s.data_at
  some (some (next, record s { data_at = s.data_at + hdrlen; len = s.len - hdrlen }))

-- The end of a round; `again` is the rest of the loop.
unfoldable pub skip_rest : (ℕ → Skip → Option Skip) → Skip → Option (ℕ × Skip) → Option Skip
skip_rest again s none = some s
skip_rest again s (some (next, s')) = again next s'

unfoldable pub skip_sized : (ℕ → Skip → Option Skip) → List ℕ → ℕ → Skip → Option ℕ → Option Skip
skip_sized again d header s none = some s
skip_sized again d header s (some hdrlen) = do
  s' ← set_fragment (header_of header) d s
  r ← skip_header d s' hdrlen
  skip_rest again s' r

unfoldable pub skip_headers : ℕ → List ℕ → ℕ → Skip → Option Skip
skip_headers zero d header s = if stops s then some s else none
skip_headers (suc fuel) d header s =
    let again = λ (next : ℕ) (s' : Skip). skip_headers fuel d next s' in
    if stops s
    then some s
    else if is_payload (header_of header)
    then some (record s { proto_type = header })
    else do h ← header_len (header_of header) d s.data_at s.len; skip_sized again d header s h

-- The packet at `p`, of at least the 40 bytes of the base header.
unfoldable pub proto_skip_ipv6 : List ℕ → ℕ → ℕ → Option Skip
proto_skip_ipv6 d p len = do
  header ← get_elem? d (p + 6)
  plen ← pntoh16 d (p + 4)
  let rest = minus64 len 40
  let n = if ltb plen rest then plen else rest
  skip_headers n d header
      (record { data_at = p + 40; len = n; proto_type = header; frag = false; frag_off = 0 })
