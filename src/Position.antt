-- ===== src/Position.antt =====
-- nfq2/protocol.c, `FindNLD`, `CheckPos`, `AnyProtoPos`, `HostPos` and `TLSPos`: where a message is
-- split. A position is an offset from the start of the message, at index `p` of the memory.
pub mod Bounds
pub mod Markers
mod Examples
use zapret.Base.{
  ℕ, zero, suc, ◌+◌, ◌-◌, ◌*◌, ◌/◌, ◌<◌, List, Option, none, some, Bool, true, false, ltb, leb,
  ◌==◌, if◌then◌else◌, get_elem?,
}
use zapret.Memory.{◌>>=◌}
use zapret.Tls.{find_ext, find_ext_len, advance_to_host_in_sni}

pub data Marker : Type 0 where
  abs host host_end host_sld host_midsld host_endsld http_method ext_len sni_ext : Marker

-- The signed number that a marker adds.
pub data ℤ : Type 0 where
  pos : ℕ → ℤ
  negsuc : ℕ → ℤ

-- `*p == '.'`.
abbrev pub is_dot : ℕ → Bool
is_dot b = b == 46

-- `*p` in the domain; a read before it faults.
abbrev pub from_dom : List ℕ → ℕ → ℕ → Option ℕ
from_dom d dom p = if ltb p dom then none else get_elem? d p

-- `for (; p>dom && *p!='.'; p--)`.
unfoldable pub back : List ℕ → ℕ → ℕ → Option ℕ
back d dom zero = some zero
back d dom (suc p) =
    let next = back d dom p in
    if ltb dom (suc p)
    then (do b ← from_dom d dom (suc p); if is_dot b then some (suc p) else next)
    else some (suc p)

-- The loop over the levels: the end of the domain.
unfoldable pub up : ℕ → List ℕ → ℕ → ℕ → Option (Option ℕ)
up zero d dom p2 = some (some p2)
up (suc n) d dom p2 = do
  p ← back d dom (p2 - 1)
  let next = up n d dom p
  if leb p dom then some none else next

unfoldable pub nld_at : List ℕ → ℕ → Option ℕ → Option (Option (ℕ × ℕ))
nld_at d dom none = some none
nld_at d dom (some p2) = if leb p2 dom then some none else do
  p1 ← back d dom (p2 - 1)
  b ← from_dom d dom p1
  let start = if is_dot b then p1 + 1 else p1
  some (some (start, p2 - start))

-- The start of the domain and its length; no domain is the inner `none`.
unfoldable pub find_nld : List ℕ → ℕ → ℕ → ℕ → Option (Option (ℕ × ℕ))
find_nld d dom dlen zero = some none
find_nld d dom dlen (suc n) = do end ← up n d dom (dom + dlen); nld_at d dom end

-- `none` is a negative sum.
unfoldable pub shift : ℕ → ℤ → Option ℕ
shift n (pos k) = some (n + k)
shift n (negsuc k) = if ltb n (k + 1) then none else some (n - (k + 1))

-- The answer `none` is POS_NOT_FOUND.
unfoldable pub check_pos : ℕ → Option ℕ → Option ℕ
check_pos sz none = none
check_pos sz (some offset) = if ltb offset sz then some offset else none

unfoldable pub any_proto_pos : Marker → ℤ → ℕ → Option ℕ
any_proto_pos abs (pos k) sz = check_pos sz (some k)
any_proto_pos abs (negsuc k) sz = check_pos sz (shift sz (negsuc k))
any_proto_pos other k sz = none

-- The offset of a second-level domain at `s` of length `slen`.
unfoldable pub sld_offset : Marker → ℕ → ℕ → ℕ → ℕ
sld_offset host_sld p s slen = s - p
sld_offset host_endsld p s slen = s - p + slen
sld_offset other p s slen = if slen == 1 then s + 1 - p else s + slen / 2 - p

unfoldable pub sld_pos : Marker → ℤ → ℕ → ℕ → Option (ℕ × ℕ) → Option ℕ
sld_pos m k p sz none = none
sld_pos m k p sz (some (s, slen)) = check_pos sz (shift (sld_offset m p s slen) k)

unfoldable pub host_sld_pos : Marker → ℤ → List ℕ → ℕ → ℕ → ℕ → ℕ → Option (Option ℕ)
host_sld_pos m k d p sz offset_host len_host =
    if ltb sz (offset_host + len_host)
    then some none
    else do nld ← find_nld d (p + offset_host) len_host 2; some (sld_pos m k p sz nld)

unfoldable pub host_pos : Marker → ℤ → List ℕ → ℕ → ℕ → ℕ → ℕ → Option (Option ℕ)
host_pos host k d p sz offset_host len_host = some (check_pos sz (shift offset_host k))
host_pos host_end k d p sz offset_host len_host =
    some (check_pos sz (shift (offset_host + len_host) k))
host_pos host_sld k d p sz offset_host len_host =
    host_sld_pos host_sld k d p sz offset_host len_host
host_pos host_midsld k d p sz offset_host len_host =
    host_sld_pos host_midsld k d p sz offset_host len_host
host_pos host_endsld k d p sz offset_host len_host =
    host_sld_pos host_endsld k d p sz offset_host len_host
host_pos other k d p sz offset_host len_host = some none

unfoldable pub sni_host_pos : Marker → ℤ → List ℕ → ℕ → ℕ → Option (ℕ × ℕ × ℕ) → Option (Option ℕ)
sni_host_pos m k d p sz none = some none
sni_host_pos m k d p sz (some (ext, elen, len)) = host_pos m k d p sz (ext - p) len

-- A position in or at the server name extension.
unfoldable pub sni_pos : Marker → ℤ → List ℕ → ℕ → ℕ → Option (ℕ × ℕ) → Option (Option ℕ)
sni_pos m k d p sz none = some none
sni_pos sni_ext k d p sz (some (ext, elen)) = some (check_pos sz (shift (ext - p) k))
sni_pos m k d p sz (some (ext, elen)) = do
  sni ← advance_to_host_in_sni d ext elen
  sni_host_pos m k d p sz sni

unfoldable pub ext_len_pos : ℤ → ℕ → Option ℕ → Option ℕ
ext_len_pos k sz none = none
ext_len_pos k sz (some offset) = check_pos sz (shift offset k)

unfoldable pub by_sni : Marker → ℤ → List ℕ → ℕ → ℕ → Option (Option ℕ)
by_sni m k d p sz = do ext ← find_ext d p sz 0 true; sni_pos m k d p sz ext

unfoldable pub tls_pos : Marker → ℤ → List ℕ → ℕ → ℕ → Option (Option ℕ)
tls_pos host k d p sz = by_sni host k d p sz
tls_pos host_end k d p sz = by_sni host_end k d p sz
tls_pos host_sld k d p sz = by_sni host_sld k d p sz
tls_pos host_midsld k d p sz = by_sni host_midsld k d p sz
tls_pos host_endsld k d p sz = by_sni host_endsld k d p sz
tls_pos sni_ext k d p sz = by_sni sni_ext k d p sz
tls_pos ext_len k d p sz = do offset ← find_ext_len d p sz; some (ext_len_pos k sz offset)
tls_pos other k d p sz = some (any_proto_pos other k sz)
