-- ===== src/Quic.antt =====
-- nfq2/protocol.c, `tvb_get_varint` to `QUICDraftVersion`, `QUICIsLongHeader` to `QUICExtractDCID`
-- and `IsQUICInitial`: the open parts of QUIC packets. A message is `len` bytes at index `p` of the
-- memory.
pub mod Varint
pub mod Bounds
pub mod Initial
pub mod Defrag
mod Examples
use zapret.Base.{
  ℕ, zero, suc, ◌+◌, ◌-◌, ◌<◌, List, [], ◌∷◌, Option, none, some, Bool, true, false, not, ◌&&◌,
  ◌||◌, ltb, leb, ◌==◌, if◌then◌else◌, get_elem?, bit_and, drop,
}
use zapret.Base.Bits.{◌<<◌, ◌>>◌, u8, u64}
use zapret.Memory.{◌>>=◌, ◌&&?◌, byte_is}
use zapret.Bytes.{pntoh16, pntoh32, pntoh64}
use zapret.Tls.{is_handshake_hello}
use zapret.Queue.{copy_bytes}

-- The value and the number of bytes, from the two high bits of the first byte.
unfoldable pub varint_of : ℕ → List ℕ → ℕ → ℕ → Option (ℕ × ℕ)
varint_of kind d p b =
    if kind == 0
    then some (bit_and b 0x3f, 1)
    else if kind == 1
    then (do v ← pntoh16 d p; some (bit_and v 0x3fff, 2))
    else if kind == 2
    then (do v ← pntoh32 d p; some (bit_and v 0x3fffffff, 4))
    else if kind == 3
    then (do v ← pntoh64 d p; some (bit_and v 0x3fffffffffffffff, 8))
    else some (0, 0)

unfoldable pub tvb_get_varint : List ℕ → ℕ → Option (ℕ × ℕ)
tvb_get_varint d p = do b ← get_elem? d p; varint_of (b >> 6) d p b

unfoldable pub tvb_get_size : ℕ → ℕ
tvb_get_size b = u8 (1 << (b >> 6))

-- The frame holds a client hello: its offset and length.
unfoldable pub crypto_data : List ℕ → ℕ → ℕ → ℕ → Option (Option (ℕ × ℕ))
crypto_data d p len offset = do
  b ← get_elem? d (p + offset)
  if leb len (u64 (offset + tvb_get_size b)) then some none else do
    (clen, n) ← tvb_get_varint d (p + offset)
    let from = u64 (offset + n)
    if ltb len (u64 (from + clen)) then some none else do
      hello ← is_handshake_hello d (p + from) clen 1 true
      some (if hello then some (from, clen) else none)

unfoldable pub is_quic_crypto_hello : List ℕ → ℕ → ℕ → Option (Option (ℕ × ℕ))
is_quic_crypto_hello d p len = if ltb len 3 then some none else do
  ft ← get_elem? d p
  if not (ft == 6) then some none else do
    b ← get_elem? d (p + 1)
    if leb len (1 + tvb_get_size b) then some none else do
      (coff, n) ← tvb_get_varint d (p + 1)
      if not (coff == 0) then some none else crypto_data d p len (1 + n)

unfoldable pub is_quic_v2 : ℕ → Bool
is_quic_v2 version = version == 0x709a50c4 || (version == 0x6b3343cf)

unfoldable pub quic_draft_version : ℕ → ℕ
quic_draft_version version =
    if version >> 8 == 0xff0000
    then u8 version
    else if version == 0xfaceb001
    then 22
    else if version == 0xfaceb002 || (version == 0xfaceb00e)
    then 27
    else if version == 0x51303530 || (version == 0x54303530) || (version == 0x54303531)
    then 27
    else if bit_and version 0x0f0f0f0f == 0x0a0a0a0a
    then 29
    else if version == 1
    then 34
    else if is_quic_v2 version
    then 100
    else 0

unfoldable pub quic_is_long_header : List ℕ → ℕ → ℕ → Option Bool
quic_is_long_header d p len = some (leb 9 len) &&? byte_is d p (λ b. not (bit_and b 0x80 == 0))

unfoldable pub quic_extract_version : List ℕ → ℕ → ℕ → Option ℕ
quic_extract_version d p len = do
  long ← quic_is_long_header d p len
  if long then pntoh32 d (p + 1) else some 0

abbrev pub quic_max_cid_length : ℕ
quic_max_cid_length = 20

-- The connection id of the server, `none` for false.
unfoldable pub quic_extract_dcid : List ℕ → ℕ → ℕ → Option (Option (List ℕ))
quic_extract_dcid d p len = do
  long ← quic_is_long_header d p len
  if not long then some none else do
    n ← get_elem? d (p + 5)
    if n == 0 || ltb quic_max_cid_length n || ltb len (6 + n)
        then some none
        else (do cid ← copy_bytes n (drop (p + 6) d); some (some cid))

-- The steps of `IsQUICInitial`, each from the offset that the one before it leaves.
unfoldable pub initial_payload : List ℕ → ℕ → ℕ → ℕ → Option Bool
initial_payload d p len offset = do
  b ← get_elem? d (p + offset)
  if ltb len (u64 (offset + tvb_get_size b)) then some false else do
    (sz, n) ← tvb_get_varint d (p + offset)
    some (leb (u64 (offset + u64 (tvb_get_size b + sz))) len)

unfoldable pub initial_token : List ℕ → ℕ → ℕ → ℕ → Option Bool
initial_token d p len offset = if leb len offset then some false else do
  b ← get_elem? d (p + offset)
  if ltb len (u64 (offset + tvb_get_size b)) then some false else do
    (sz, n) ← tvb_get_varint d (p + offset)
    let behind = u64 (u64 (offset + n) + sz)
    if leb len behind then some false else initial_payload d p len behind

unfoldable pub initial_scid : List ℕ → ℕ → ℕ → ℕ → Option Bool
initial_scid d p len offset = if leb len offset then some false else do
  n ← get_elem? d (p + offset)
  if ltb quic_max_cid_length n then some false else initial_token d p len (offset + (1 + n))

unfoldable pub initial_dcid : List ℕ → ℕ → ℕ → Option Bool
initial_dcid d p len = do
  n ← get_elem? d (p + 5)
  if ltb quic_max_cid_length n then some false else initial_scid d p len (5 + (1 + n))

unfoldable pub is_quic_initial : List ℕ → ℕ → ℕ → Option Bool
is_quic_initial d p len = if ltb len 128 then some false else do
  ver ← quic_extract_version d p len
  if ltb (quic_draft_version ver) 11 then some false else do
    b ← get_elem? d p
    if not (bit_and b 0xf0 == (if is_quic_v2 ver then 0xd0 else 0xc0))
        then some false
        else initial_dcid d p len
