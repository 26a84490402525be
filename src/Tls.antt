-- ===== src/Tls.antt =====
-- nfq2/protocol.c, `TLSHandshakeDataLen` to `TLSHelloExtractHostFromHandshake`: the readers of TLS
-- hello messages. `d` is the memory, a pointer into it an index; `none` is a read outside it.
pub mod Bounds
pub mod Hello
mod Examples
use zapret.Base.{
  ℕ, zero, suc, ◌+◌, ◌-◌, ◌<◌, List, [], ◌∷◌, ◌++◌, map, Option, none, some, Bool, true, false, not,
  ◌&&◌, ◌||◌, ltb, leb, ◌==◌, if◌then◌else◌, get_elem?,
}
use zapret.Memory.{◌>>=◌}
use zapret.Bytes.{pntoh16, pntoh24}

unfoldable pub handshake_len : List ℕ → ℕ → Option ℕ
handshake_len d p = do n ← pntoh24 d (p + 1); some (n + 4)

unfoldable pub is_handshake_full : List ℕ → ℕ → ℕ → Option Bool
is_handshake_full d p len = do n ← handshake_len d p; some (leb n len)

unfoldable pub record_len : List ℕ → ℕ → Option ℕ
record_len d p = do n ← pntoh16 d (p + 3); some (n + 5)

unfoldable pub is_record_full : List ℕ → ℕ → ℕ → Option Bool
is_record_full d p len = do n ← record_len d p; some (leb n len)

-- `a && b` where the right side is read only if the left side holds.
abbrev pub and_then : Bool → Option Bool → Option Bool
and_then true right = right
and_then false right = some false

-- A test of one byte.
abbrev pub byte : List ℕ → ℕ → (ℕ → Bool) → Option Bool
byte d p test = do b ← get_elem? d p; some (test b)

unfoldable pub is_type : ℕ → ℕ → Bool
is_type type b = if type == 0 then b == 1 || (b == 2) else b == type

-- The part of the test after `len >= 6`.
unfoldable pub hello_bytes : List ℕ → ℕ → ℕ → ℕ → Bool → Option Bool
hello_bytes d p len type partial = do
  kind ← byte d p (is_type type)
  and_then kind (
      byte d (p + 4) (λ b. b == 3) >>= λ major. and_then major (
        byte d (p + 5) (λ b. leb b 3) >>= λ minor.
        and_then minor (if partial then some true else is_handshake_full d p len)))

unfoldable pub is_handshake_hello : List ℕ → ℕ → ℕ → ℕ → Bool → Option Bool
is_handshake_hello d p len type partial = and_then (leb 6 len) (hello_bytes d p len type partial)

unfoldable pub record_bytes : List ℕ → ℕ → ℕ → ℕ → Bool → Option Bool
record_bytes d p len type partial = do
  content ← byte d p (λ b. b == 0x16)
  and_then content (
      byte d (p + 1) (λ b. b == 3) >>= λ major. and_then major (
        byte d (p + 2) (λ b. leb b 3) >>= λ minor. and_then minor (
          (if partial then some true else is_record_full d p len) >>= λ full.
          and_then full (is_handshake_hello d (p + 5) (len - 5) type partial))))

unfoldable pub is_hello : List ℕ → ℕ → ℕ → ℕ → Bool → Option Bool
is_hello d p len type partial = and_then (leb 6 len) (record_bytes d p len type partial)

-- In the answers below the inner `none` is false.
-- `ExtensionsLength` behind the compression methods, which start at `l`.
unfoldable pub behind_methods : List ℕ → ℕ → ℕ → ℕ → ℕ → Option (Option ℕ)
behind_methods d p len kind l = if ltb len (l + 1) then some none else do
  methods ← if kind == 1 then get_elem? d (p + l) else some 0
  let l1 = l + methods + 1
  some (if ltb len (l1 + 2) then none else some l1)

-- Behind the session id, whose end is at `l`.
unfoldable pub behind_session : List ℕ → ℕ → ℕ → ℕ → Option (Option ℕ)
behind_session d p len l = if ltb len (l + 2) then some none else do
  kind ← get_elem? d p
  suites ← if kind == 1 then pntoh16 d (p + l) else some 0
  behind_methods d p len kind (l + suites + 2)

unfoldable pub find_ext_len_offset_in_handshake : List ℕ → ℕ → ℕ → Option (Option ℕ)
find_ext_len_offset_in_handshake d p len =
    if ltb len (38 + 1)
    then some none
    else do session ← get_elem? d (p + 38); behind_session d p len (38 + (session + 1))

-- `*off += 5` on success.
unfoldable pub add_5 : Option ℕ → Option ℕ
add_5 none = none
add_5 (some off) = some (off + 5)

unfoldable pub find_ext_len : List ℕ → ℕ → ℕ → Option (Option ℕ)
find_ext_len d p len =
    if ltb len 5
    then some none
    else do off ← find_ext_len_offset_in_handshake d (p + 5) (len - 5); some (add_5 off)

-- The loop over the extensions, `l` bytes from `p` on: the extension's data and its length.
unfoldable pub walk : ℕ → List ℕ → ℕ → ℕ → ℕ → Option (Option (ℕ × ℕ))
walk zero d p l type = if ltb l 4 then some none else none
walk (suc fuel) d p l type =
    let next = λ (elen : ℕ). walk fuel d (p + 4 + elen) (l - 4 - elen) type in
    if ltb l 4 then some none else do
      etype ← pntoh16 d p
      elen ← pntoh16 d (p + 2)
      let more = next elen
      if ltb (l - 4) elen
          then some none
          else if etype == type
          then some (some (p + 4, elen))
          else more

-- From the extensions' length field on.
unfoldable pub extensions : List ℕ → ℕ → ℕ → ℕ → Bool → Option (Option (ℕ × ℕ))
extensions d p len type partial = do
  l ← pntoh16 d p
  let rest = len - 2
  if ltb rest l
      then if partial then walk rest d (p + 2) rest type else some none
      else walk l d (p + 2) l type

unfoldable pub at_offset : List ℕ → ℕ → ℕ → ℕ → Bool → Option ℕ → Option (Option (ℕ × ℕ))
at_offset d p len type partial none = some none
at_offset d p len type partial (some l) = extensions d (p + l) (len - l) type partial

unfoldable pub find_ext_in_handshake : List ℕ → ℕ → ℕ → ℕ → Bool → Option (Option (ℕ × ℕ))
find_ext_in_handshake d p len type partial = do
  full ← if partial then some true else is_handshake_full d p len
  if full
      then (do off ← find_ext_len_offset_in_handshake d p len; at_offset d p len type partial off)
      else some none

unfoldable pub find_ext : List ℕ → ℕ → ℕ → ℕ → Bool → Option (Option (ℕ × ℕ))
find_ext d p len type partial = do
  hello ← is_hello d p len 0 partial
  if hello
      then (do
        reclen ← record_len d p
        find_ext_in_handshake d (p + 5) ((if ltb reclen len then reclen else len) - 5) type partial)
      else some none

-- The host name in the extension: its start, what is left of the extension, its length.
unfoldable pub advance_to_host_in_sni : List ℕ → ℕ → ℕ → Option (Option (ℕ × ℕ × ℕ))
advance_to_host_in_sni d ext elen = if ltb elen 5 then some none else do
  kind ← get_elem? d (ext + 2)
  if kind == 0
      then (do
        slen ← pntoh16 d (ext + 3)
        some (if leb slen (elen - 5) then some (ext + 5, elen - 5, slen) else none))
      else some none

unfoldable pub tolower : ℕ → ℕ
tolower b = if leb 65 b && leb b 90 then b + 32 else b

-- The loop that copies the name.
unfoldable pub copy_lower : List ℕ → ℕ → ℕ → Option (List ℕ)
copy_lower d p zero = some []
copy_lower d p (suc n) = do
  b ← get_elem? d p
  rest ← copy_lower d (p + 1) n
  some (tolower b ∷ rest)

-- What is written to `host`, with the zero that ends it; a size of 0 also stands for no buffer.
unfoldable pub copy_host : List ℕ → ℕ → ℕ → ℕ → Option (List ℕ)
copy_host d ext slen zero = some []
copy_host d ext slen (suc room) = do
  name ← copy_lower d ext (if leb (suc room) slen then room else slen)
  some (name ++ 0 ∷ [])

unfoldable pub host_at : List ℕ → ℕ → Option (ℕ × ℕ × ℕ) → Option (Option (List ℕ))
host_at d len_host none = some none
host_at d len_host (some (ext, elen, slen)) = do
  name ← copy_host d ext slen len_host
  some (some name)

unfoldable pub extract_host_from_ext : List ℕ → ℕ → Option (ℕ × ℕ) → Option (Option (List ℕ))
extract_host_from_ext d len_host none = some none
extract_host_from_ext d len_host (some (ext, elen)) = do
  sni ← advance_to_host_in_sni d ext elen
  host_at d len_host sni

unfoldable pub hello_extract_host : List ℕ → ℕ → ℕ → ℕ → Bool → Option (Option (List ℕ))
hello_extract_host d p len len_host partial = do
  ext ← find_ext d p len 0 partial
  extract_host_from_ext d len_host ext

unfoldable pub hello_extract_host_from_handshake :
    List ℕ → ℕ → ℕ → ℕ → Bool → Option (Option (List ℕ))
hello_extract_host_from_handshake d p len len_host partial = do
  ext ← find_ext_in_handshake d p len 0 partial
  extract_host_from_ext d len_host ext
