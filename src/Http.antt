-- ===== src/Http.antt =====
-- nfq2/protocol.c, `HttpMethod` to `HttpPos`: requests and replies of HTTP. A message is `len`
-- bytes at index `p` of the memory.
pub mod Bounds
pub mod Header
pub mod Redirect
pub mod Pos
pub mod Resolve
pub mod Multi
mod Examples
use zapret.Base.{
  ℕ, zero, suc, ◌+◌, ◌-◌, ◌*◌, ◌<◌, List, [], ◌∷◌, ◌++◌, Option, none, some, Bool, true, false, not,
  ◌&&◌, ◌||◌, ltb, leb, ◌==◌, if◌then◌else◌, get_elem?, length, drop, map,
}
use zapret.Memory.{◌>>=◌, ◌&&?◌, ◌||?◌, byte_is}
use zapret.Tls.{tolower, copy_host}
use zapret.Strings.{mem_eq, strncasestr, str_eq}
use zapret.Position.{
  Marker, abs, host, host_end, host_sld, host_midsld, host_endsld, http_method, ext_len, sni_ext, ℤ,
  pos, negsuc, shift, check_pos, any_proto_pos, host_pos, find_nld,
}

-- "GET ", "POST ", "HEAD ", "OPTIONS ", "PUT ", "DELETE ", "CONNECT ", "TRACE " and "PATCH ".
abbrev pub http_methods : List (List ℕ)
http_methods =
    (71 ∷ 69 ∷ 84 ∷ 32 ∷ [])
    ∷ (80 ∷ 79 ∷ 83 ∷ 84 ∷ 32 ∷ [])
    ∷ (72 ∷ 69 ∷ 65 ∷ 68 ∷ 32 ∷ [])
    ∷ (79 ∷ 80 ∷ 84 ∷ 73 ∷ 79 ∷ 78 ∷ 83 ∷ 32 ∷ [])
    ∷ (80 ∷ 85 ∷ 84 ∷ 32 ∷ [])
    ∷ (68 ∷ 69 ∷ 76 ∷ 69 ∷ 84 ∷ 69 ∷ 32 ∷ [])
    ∷ (67 ∷ 79 ∷ 78 ∷ 78 ∷ 69 ∷ 67 ∷ 84 ∷ 32 ∷ [])
    ∷ (84 ∷ 82 ∷ 65 ∷ 67 ∷ 69 ∷ 32 ∷ [])
    ∷ (80 ∷ 65 ∷ 84 ∷ 67 ∷ 72 ∷ 32 ∷ [])
    ∷ []

-- "HTTP/1."
abbrev pub http_1 : List ℕ
http_1 = 72 ∷ 84 ∷ 84 ∷ 80 ∷ 47 ∷ 49 ∷ 46 ∷ []

-- The loop over the table.
unfoldable pub method_in : List (List ℕ) → List ℕ → ℕ → ℕ → Option (Option (List ℕ))
method_in [] d p len = some none
method_in (m ∷ methods) d p len =
    let rest = method_in methods d p len in
    do found ← some (leb (length m) len) &&? mem_eq d p m; if found then some (some m) else rest

-- The method, `none` for NULL.
unfoldable pub http_method_of : List ℕ → ℕ → ℕ → Option (Option (List ℕ))
http_method_of d p len = if leb 4 len then method_in http_methods d p len else some none

abbrev pub is_blank : ℕ → Bool
is_blank b = b == 32 || (b == 9)

abbrev pub is_eol : ℕ → Bool
is_eol b = b == 13 || (b == 10)

-- `for (; len && test(*data); data++, len--)`: where it stops and what is left.
unfoldable pub skip_while : (ℕ → Bool) → List ℕ → ℕ → ℕ → Option (ℕ × ℕ)
skip_while test d p zero = some (p, 0)
skip_while test d p (suc len) =
    let rest = skip_while test d (p + 1) len in
    do b ← get_elem? d p; if test b then rest else some (p, suc len)

-- A word, then a blank, then blanks; the inner `none` is the return of false.
unfoldable pub skip_blanks : List ℕ → ℕ × ℕ → Option (Option (ℕ × ℕ))
skip_blanks d (p, zero) = some none
skip_blanks d (p, suc len) = do
  b ← get_elem? d p
  if is_blank b then (do r ← skip_while is_blank d p (suc len); some (some r)) else some none

unfoldable pub skip_word : List ℕ → ℕ → ℕ → Option (Option (ℕ × ℕ))
skip_word d p len = do r ← skip_while (λ b. not (is_blank b || is_eol b)) d p len; skip_blanks d r

-- What follows the URI.
unfoldable pub is_version : List ℕ → Option (ℕ × ℕ) → Option Bool
is_version d none = some false
is_version d (some (p, len)) =
    if ltb len 10
    then some false
    else do b ← get_elem? d p; if is_eol b then some false else mem_eq d p http_1

unfoldable pub after_method : List ℕ → Option (ℕ × ℕ) → Option Bool
after_method d none = some false
after_method d (some (p, len)) = do r ← skip_word d p len; is_version d r

unfoldable pub after_check : List ℕ → ℕ → ℕ → Option (List ℕ) → Option Bool
after_check d p len none = some false
after_check d p len (some m) = do r ← skip_word d p len; after_method d r

unfoldable pub is_http : List ℕ → ℕ → ℕ → Option Bool
is_http d p len = do m ← http_method_of d p len; after_check d p len m

-- "\nHost:" at `p`, in either case.
unfoldable pub is_host_at : List ℕ → ℕ → Option Bool
is_host_at d p =
    byte_is d p (λ b. b == 10)
    &&? byte_is d (p + 1) (λ b. b == 72 || (b == 104))
    &&? byte_is d (p + 2) (λ b. b == 111 || (b == 79))
    &&? byte_is d (p + 3) (λ b. b == 115 || (b == 83))
    &&? byte_is d (p + 4) (λ b. b == 116 || (b == 84))
    &&? byte_is d (p + 5) (λ b. b == 58)

-- The loop, with the number of places that are left.
unfoldable pub host_from : ℕ → List ℕ → ℕ → Option (Option ℕ)
host_from zero d p = some none
host_from (suc n) d p =
    let rest = host_from n d (p + 1) in
    do here ← is_host_at d p; if here then some (some p) else rest

unfoldable pub find_host_in : List ℕ → ℕ → ℕ → Option (Option ℕ)
find_host_in d p bs = if ltb bs 6 then some none else host_from (bs - 6 + 1) d p

-- `*pHost`, which is found once; it points behind the line feed.
unfoldable pub past_eol : Option ℕ → Option ℕ
past_eol none = none
past_eol (some p) = some (p + 1)

unfoldable pub http_find_host : Option ℕ → List ℕ → ℕ → ℕ → Option (Option ℕ)
http_find_host none d p bs = do found ← find_host_in d p bs; some (past_eol found)
http_find_host (some p_host) d p bs = some (some p_host)

abbrev pub is_digit_byte : ℕ → Bool
is_digit_byte b = leb 48 b && leb b 57

unfoldable pub is_http_reply : List ℕ → ℕ → ℕ → Option Bool
is_http_reply d p len =
    some (ltb 14 len)
    &&? mem_eq d p http_1
    &&? byte_is d (p + 7) (λ b. b == 48 || (b == 49))
    &&? byte_is d (p + 8) (λ b. b == 32)
    &&? byte_is d (p + 9) is_digit_byte
    &&? byte_is d (p + 10) is_digit_byte
    &&? byte_is d (p + 11) is_digit_byte

-- The code plus 5328, which is '0' * 111: for bytes that are no digits the code may be negative.
unfoldable pub reply_code_raised : List ℕ → ℕ → Option ℕ
reply_code_raised d p = do
  a ← get_elem? d (p + 9)
  b ← get_elem? d (p + 10)
  c ← get_elem? d (p + 11)
  some (a * 100 + b * 10 + c)

-- `code == n`.
unfoldable pub reply_code_is : List ℕ → ℕ → ℕ → Option Bool
reply_code_is d p n = do raised ← reply_code_raised d p; some (raised == n + 5328)

-- The value of a header between `p` and `s`: what is written to `buf`, with its final zero.
unfoldable pub extract_value : List ℕ → ℕ → ℕ × ℕ → ℕ × ℕ → Option (Option (List ℕ))
extract_value d len_buf (p, left) (s, rest) =
    if ltb p s then (do v ← copy_host d p (s - p) len_buf; some (some v)) else some none

unfoldable pub extract_at : List ℕ → ℕ → ℕ → ℕ → ℕ → Option ℕ → Option (Option (List ℕ))
extract_at d p len header_len len_buf none = some none
extract_at d p len header_len len_buf (some at) = do
  r ← skip_while is_blank d (at + header_len) (p + len - (at + header_len))
  s ← skip_while (λ b. not (is_eol b || is_blank b)) d r.0 r.1
  extract_value d len_buf r s

unfoldable pub http_extract_header : List ℕ → ℕ → ℕ → List ℕ → ℕ → Option (Option (List ℕ))
http_extract_header d p len header len_buf = do
  at ← strncasestr d p header len
  extract_at d p len (length header) len_buf at

-- "\nHost:"
abbrev pub host_header : List ℕ
host_header = 10 ∷ 72 ∷ 111 ∷ 115 ∷ 116 ∷ 58 ∷ []

unfoldable pub http_extract_host : List ℕ → ℕ → ℕ → ℕ → Option (Option (List ℕ))
http_extract_host d p len len_host = http_extract_header d p len host_header len_host
