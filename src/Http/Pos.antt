-- ===== src/Http/Pos.antt =====
-- nfq2/protocol.c, `HttpPos`, `ResolvePos` and `ResolveMultiPos`: positions in messages.
use zapret.Base.{
  ℕ, ◌+◌, ◌-◌, List, [], ◌∷◌, Option, none, some, Bool, true, false, not, ◌&&◌, ◌||◌, ltb, leb,
  ◌==◌, if◌then◌else◌, get_elem?,
}
use zapret.Memory.{◌>>=◌}
use zapret.Strings.{unique}
use zapret.Position.{
  Marker, host, host_end, host_sld, host_midsld, host_endsld, http_method, ℤ, shift, check_pos,
  any_proto_pos, host_pos, tls_pos,
}
use zapret.Http.{is_eol, http_find_host, skip_while}

abbrev pub is_upper : ℕ → Bool
is_upper b = leb 65 b && leb b 90

unfoldable pub skip_eol : List ℕ → ℕ → Option ℕ
skip_eol d p = do b ← get_elem? d p; some (if is_eol b then p + 1 else p)

-- At most nine capital letters: where they end, and how many of the nine were not used.
unfoldable pub method_pos : ℤ → List ℕ → ℕ → ℕ → Option (Option ℕ)
method_pos k d p sz = if ltb sz 12 then some none else do
  m1 ← skip_eol d p
  m ← skip_eol d m1
  r ← skip_while is_upper d m 9
  b ← get_elem? d r.0
  some (if ltb (9 - r.1) 3 || not (b == 32) then none else check_pos sz (shift (m - p) k))

unfoldable pub is_host : Marker → Bool
is_host host = true
is_host other = false

-- The host begins at `at`, behind "Host:".
unfoldable pub at_host : Marker → ℤ → List ℕ → ℕ → ℕ → ℕ → Option (Option ℕ)
at_host m k d p sz at = do
  b ← get_elem? d at
  let from = if b == 32 || (b == 9) then at + 1 else at
  r ← skip_while (λ c. not (is_eol c)) d from (p + sz - from)
  host_pos m k d p sz (from - p) (if is_host m then 0 else r.0 - from)

unfoldable pub found_host_pos : Marker → ℤ → List ℕ → ℕ → ℕ → Option ℕ → Option (Option ℕ)
found_host_pos m k d p sz none = some none
found_host_pos m k d p sz (some p_host) =
    if ltb (p_host - p + 7) sz then at_host m k d p sz (p_host + 5) else some none

unfoldable pub by_host : Marker → ℤ → List ℕ → ℕ → ℕ → Option (Option ℕ)
by_host m k d p sz = do found ← http_find_host none d p sz; found_host_pos m k d p sz found

unfoldable pub http_pos : Marker → ℤ → List ℕ → ℕ → ℕ → Option (Option ℕ)
http_pos http_method k d p sz = method_pos k d p sz
http_pos host k d p sz = by_host host k d p sz
http_pos host_end k d p sz = by_host host_end k d p sz
http_pos host_sld k d p sz = by_host host_sld k d p sz
http_pos host_midsld k d p sz = by_host host_midsld k d p sz
http_pos host_endsld k d p sz = by_host host_endsld k d p sz
http_pos other k d p sz = some (any_proto_pos other k sz)

-- The payloads that positions tell apart.
pub data Payload : Type 0 where
  http_req tls_client_hello other_payload : Payload

unfoldable pub resolve_pos : Payload → List ℕ → ℕ → ℕ → Marker × ℤ → Option (Option ℕ)
resolve_pos http_req d p sz (m, k) = http_pos m k d p sz
resolve_pos tls_client_hello d p sz (m, k) = tls_pos m k d p sz
resolve_pos other_payload d p sz (m, k) = some (any_proto_pos m k sz)

-- The loop over the markers: the positions that were found.
unfoldable pub keep_found : Option ℕ → List ℕ → List ℕ
keep_found none rest = rest
keep_found (some offset) rest = offset ∷ rest

unfoldable pub resolve_all : Payload → List ℕ → ℕ → ℕ → List (Marker × ℤ) → Option (List ℕ)
resolve_all l7 d p sz [] = some []
resolve_all l7 d p sz (sp ∷ sps) = do
  offset ← resolve_pos l7 d p sz sp
  rest ← resolve_all l7 d p sz sps
  some (keep_found offset rest)

-- `qsort` of the C library is a parameter.
unfoldable pub resolve_multi_pos :
    (List ℕ → List ℕ) → Payload → List ℕ → ℕ → ℕ → List (Marker × ℤ) → Option (List ℕ)
resolve_multi_pos qsort l7 d p sz sps = do
  offsets ← resolve_all l7 d p sz sps
  some (unique (qsort offsets))
