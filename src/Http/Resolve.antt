-- ===== src/Http/Resolve.antt =====
-- Positions in messages lie inside them, and a list of them is in order and has no duplicates.
use zapret.Base.{
  ℕ, ◌+◌, ◌-◌, ◌≤◌, ◌<◌, refl, List, Option, none, some, Bool, true, false, ◌||◌, ltb, ◌==◌,
  if◌then◌else◌, arith, get_elem?, length,
}
use zapret.Memory.Safe.{Returns, Any, bind-Returns, branch-Returns, get_elem?-Returns}
use zapret.Strings.Search.{strncasestr-FirstIn, FirstIn}
use zapret.Position.{
  Marker, abs, host, host_end, host_sld, host_midsld, host_endsld, http_method, ext_len, sni_ext, ℤ,
}
use zapret.Position.Bounds.{Within, check_pos-Within}
use zapret.Position.Markers.{host_pos-Returns, any_proto_pos-Within, tls_pos-Returns}
use zapret.Http.{http_find_host, past_eol, skip_while, host_header, http_find_host}
use zapret.Http.Bounds.{Rest, skip_while-Returns}
use zapret.Http.Header.{find_host_in-strncasestr}
use zapret.Http.Pos.{
  skip_eol, is_upper, method_pos, is_host, at_host, found_host_pos, by_host, http_pos, Payload,
  http_req, tls_client_hello, other_payload, resolve_pos,
}

skip_eol-Returns :
    (d : List ℕ) (p : ℕ) → p < length d → Returns (λ q. (p ≤ q) × (q ≤ p + 1)) (skip_eol d p)
unfolding skip_eol
skip_eol-Returns d p h =
    bind-Returns Any _ (get_elem? d p) _ (get_elem?-Returns d p h)
      (λ b _ _. (_, refl, (ground arith, ground arith)))

if-Within : (b : Bool) (sz : ℕ) (o : Option ℕ) → Within sz o → Within sz (if b then none else o)
if-Within true sz o h = tt
if-Within false sz o h = h

method_pos-Returns :
    (k : ℤ) (d : List ℕ) (p sz : ℕ) → p + sz ≤ length d → Returns (Within sz) (method_pos k d p sz)
unfolding method_pos
method_pos-Returns k d p sz fits =
    branch-Returns (Within sz) (ltb sz 12) _ _ (λ _. (none, refl, tt))
      (λ long.
        let room : 12 ≤ sz = ground arith in
        bind-Returns _ _ (skip_eol d p) _ (skip_eol-Returns d p (omega arith)) (λ m1 _ (a1, b1).
          bind-Returns _ _ (skip_eol d m1) _ (skip_eol-Returns d m1 (omega arith)) (λ m _ (a2, b2).
            bind-Returns (Rest d m (m + 9)) _ (skip_while is_upper d m 9) _
              (skip_while-Returns is_upper d m 9 (m + 9) refl (omega arith))
              (λ r _ (from, to, inside).
                bind-Returns Any _ (get_elem? d r.0) _ (get_elem?-Returns d r.0 (omega arith))
                  (λ b _ _. (_, refl, if-Within _ sz _ (check_pos-Within sz _)))))))

-- A host header that was found: "Host:" lies in the message.
HostIn : ℕ → ℕ → Option ℕ → Type 0
HostIn p sz none = Unit {0}
HostIn p sz (some q) = (p ≤ q) × (q + 5 ≤ p + sz)

past_eol-HostIn :
    (d : List ℕ) (p sz : ℕ) (o : Option ℕ)
    → FirstIn d p (p + sz) host_header o
    → HostIn p sz (past_eol o)
unfolding past_eol HostIn
past_eol-HostIn d p sz none f = tt
past_eol-HostIn d p sz (some q) (from, inside, same, first) = (omega arith, omega arith)

http_find_host-Returns :
    (d : List ℕ) (p sz : ℕ) → p + sz ≤ length d → Returns (HostIn p sz) (http_find_host none d p sz)
unfolding http_find_host
http_find_host-Returns d p sz fits = rw (find_host_in-strncasestr d p sz fits) (
    bind-Returns (FirstIn d p (p + sz) host_header) _ _ _ (strncasestr-FirstIn d p sz 10 _ fits)
      (λ o _ f. (past_eol o, refl, past_eol-HostIn d p sz o f)))

at_host-Returns :
    (m : Marker) (k : ℤ) (d : List ℕ) (p sz at : ℕ)
    → p ≤ at
    → at + 2 ≤ p + sz
    → p + sz ≤ length d
    → Returns (Within sz) (at_host m k d p sz at)
unfolding at_host
at_host-Returns m k d p sz at low high fits =
    bind-Returns Any _ (get_elem? d at) _ (get_elem?-Returns d at (omega arith)) (λ b _ _.
      let from : ℕ = if b == 32 || (b == 9) then at + 1 else at in
      let lower : at ≤ from = ground arith in
      let upper : from ≤ at + 1 = ground arith in
      bind-Returns (Rest d from (p + sz)) _ (skip_while _ d from (p + sz - from)) _
        (skip_while-Returns _ d from (p + sz - from) (p + sz) (omega arith) fits)
        (λ r _ (r_from, r_to, r_fits).
          let len : ℕ = if is_host m then 0 else r.0 - from in
          let short : len ≤ r.0 - from = ground arith in
          host_pos-Returns m k d p sz (from - p) len (omega arith) (omega arith)))

found_host_pos-Returns :
    (m : Marker) (k : ℤ) (d : List ℕ) (p sz : ℕ) (o : Option ℕ)
    → HostIn p sz o
    → p + sz ≤ length d
    → Returns (Within sz) (found_host_pos m k d p sz o)
unfolding found_host_pos HostIn
found_host_pos-Returns m k d p sz none h fits = (none, refl, tt)
found_host_pos-Returns m k d p sz (some q) (from, inside) fits =
    branch-Returns (Within sz) (ltb (q - p + 7) sz) _ _
      (λ room.
        let more : q - p + 7 < sz = ground arith in
        at_host-Returns m k d p sz (q + 5) (omega arith) (omega arith) fits)
      (λ _. (none, refl, tt))

by_host-Returns :
    (m : Marker) (k : ℤ) (d : List ℕ) (p sz : ℕ)
    → p + sz ≤ length d
    → Returns (Within sz) (by_host m k d p sz)
unfolding by_host
by_host-Returns m k d p sz fits =
    bind-Returns (HostIn p sz) _ (http_find_host none d p sz) _ (http_find_host-Returns d p sz fits)
      (λ o _ h. found_host_pos-Returns m k d p sz o h fits)

-- For any marker and any message of `sz` bytes, all of which may be read, resolving the marker in a
-- request reads only the memory, the search for a domain reads nothing before the host, and a
-- position that it finds is below `sz`.
pub http_pos-Returns :
    (m : Marker) (k : ℤ) (d : List ℕ) (p sz : ℕ)
    → p + sz ≤ length d
    → Returns (Within sz) (http_pos m k d p sz)
unfolding http_pos
http_pos-Returns host k d p sz fits = by_host-Returns host k d p sz fits
http_pos-Returns host_end k d p sz fits = by_host-Returns host_end k d p sz fits
http_pos-Returns host_sld k d p sz fits = by_host-Returns host_sld k d p sz fits
http_pos-Returns host_midsld k d p sz fits = by_host-Returns host_midsld k d p sz fits
http_pos-Returns host_endsld k d p sz fits = by_host-Returns host_endsld k d p sz fits
http_pos-Returns http_method k d p sz fits = method_pos-Returns k d p sz fits
http_pos-Returns abs k d p sz fits = (_, refl, any_proto_pos-Within abs k sz)
http_pos-Returns ext_len k d p sz fits = (_, refl, any_proto_pos-Within ext_len k sz)
http_pos-Returns sni_ext k d p sz fits = (_, refl, any_proto_pos-Within sni_ext k sz)

pub resolve_pos-Returns :
    (l7 : Payload) (d : List ℕ) (p sz : ℕ) (sp : Marker × ℤ)
    → p + sz ≤ length d
    → Returns (Within sz) (resolve_pos l7 d p sz sp)
unfolding resolve_pos
resolve_pos-Returns http_req d p sz (m, k) fits = http_pos-Returns m k d p sz fits
resolve_pos-Returns tls_client_hello d p sz (m, k) fits = tls_pos-Returns m k d p sz fits
resolve_pos-Returns other_payload d p sz (m, k) fits = (_, refl, any_proto_pos-Within m k sz)
