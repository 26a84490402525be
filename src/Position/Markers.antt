-- ===== src/Position/Markers.antt =====
-- Every position that a marker resolves to lies inside the message, and finding it reads only the
-- memory.
use zapret.Base.{ℕ, ◌+◌, ◌-◌, ◌≤◌, ◌<◌, refl, List, Option, none, some, true, arith, length}
use zapret.Memory.{◌>>=◌}
use zapret.Memory.Safe.{Returns, Any, bind-Returns}
use zapret.Tls.{find_ext, find_ext_len, advance_to_host_in_sni}
use zapret.Tls.Bounds.{Finds, IsExt}
use zapret.Tls.Hello.{find_ext-Returns, find_ext_len-Returns, Lies, sni-Returns}
use zapret.Position.{
  Marker, abs, host, host_end, host_sld, host_midsld, host_endsld, http_method, ext_len, sni_ext, ℤ,
  pos, negsuc, any_proto_pos, host_pos, sni_host_pos, sni_pos, ext_len_pos, by_sni, tls_pos,
}
use zapret.Position.Bounds.{Within, check_pos-Within, host_sld_pos-Returns}

pub host_pos-Returns :
    (m : Marker) (k : ℤ) (d : List ℕ) (p sz offset_host len_host : ℕ)
    → 0 < length d
    → p + offset_host + len_host ≤ length d
    → Returns (Within sz) (host_pos m k d p sz offset_host len_host)
unfolding host_pos
host_pos-Returns host k d p sz o l some_byte fits = (_, refl, check_pos-Within sz _)
host_pos-Returns host_end k d p sz o l some_byte fits = (_, refl, check_pos-Within sz _)
host_pos-Returns host_sld k d p sz o l some_byte fits =
    host_sld_pos-Returns host_sld k d p sz o l some_byte fits
host_pos-Returns host_midsld k d p sz o l some_byte fits =
    host_sld_pos-Returns host_midsld k d p sz o l some_byte fits
host_pos-Returns host_endsld k d p sz o l some_byte fits =
    host_sld_pos-Returns host_endsld k d p sz o l some_byte fits
host_pos-Returns abs k d p sz o l some_byte fits = (none, refl, tt)
host_pos-Returns http_method k d p sz o l some_byte fits = (none, refl, tt)
host_pos-Returns ext_len k d p sz o l some_byte fits = (none, refl, tt)
host_pos-Returns sni_ext k d p sz o l some_byte fits = (none, refl, tt)

sni_host_pos-Returns :
    (m : Marker) (k : ℤ) (d : List ℕ) (p sz from : ℕ) (sni : Option (ℕ × ℕ × ℕ))
    → 0 < length d
    → p ≤ from
    → Lies d from sni
    → Returns (Within sz) (sni_host_pos m k d p sz sni)
unfolding sni_host_pos
sni_host_pos-Returns m k d p sz from none some_byte low lies = (none, refl, tt)
sni_host_pos-Returns m k d p sz from (some (ext, elen, len)) some_byte low lies =
    host_pos-Returns m k d p sz (ext - p) len some_byte (omega (arith, lies.0, lies.1))

in_sni-Returns :
    (m : Marker) (k : ℤ) (d : List ℕ) (p sz ext elen : ℕ)
    → p + sz ≤ length d
    → IsExt d p sz 0 ext elen
    → Returns (Within sz) (advance_to_host_in_sni d ext elen >>= sni_host_pos m k d p sz)
in_sni-Returns m k d p sz ext elen fits f =
    bind-Returns (Lies d ext) _ (advance_to_host_in_sni d ext elen) _
      (sni-Returns d ext elen (omega (arith, f.inside)))
      (λ sni _ lies.
        sni_host_pos-Returns m k d p sz ext sni (omega (arith, f.inside, f.starts))
          (omega (arith, f.after, f.starts)) lies)

sni_pos-Returns :
    (m : Marker) (k : ℤ) (d : List ℕ) (p sz : ℕ) (r : Option (ℕ × ℕ))
    → p + sz ≤ length d
    → Finds d p sz 0 r
    → Returns (Within sz) (sni_pos m k d p sz r)
unfolding sni_pos
sni_pos-Returns m k d p sz none fits f = (none, refl, tt)
sni_pos-Returns sni_ext k d p sz (some (ext, elen)) fits f = (_, refl, check_pos-Within sz _)
sni_pos-Returns abs k d p sz (some (ext, elen)) fits f = in_sni-Returns abs k d p sz ext elen fits f
sni_pos-Returns host k d p sz (some (ext, elen)) fits f =
    in_sni-Returns host k d p sz ext elen fits f
sni_pos-Returns host_end k d p sz (some (ext, elen)) fits f =
    in_sni-Returns host_end k d p sz ext elen fits f
sni_pos-Returns host_sld k d p sz (some (ext, elen)) fits f =
    in_sni-Returns host_sld k d p sz ext elen fits f
sni_pos-Returns host_midsld k d p sz (some (ext, elen)) fits f =
    in_sni-Returns host_midsld k d p sz ext elen fits f
sni_pos-Returns host_endsld k d p sz (some (ext, elen)) fits f =
    in_sni-Returns host_endsld k d p sz ext elen fits f
sni_pos-Returns http_method k d p sz (some (ext, elen)) fits f =
    in_sni-Returns http_method k d p sz ext elen fits f
sni_pos-Returns ext_len k d p sz (some (ext, elen)) fits f =
    in_sni-Returns ext_len k d p sz ext elen fits f

by_sni-Returns :
    (m : Marker) (k : ℤ) (d : List ℕ) (p sz : ℕ)
    → p + sz ≤ length d
    → Returns (Within sz) (by_sni m k d p sz)
unfolding by_sni
by_sni-Returns m k d p sz fits =
    bind-Returns (Finds d p sz 0) _ (find_ext d p sz 0 true) _ (find_ext-Returns d p sz 0 true fits)
      (λ r _ f. sni_pos-Returns m k d p sz r fits f)

pub any_proto_pos-Within : (m : Marker) (k : ℤ) (sz : ℕ) → Within sz (any_proto_pos m k sz)
unfolding any_proto_pos
any_proto_pos-Within abs (pos k) sz = check_pos-Within sz _
any_proto_pos-Within abs (negsuc k) sz = check_pos-Within sz _
any_proto_pos-Within host k sz = tt
any_proto_pos-Within host_end k sz = tt
any_proto_pos-Within host_sld k sz = tt
any_proto_pos-Within host_midsld k sz = tt
any_proto_pos-Within host_endsld k sz = tt
any_proto_pos-Within http_method k sz = tt
any_proto_pos-Within ext_len k sz = tt
any_proto_pos-Within sni_ext k sz = tt

ext_len_pos-Within : (k : ℤ) (sz : ℕ) (o : Option ℕ) → Within sz (ext_len_pos k sz o)
unfolding ext_len_pos
ext_len_pos-Within k sz none = tt
ext_len_pos-Within k sz (some offset) = check_pos-Within sz _

-- For any marker and any message of `sz` bytes, all of which may be read, resolving the marker
-- reads only the memory, the search for a domain reads nothing before the host, and a position that
-- it finds is below `sz`.
pub tls_pos-Returns :
    (m : Marker) (k : ℤ) (d : List ℕ) (p sz : ℕ)
    → p + sz ≤ length d
    → Returns (Within sz) (tls_pos m k d p sz)
unfolding tls_pos
tls_pos-Returns host k d p sz fits = by_sni-Returns host k d p sz fits
tls_pos-Returns host_end k d p sz fits = by_sni-Returns host_end k d p sz fits
tls_pos-Returns host_sld k d p sz fits = by_sni-Returns host_sld k d p sz fits
tls_pos-Returns host_midsld k d p sz fits = by_sni-Returns host_midsld k d p sz fits
tls_pos-Returns host_endsld k d p sz fits = by_sni-Returns host_endsld k d p sz fits
tls_pos-Returns sni_ext k d p sz fits = by_sni-Returns sni_ext k d p sz fits
tls_pos-Returns ext_len k d p sz fits =
    bind-Returns Any _ (find_ext_len d p sz) _ (find_ext_len-Returns d p sz fits)
      (λ o _ _. (_, refl, ext_len_pos-Within k sz o))
tls_pos-Returns abs k d p sz fits = (_, refl, any_proto_pos-Within abs k sz)
tls_pos-Returns http_method k d p sz fits = (_, refl, any_proto_pos-Within http_method k sz)
