-- ===== src/Tls/Hello.antt =====
-- The tests of a TLS record for a hello message, the search in it, and the host name.
use zapret.Base.{
  ℕ, zero, suc, ◌+◌, ◌-◌, ◌≤◌, ◌<◌, ◌≡◌, refl, List, [], ◌∷◌, ◌++◌, Option, none, some, Bool, true,
  false, ltb, leb, ◌==◌, if◌then◌else◌, arith, get_elem?, length, length-append, Bool-cases, inl,
  inr, leb→le,
}
use zapret.Memory.Safe.{
  Returns, Any, some-Returns, bind-Returns, branch-Returns, get_elem?-Returns, pntoh16-Returns,
  weaken-Returns,
}
use zapret.Bytes.{pntoh16}
use zapret.Tls.{
  record_len, is_record_full, and_then, byte, is_type, hello_bytes, is_handshake_hello,
  record_bytes, is_hello, find_ext, advance_to_host_in_sni, copy_lower, copy_host, host_at,
  extract_host_from_ext, hello_extract_host, tolower, find_ext_len,
  find_ext_len_offset_in_handshake,
}
use zapret.Tls.Bounds.{Finds, widen, offset-Returns, full_if-Returns, find_ext_in_handshake-Returns}

-- A test that holds tells this.
abbrev Tells : Type 0 → Bool → Type 0
Tells X b = b ≡ true → X

and_then-Returns :
    (X : Type 0) (left : Bool) (right : Option Bool)
    → (left ≡ true → Returns (Tells X) right)
    → Returns (Tells X) (and_then left right)
and_then-Returns X true right h = h refl
and_then-Returns X false right h = (false, refl, λ e. absurd (cc))

byte-Returns : (d : List ℕ) (p : ℕ) (test : ℕ → Bool) → p < length d → Returns Any (byte d p test)
byte-Returns d p test h =
    bind-Returns Any Any (get_elem? d p) (λ b. some (test b)) (get_elem?-Returns d p h)
      (λ b _ _. some-Returns Any (test b) tt)

hello_bytes-Returns :
    (d : List ℕ) (p len type : ℕ) (partial : Bool)
    → 6 ≤ len
    → p + len ≤ length d
    → Returns (Tells (6 ≤ len)) (hello_bytes d p len type partial)
unfolding hello_bytes
hello_bytes-Returns d p len type partial six fits =
    bind-Returns Any _ (byte d p (is_type type)) _ (byte-Returns d p _ (omega arith)) (λ kind _ _.
      and_then-Returns _ kind _ (λ _.
        bind-Returns Any _ (byte d (p + 4) (λ b. b == 3)) _ (byte-Returns d (p + 4) _ (omega arith))
          (λ major _ _. and_then-Returns _ major _ (λ _.
            bind-Returns Any _ (byte d (p + 5) (λ b. leb b 3)) _
              (byte-Returns d (p + 5) _ (omega arith))
              (λ minor _ _. and_then-Returns _ minor _ (λ _.
                weaken-Returns (λ b _ _. six)
                  (full_if-Returns d p len partial (inr (omega arith)))))))))

pub is_handshake_hello-Returns :
    (d : List ℕ) (p len type : ℕ) (partial : Bool)
    → p + len ≤ length d
    → Returns (Tells (6 ≤ len)) (is_handshake_hello d p len type partial)
unfolding is_handshake_hello
is_handshake_hello-Returns d p len type partial fits =
    and_then-Returns _ (leb 6 len) _
      (λ six. hello_bytes-Returns d p len type partial (leb→le 6 len six) fits)

record_len-Returns : (d : List ℕ) (p : ℕ) → p + 5 ≤ length d → Returns (λ n. 5 ≤ n) (record_len d p)
unfolding record_len
record_len-Returns d p h =
    bind-Returns Any _ (pntoh16 d (p + 3)) _ (pntoh16-Returns d (p + 3) (omega arith))
      (λ n _ _. some-Returns (λ n. 5 ≤ n) (n + 5) (omega arith))

record_full_if-Returns :
    (d : List ℕ) (p len : ℕ) (partial : Bool)
    → p + 5 ≤ length d
    → Returns Any (if partial then some true else is_record_full d p len)
unfolding is_record_full
record_full_if-Returns d p len true fits = some-Returns Any true tt
record_full_if-Returns d p len false fits =
    bind-Returns _ Any (record_len d p) _ (record_len-Returns d p fits)
      (λ n _ _. some-Returns Any (leb n len) tt)

record_bytes-Returns :
    (d : List ℕ) (p len type : ℕ) (partial : Bool)
    → 6 ≤ len
    → p + len ≤ length d
    → Returns (Tells (6 ≤ len - 5)) (record_bytes d p len type partial)
unfolding record_bytes
record_bytes-Returns d p len type partial six fits =
    bind-Returns Any _ (byte d p (λ b. b == 0x16)) _ (byte-Returns d p _ (omega arith))
      (λ content _ _. and_then-Returns _ content _ (λ _.
        bind-Returns Any _ (byte d (p + 1) (λ b. b == 3)) _ (byte-Returns d (p + 1) _ (omega arith))
          (λ major _ _. and_then-Returns _ major _ (λ _.
            bind-Returns Any _ (byte d (p + 2) (λ b. leb b 3)) _
              (byte-Returns d (p + 2) _ (omega arith))
              (λ minor _ _. and_then-Returns _ minor _ (λ _.
                bind-Returns Any _ (if partial then some true else is_record_full d p len) _
                  (record_full_if-Returns d p len partial (omega arith))
                  (λ full _ _. and_then-Returns _ full _ (λ _.
                    is_handshake_hello-Returns d (p + 5) (len - 5) type partial
                      (omega arith)))))))))

-- The test of a record for a hello message reads only its `len` bytes, all of which may be read;
-- when it holds there are at least eleven.
pub is_hello-Returns :
    (d : List ℕ) (p len type : ℕ) (partial : Bool)
    → p + len ≤ length d
    → Returns (λ b. b ≡ true → 6 ≤ len - 5) (is_hello d p len type partial)
unfolding is_hello
is_hello-Returns d p len type partial fits =
    and_then-Returns _ (leb 6 len) _
      (λ six. record_bytes-Returns d p len type partial (leb→le 6 len six) fits)

-- The search in a record of `len` bytes, all of which may be read, returns nothing or an extension
-- of the type sought inside it, whether partial messages are accepted or not.
pub find_ext-Returns :
    (d : List ℕ) (p len type : ℕ) (partial : Bool)
    → p + len ≤ length d
    → Returns (Finds d p len type) (find_ext d p len type partial)
unfolding find_ext
find_ext-Returns d p len type partial fits =
    bind-Returns (λ b. b ≡ true → 6 ≤ len - 5) _ (is_hello d p len 0 partial) _
      (is_hello-Returns d p len 0 partial fits)
      (λ hello _ long.
        branch-Returns (Finds d p len type) hello _ _
          (λ yes_hello.
            let six : 6 ≤ len - 5 = long yes_hello in
            bind-Returns (λ n. 5 ≤ n) _ (record_len d p) _ (record_len-Returns d p (omega arith))
              (λ reclen _ five.
                let len' : ℕ = if ltb reclen len then reclen else len in
                let upper : len' ≤ len = ground arith in
                let lower : 5 ≤ len' = ground arith in
                weaken-Returns
                  (λ r. widen d (p + 5) (len' - 5) p len type r (omega arith) (omega arith))
                  (find_ext_in_handshake-Returns d (p + 5) (len' - 5) type partial (omega arith)
                    (inr (omega arith)))))
          (λ _. some-Returns _ none tt))

-- What is written for the host: no more than the size of its buffer.
abbrev pub Fits : ℕ → Option (List ℕ) → Type 0
Fits len_host none = Unit {0}
Fits len_host (some name) = length name ≤ len_host

copy_lower-Returns :
    (d : List ℕ) (p n : ℕ) → p + n ≤ length d → Returns (λ l. length l ≡ n) (copy_lower d p n)
unfolding copy_lower
copy_lower-Returns d p zero h = ([], refl, refl)
copy_lower-Returns d p (suc n) h =
    bind-Returns Any _ (get_elem? d p) _ (get_elem?-Returns d p (omega arith)) (λ b _ _.
      bind-Returns (λ l. length l ≡ n) _ (copy_lower d (p + 1) n) _
        (copy_lower-Returns d (p + 1) n (omega arith))
        (λ rest _ e. some-Returns (λ l. length l ≡ suc n) (tolower b ∷ rest) (omega arith)))

pub copy_host-Returns :
    (d : List ℕ) (ext slen len_host : ℕ)
    → ext + slen ≤ length d
    → Returns (λ l. length l ≤ len_host) (copy_host d ext slen len_host)
unfolding copy_host
copy_host-Returns d ext slen zero h = some-Returns _ [] (omega arith)
copy_host-Returns d ext slen (suc room) h =
    let n : ℕ = if leb (suc room) slen then room else slen in
    let inside : ext + n ≤ length d = ground arith in
    let short : n ≤ room = ground arith in
    bind-Returns (λ l. length l ≡ n) _ (copy_lower d ext n) _ (copy_lower-Returns d ext n inside)
      (λ name _ e.
        some-Returns (λ l. length l ≤ suc room) (name ++ 0 ∷ [])
          (omega (arith, length-append name (0 ∷ []))))

-- Where the name lies: in the memory, and not before `from`.
abbrev pub Lies : List ℕ → ℕ → Option (ℕ × ℕ × ℕ) → Type 0
Lies d from none = Unit {0}
Lies d from (some (ext, elen, slen)) = (from ≤ ext) × (ext + slen ≤ length d)

name-Lies :
    (d : List ℕ) (ext elen slen : ℕ)
    → 5 ≤ elen
    → ext + elen ≤ length d
    → Lies d ext (if leb slen (elen - 5) then some (ext + 5, elen - 5, slen) else none)
name-Lies d ext elen slen five fits = elim (Bool-cases (leb slen (elen - 5))) [
  | inl whole ↦ rw whole (omega arith, omega (arith, leb→le slen (elen - 5) whole))
  | inr cut ↦ rw cut tt
]

pub sni-Returns :
    (d : List ℕ) (ext elen : ℕ)
    → ext + elen ≤ length d
    → Returns (Lies d ext) (advance_to_host_in_sni d ext elen)
unfolding advance_to_host_in_sni
sni-Returns d ext elen fits =
    branch-Returns (Lies d ext) (ltb elen 5) _ _ (λ _. some-Returns _ none tt)
      (λ room.
        let five : 5 ≤ elen = ground arith in
        bind-Returns Any _ (get_elem? d (ext + 2)) _ (get_elem?-Returns d (ext + 2) (omega arith))
          (λ kind _ _.
            branch-Returns (Lies d ext) (kind == 0) _ _
              (λ _.
                bind-Returns Any _ (pntoh16 d (ext + 3)) _
                  (pntoh16-Returns d (ext + 3) (omega arith))
                  (λ slen _ _. (_, refl, name-Lies d ext elen slen five fits)))
              (λ _. some-Returns _ none tt)))

host_at-Returns :
    (d : List ℕ) (len_host from : ℕ) (sni : Option (ℕ × ℕ × ℕ))
    → Lies d from sni
    → Returns (Fits len_host) (host_at d len_host sni)
unfolding host_at
host_at-Returns d len_host from none lies = some-Returns _ none tt
host_at-Returns d len_host from (some (ext, elen, slen)) lies =
    bind-Returns (λ l. length l ≤ len_host) _ (copy_host d ext slen len_host) _
      (copy_host-Returns d ext slen len_host lies.1)
      (λ name _ short. some-Returns (Fits len_host) (some name) short)

from_ext-Returns :
    (d : List ℕ) (p len len_host : ℕ) (r : Option (ℕ × ℕ))
    → p + len ≤ length d
    → Finds d p len 0 r
    → Returns (Fits len_host) (extract_host_from_ext d len_host r)
unfolding extract_host_from_ext
from_ext-Returns d p len len_host none fits f = some-Returns _ none tt
from_ext-Returns d p len len_host (some (ext, elen)) fits f =
    bind-Returns (Lies d ext) _ (advance_to_host_in_sni d ext elen) _
      (sni-Returns d ext elen (omega (arith, f.inside)))
      (λ sni _ lies. host_at-Returns d len_host ext sni lies)

-- The host of a hello record of `len` bytes, all of which may be read, is extracted without a read
-- outside the memory, and what is written to the buffer, the final zero included, fits its size.
pub hello_extract_host-Returns :
    (d : List ℕ) (p len len_host : ℕ) (partial : Bool)
    → p + len ≤ length d
    → Returns (Fits len_host) (hello_extract_host d p len len_host partial)
unfolding hello_extract_host
hello_extract_host-Returns d p len len_host partial fits =
    bind-Returns (Finds d p len 0) _ (find_ext d p len 0 partial) _
      (find_ext-Returns d p len 0 partial fits)
      (λ r _ f. from_ext-Returns d p len len_host r fits f)

-- The offset of the extensions' length in a record reads only the record.
pub find_ext_len-Returns :
    (d : List ℕ) (p len : ℕ) → p + len ≤ length d → Returns Any (find_ext_len d p len)
unfolding find_ext_len
find_ext_len-Returns d p len fits =
    branch-Returns Any (ltb len 5) _ _ (λ _. some-Returns Any none tt)
      (λ room.
        let five : 5 ≤ len = ground arith in
        bind-Returns _ Any (find_ext_len_offset_in_handshake d (p + 5) (len - 5)) _
          (offset-Returns d (p + 5) (len - 5) (omega arith)) (λ off _ _. some-Returns Any _ tt))
