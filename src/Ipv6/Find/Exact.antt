-- ===== src/Ipv6/Find/Exact.antt =====
-- The search for a header and the walk over all headers go the same way: the search is total, and
-- finds what the walk ends at.
use zapret.Base.{
  ℕ, zero, suc, ◌+◌, ◌≤◌, ◌<◌, ◌≡◌, ◌≢◌, refl, sym, ap, ◌∙◌, subst, ◌⊎◌, List, Option, none, some,
  true, false, Bool, ltb, ◌==◌, if◌then◌else◌, arith, get_elem?, length, Bool-cases, inl, inr,
}
use zapret.Memory.{◌>>=◌, Laws.bind-some}
use zapret.Memory.Safe.{Returns}
use zapret.Bytes.{pntoh16}
use zapret.Track.Keeps.{some-injective}
use zapret.Ipv6.{
  Skip, Header, sized, fragment, auth, no_next, payload, header_of, header_len, set_fragment,
  is_payload, stops, skip_header, skip_headers, skip_sized, skip_rest, proto_skip_ipv6,
}
use zapret.Ipv6.Bounds.{Stays, proto_skip_ipv6-Returns}
use zapret.Ipv6.Find.{find_rest, find_sized, find_headers, proto_find_ip6_exthdr}

-- Where the walk over all headers stopped, no byte was left, or the fragment was not the first.
abbrev pub Stopped : Skip → Type 0
Stopped s = (s.len ≡ 0) ⊎ ((s.frag ≡ true) × (s.frag_off ≢ 0))

abbrev pub Goes : Skip → Type 0
Goes s = (0 < s.len) × ((s.frag ≡ false) ⊎ (s.frag_off ≡ 0))

stops-Stopped : (s : Skip) → stops s ≡ true → Stopped s
unfolding stops
stops-Stopped s e = elim (Bool-cases (s.len == 0)) [
  | inl over ↦ inl (ground arith)
  | inr left ↦ inr (ground arith, ground arith)
]

stops-Goes : (s : Skip) → stops s ≡ false → Goes s
unfolding stops
stops-Goes s e = elim (Bool-cases s.frag) [
  | inl cut ↦ (ground arith, inr (ground arith))
  | inr whole ↦ (ground arith, inl whole)
]

-- How an answer of the search agrees with what the walk over all headers leaves.
abbrev Match : ℕ → Option ℕ → Skip → Type 0
Match proto none r = (r.proto_type ≢ proto) ⊎ Stopped r
Match proto (some q) r = (r.data_at ≡ q) × (r.proto_type ≡ proto) × Goes r

abbrev Agree : ℕ → (ℕ → Skip → Option Skip) → (ℕ → Skip → Option (Option ℕ)) → Type 0
Agree proto skip find =
    (next : ℕ) (s r : Skip)
    → skip next s ≡ some r
    → s.proto_type ≢ proto
    → (o : Option ℕ) × (find next s ≡ some o) × Match proto o r

set_fragment_type :
    (h : Header) (d : List ℕ) (s s' : Skip)
    → set_fragment h d s ≡ some s'
    → s'.proto_type ≡ s.proto_type
unfolding set_fragment
set_fragment_type sized d s s' e = ap (λ (x : Skip). x.proto_type) (sym (some-injective e))
set_fragment_type fragment d s s' e =
    let (offlg, e1, rest) = bind-some (pntoh16 d (s.data_at + 2)) _ e in
    ap (λ (x : Skip). x.proto_type) (sym (some-injective rest))
set_fragment_type auth d s s' e = ap (λ (x : Skip). x.proto_type) (sym (some-injective e))
set_fragment_type no_next d s s' e = ap (λ (x : Skip). x.proto_type) (sym (some-injective e))
set_fragment_type payload d s s' e = ap (λ (x : Skip). x.proto_type) (sym (some-injective e))

-- The type in the rest behind a header.
abbrev SameType : Skip → Option (ℕ × Skip) → Type 0
SameType s none = Unit {0}
SameType s (some (next, s')) = s'.proto_type ≡ s.proto_type

skip_header-SameType :
    (d : List ℕ) (s : Skip) (n : ℕ) (r : Option (ℕ × Skip))
    → skip_header d s n ≡ some r
    → SameType s r
unfolding skip_header
skip_header-SameType d s n r e = elim (Bool-cases (ltb s.len n)) [
  | inl cut ↦ subst (SameType s) (some-injective (rw cut at e)) tt
  | inr whole ↦
      let (next, e1, rest) = bind-some (get_elem? d s.data_at) _ (rw whole at e) in
      subst (SameType s) (some-injective rest) refl
]

find_rest-Agree :
    (skip : ℕ → Skip → Option Skip) (find : ℕ → Skip → Option (Option ℕ)) (proto : ℕ) (s r : Skip)
    (o : Option (ℕ × Skip))
    → Agree proto skip find
    → SameType s o
    → skip_rest skip s o ≡ some r
    → s.proto_type ≢ proto
    → (a : Option ℕ) × (find_rest find o ≡ some a) × Match proto a r
unfolding find_rest skip_rest
find_rest-Agree skip find proto s r none agree same e other =
    (none, refl, inl (subst (λ (x : Skip). x.proto_type ≢ proto) (some-injective e) other))
find_rest-Agree skip find proto s r (some (next, s')) agree same e other =
    agree next s' r e (λ at. other (sym same ∙ at))

find_sized-Agree :
    (skip : ℕ → Skip → Option Skip) (find : ℕ → Skip → Option (Option ℕ)) (d : List ℕ)
    (header proto : ℕ) (s r : Skip) (h : Option ℕ)
    → Agree proto skip find
    → skip_sized skip d header s h ≡ some r
    → s.proto_type ≢ proto
    → (a : Option ℕ) × (find_sized find d header s h ≡ some a) × Match proto a r
unfolding find_sized skip_sized
find_sized-Agree skip find d header proto s r none agree e other =
    (none, refl, inl (subst (λ (x : Skip). x.proto_type ≢ proto) (some-injective e) other))
find_sized-Agree skip find d header proto s r (some hdrlen) agree e other =
    let (s', e1, rest) = bind-some (set_fragment (header_of header) d s) _ e in
    let (o, e2, tail) = bind-some (skip_header d s' hdrlen) _ rest in
    let kept = set_fragment_type (header_of header) d s s' e1 in
    let (a, found, at) =
      find_rest-Agree skip find proto s' r o agree (skip_header-SameType d s' hdrlen o e2) tail
        (λ same. other (sym kept ∙ same)) in
    (a, rw (e1, e2) found, at)

find_headers-Agree :
    (fuel : ℕ) (d : List ℕ) (proto header : ℕ) (s r : Skip)
    → is_payload (header_of proto) ≡ true
    → skip_headers fuel d header s ≡ some r
    → (header ≡ proto) ⊎ (s.proto_type ≢ proto)
    → (a : Option ℕ) × (find_headers fuel d proto header s ≡ some a) × Match proto a r
unfolding find_headers skip_headers
find_headers-Agree zero d proto header s r pay e first = elim (Bool-cases (stops s)) [
  | inl over ↦
      let same : s ≡ r = some-injective (rw over at e) in
      (none, rw over refl, inr (subst Stopped same (stops-Stopped s over)))
  | inr more ↦ absurd (ground arith)
]
find_headers-Agree (suc fuel) d proto header s r pay e first = elim (Bool-cases (stops s)) [
  | inl over ↦
      let same : s ≡ r = some-injective (rw over at e) in
      (none, rw over refl, inr (subst Stopped same (stops-Stopped s over)))
  | inr more ↦ elim (Bool-cases (is_payload (header_of header))) [
    | inl ends ↦
        let same : record s { proto_type = header } ≡ r = some-injective (rw (more, ends) at e) in
        elim (Bool-cases (header == proto)) [
          | inl sought ↦ (
            some s.data_at,
            rw (more, sought) refl,
            subst (Match proto (some s.data_at)) same (refl, ground arith, stops-Goes s more),
          )
          | inr other ↦ (
            none,
            rw (more, other, ends) refl,
            subst (Match proto none) same (inl (λ at. absurd (ground arith))),
          )
        ]
    | inr walk ↦
        let e' = rw (more, walk) at e in
        let (h, e1, rest) = bind-some (header_len (header_of header) d s.data_at s.len) _ e' in
        let other : header ≢ proto = λ at. absurd (cc) in
        let differ : (header == proto) ≡ false = ground arith in
        let agree : Agree proto (skip_headers fuel d) (find_headers fuel d proto) =
          λ next s' r' went apart.
            find_headers-Agree fuel d proto next s' r' pay went (inr apart) in
        let (a, found, at) =
          find_sized-Agree (skip_headers fuel d) (find_headers fuel d proto) d header proto s r h
            agree rest (elim first [ inl at ↦ absurd (other at) | inr apart ↦ apart ]) in
        (a, rw (more, differ, walk, e1) found, at)
  ]
]

-- The answer of the search beside the walk over all headers.
abbrev pub Finds : List ℕ → ℕ → ℕ → ℕ → Option ℕ → Type 0
Finds d p len proto none =
    (len < 40)
    ⊎ ((r : Skip) × (proto_skip_ipv6 d p len ≡ some r) × ((r.proto_type ≢ proto) ⊎ Stopped r))
Finds d p len proto (some q) =
    (40 ≤ len)
    × (p + 40 ≤ q)
    × (q < p + len)
    × (r : Skip) × (proto_skip_ipv6 d p len ≡ some r)
    × (r.data_at ≡ q)
    × (r.proto_type ≡ proto)
    × Goes r

Match-Finds :
    (d : List ℕ) (p len proto : ℕ) (r : Skip) (a : Option ℕ)
    → 40 ≤ len
    → proto_skip_ipv6 d p len ≡ some r
    → Stays (p + 40) (p + len) r
    → Match proto a r
    → Finds d p len proto a
unfolding Stays
Match-Finds d p len proto r none base e st m = inr (r, e, m)
Match-Finds d p len proto r (some q) base e st (at, is, goes) =
    (base, omega arith, omega arith, r, e, at, is, goes)

-- A read that succeeds, and a test that does not answer.
then-some :
    {A B : Type 0} {o : Option A} {a : A} (f : A → Option B) {b : Option B}
    → o ≡ some a
    → f a ≡ b
    → (o >>= f) ≡ b
then-some f e h = rw e h

else-some :
    {A : Type 0} (b : Bool) (o : Option (Option A)) {r : Option (Option A)}
    → b ≡ false
    → o ≡ r
    → (if b then some none else o) ≡ r
else-some b o e h = rw e h

find-Agree :
    (d : List ℕ) (p len proto : ℕ) (r : Skip)
    → is_payload (header_of proto) ≡ true
    → ltb len 40 ≡ false
    → proto_skip_ipv6 d p len ≡ some r
    → (a : Option ℕ) × (proto_find_ip6_exthdr d p len proto ≡ some a) × Match proto a r
unfolding proto_find_ip6_exthdr proto_skip_ipv6
find-Agree d p len proto r pay long walk =
    let (header, e1, rest) = bind-some (get_elem? d (p + 6)) _ walk in
    let (plen, e2, went) = bind-some (pntoh16 d (p + 4)) _ rest in
    let first : (header ≡ proto) ⊎ (header ≢ proto) = elim (Bool-cases (header == proto)) [
      | inl same ↦ inl (ground arith)
      | inr other ↦ inr (λ at. absurd (ground arith))
    ] in
    let (a, found, m) = find_headers-Agree _ d proto header _ r pay went first in
    (a, else-some (ltb len 40) _ long (then-some _ e1 (then-some _ e2 found)), m)

-- For a protocol that is no extension header, and a packet of `len` bytes, of any number, all of
-- which may be read: the search returns and reads only the packet. It gives the place at which the
-- walk over the extension headers ends, if the packet has its base header and the walk ends at a
-- header of that protocol, with bytes left and not in a later fragment; the place is behind the
-- base header and inside the packet. Otherwise it gives nothing.
pub proto_find_ip6_exthdr-Finds :
    (d : List ℕ) (p len proto : ℕ)
    → p + len ≤ length d
    → is_payload (header_of proto) ≡ true
    → Returns (Finds d p len proto) (proto_find_ip6_exthdr d p len proto)
unfolding proto_find_ip6_exthdr
proto_find_ip6_exthdr-Finds d p len proto fits pay = elim (Bool-cases (ltb len 40)) [
  | inl short ↦ (none, rw short refl, inl (ground arith))
  | inr long ↦
      let base : 40 ≤ len = ground arith in
      let (r, walk, st) = proto_skip_ipv6-Returns d p len base fits in
      let (a, found, m) = find-Agree d p len proto r pay long walk in
      (a, unfold proto_find_ip6_exthdr in found, Match-Finds d p len proto r a base walk st m)
]
