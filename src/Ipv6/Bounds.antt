-- ===== src/Ipv6/Bounds.antt =====
-- The walk over extension headers ends, reads only the packet, and stays in it.
use zapret.Base.{
  ℕ, zero, suc, ◌+◌, ◌-◌, ◌*◌, ◌≤◌, ◌<◌, ◌≡◌, refl, List, Option, none, some, true, false, ltb,
  ◌==◌, if◌then◌else◌, arith, length, get_elem?, Bool-cases, inl, inr,
}
use zapret.Memory.Safe.{
  Returns, Any, bind-Returns, branch-Returns, get_elem?-Returns, pntoh16-Returns,
}
use zapret.Memory.{minus64}
use zapret.Bytes.{pntoh16}
use zapret.Ipv6.{
  Skip, Header, sized, fragment, auth, no_next, payload, header_of, header_len, set_fragment,
  is_payload, stops, skip_header, skip_headers, skip_sized, skip_rest, proto_skip_ipv6,
}

-- What is left starts no earlier, and ends no later, than before.
unfoldable pub Stays : ℕ → ℕ → Skip → Type 0
Stays from end s = (from ≤ s.data_at) × (s.data_at + s.len ≤ end)

-- A header is at least eight bytes long, and the two or eight bytes that are read were there.
abbrev Long : Header → ℕ → Option ℕ → Type 0
Long h len none = Unit {0}
Long fragment len (some n) = (8 ≤ n) × (8 ≤ len)
Long other len (some n) = (8 ≤ n) × (2 ≤ len)

fragment-Long : (len : ℕ) → Long fragment len (if ltb len 8 then none else some 8)
fragment-Long len = elim (Bool-cases (ltb len 8)) [
  | inl cut ↦ rw cut tt
  | inr whole ↦ rw whole (omega arith, ground arith)
]

header_len-Returns :
    (h : Header) (d : List ℕ) (p len : ℕ)
    → p + len ≤ length d
    → Returns (Long h len) (header_len h d p len)
unfolding header_len
header_len-Returns sized d p len fits =
    branch-Returns (Long sized len) (ltb len 2) _ _ (λ _. (none, refl, tt))
      (λ room.
        let two : 2 ≤ len = ground arith in
        bind-Returns Any _ (get_elem? d (p + 1)) _ (get_elem?-Returns d (p + 1) (omega arith))
          (λ b _ _. (some (8 + b * 8), refl, (omega arith, two))))
header_len-Returns fragment d p len fits = (_, refl, fragment-Long len)
header_len-Returns auth d p len fits =
    branch-Returns (Long auth len) (ltb len 2) _ _ (λ _. (none, refl, tt))
      (λ room.
        let two : 2 ≤ len = ground arith in
        bind-Returns Any _ (get_elem? d (p + 1)) _ (get_elem?-Returns d (p + 1) (omega arith))
          (λ b _ _. (some (8 + b * 4), refl, (omega arith, two))))
header_len-Returns no_next d p len fits = (none, refl, tt)
header_len-Returns payload d p len fits = (none, refl, tt)

-- The fields of a fragment are read inside it, and the place in the packet stays.
Same : Skip → Skip → Type 0
Same s s' = (s'.data_at ≡ s.data_at) × (s'.len ≡ s.len)

Same-at : (s s' : Skip) → Same s s' → s'.data_at ≡ s.data_at
unfolding Same
Same-at s s' e = e.0

Same-len : (s s' : Skip) → Same s s' → s'.len ≡ s.len
unfolding Same
Same-len s s' e = e.1

Stays-inside :
    (d : List ℕ) (from end : ℕ) (s : Skip)
    → end ≤ length d
    → Stays from end s
    → s.data_at + s.len ≤ length d
unfolding Stays
Stays-inside d from end s fits st = omega (arith, st.1)

Stays-retyped :
    (from end : ℕ) (s : Skip) (header : ℕ)
    → Stays from end s
    → Stays from end (record s { proto_type = header })
unfolding Stays
Stays-retyped from end s header st = st

set_fragment-Returns :
    (h : Header) (d : List ℕ) (s : Skip) (n : ℕ)
    → s.data_at + s.len ≤ length d
    → Long h s.len (some n)
    → Returns (Same s) (set_fragment h d s)
unfolding set_fragment Same
set_fragment-Returns sized d s n fits long = (s, refl, (refl, refl))
set_fragment-Returns fragment d s n fits long =
    bind-Returns Any _ (pntoh16 d (s.data_at + 2)) _
      (pntoh16-Returns d (s.data_at + 2) (omega (arith, long.1)))
      (λ offlg _ _. (_, refl, (refl, refl)))
set_fragment-Returns auth d s n fits long = (s, refl, (refl, refl))
set_fragment-Returns no_next d s n fits long = (s, refl, (refl, refl))
set_fragment-Returns payload d s n fits long = (s, refl, (refl, refl))

Long-positive : (h : Header) (len n : ℕ) → Long h len (some n) → (8 ≤ n) × (0 < len)
Long-positive sized len n long = (long.0, omega (arith, long.1))
Long-positive fragment len n long = (long.0, omega (arith, long.1))
Long-positive auth len n long = (long.0, omega (arith, long.1))
Long-positive no_next len n long = (long.0, omega (arith, long.1))
Long-positive payload len n long = (long.0, omega (arith, long.1))

-- What is left after a header is shorter.
Shorter : Skip → Option (ℕ × Skip) → Type 0
Shorter s none = Unit {0}
Shorter s (some (next, s')) =
    (s.data_at ≤ s'.data_at) × (s'.data_at + s'.len ≤ s.data_at + s.len) × (s'.len < s.len)

skip_header-Returns :
    (d : List ℕ) (s : Skip) (n : ℕ)
    → s.data_at + s.len ≤ length d
    → 8 ≤ n
    → 0 < s.len
    → Returns (Shorter s) (skip_header d s n)
unfolding skip_header Shorter
skip_header-Returns d s n fits long more =
    branch-Returns (Shorter s) (ltb s.len n) _ _ (λ _. (none, refl, tt))
      (λ whole.
        let inside : n ≤ s.len = ground arith in
        bind-Returns Any (Shorter s) (get_elem? d s.data_at) _
          (get_elem?-Returns d s.data_at (omega arith))
          (λ next _ _. (_, refl, (omega arith, omega arith, omega arith))))

-- The rest of the loop keeps to the packet.
abbrev Again : List ℕ → ℕ → ℕ → ℕ → (ℕ → Skip → Option Skip) → Type 0
Again d from end bound again =
    (next : ℕ) (s : Skip)
    → s.len < bound
    → Stays from end s
    → Returns (Stays from end) (again next s)

skip_rest-Returns :
    (d : List ℕ) (from end : ℕ) (again : ℕ → Skip → Option Skip) (s : Skip) (r : Option (ℕ × Skip))
    → Again d from end s.len again
    → Stays from end s
    → Shorter s r
    → Returns (Stays from end) (skip_rest again s r)
unfolding skip_rest Shorter Stays
skip_rest-Returns d from end again s none go st shorter = (s, refl, st)
skip_rest-Returns d from end again s (some (next, s')) go st shorter =
    go next s' shorter.2 (omega (arith, st.0, shorter.0), omega (arith, st.1, shorter.1))

skip_sized-Returns :
    (d : List ℕ) (header from end : ℕ) (again : ℕ → Skip → Option Skip) (s : Skip) (h : Option ℕ)
    → end ≤ length d
    → Again d from end s.len again
    → Stays from end s
    → Long (header_of header) s.len h
    → Returns (Stays from end) (skip_sized again d header s h)
unfolding skip_sized Stays
skip_sized-Returns d header from end again s none fits go st long = (s, refl, st)
skip_sized-Returns d header from end again s (some n) fits go st long =
    let long_n = Long-positive (header_of header) s.len n long in
    bind-Returns (Same s) _ (set_fragment (header_of header) d s) _
      (set_fragment-Returns (header_of header) d s n (omega (arith, st.1)) long)
      (λ s' _ same.
        let same_at = Same-at s s' same in
        let same_len = Same-len s s' same in
        let st' : Stays from end s' =
          unfold Stays in (omega (arith, st.0, same_at), omega (arith, st.1, same_at, same_len)) in
        bind-Returns (Shorter s') _ (skip_header d s' n) _
          (skip_header-Returns d s' n (omega (arith, st.1, same_at, same_len)) long_n.0
            (omega (arith, long_n.1, same_len)))
          (λ r _ shorter. skip_rest-Returns d from end again s' r (rw same_len go) st' shorter))

skip_headers-Returns :
    (fuel : ℕ) (d : List ℕ) (header from end : ℕ) (s : Skip)
    → s.len ≤ fuel
    → end ≤ length d
    → Stays from end s
    → Returns (Stays from end) (skip_headers fuel d header s)
unfolding skip_headers
skip_headers-Returns zero d header from end s enough fits st =
    unfold stops in
    (let none_left : (s.len == 0) ≡ true = ground arith in (s, rw none_left refl, st))
skip_headers-Returns (suc fuel) d header from end s enough fits st =
    branch-Returns (Stays from end) (stops s) _ _ (λ _. (s, refl, st))
      (λ _.
        branch-Returns (Stays from end) (is_payload (header_of header)) _ _
          (λ _. (record s { proto_type = header }, refl, Stays-retyped from end s header st))
          (λ _.
            bind-Returns (Long (header_of header) s.len) _
              (header_len (header_of header) d s.data_at s.len) _
              (header_len-Returns (header_of header) d s.data_at s.len
                (Stays-inside d from end s fits st))
              (λ h _ long.
                skip_sized-Returns d header from end (skip_headers fuel d) s h fits
                  (λ next s' shorter st'.
                    skip_headers-Returns fuel d next from end s' (omega arith) fits st')
                  st long)))

-- For a packet of `len` bytes, at least the 40 of the base header, all of which may be read, the
-- walk over the extension headers returns, reads only the packet, and what it leaves lies behind
-- the base header and inside the packet.
pub proto_skip_ipv6-Returns :
    (d : List ℕ) (p len : ℕ)
    → 40 ≤ len
    → p + len ≤ length d
    → Returns (Stays (p + 40) (p + len)) (proto_skip_ipv6 d p len)
unfolding proto_skip_ipv6
proto_skip_ipv6-Returns d p len base fits =
    bind-Returns Any _ (get_elem? d (p + 6)) _ (get_elem?-Returns d (p + 6) (omega arith))
      (λ header _ _.
        bind-Returns Any _ (pntoh16 d (p + 4)) _ (pntoh16-Returns d (p + 4) (omega arith))
          (λ plen _ _.
            let rest : ℕ = minus64 len 40 in
            let rest_eq : rest ≡ len - 40 = ground arith in
            let n : ℕ = if ltb plen rest then plen else rest in
            let short : n ≤ len - 40 = ground arith in
            let start : Skip = record {
              data_at = p + 40;
              len = n;
              proto_type = header;
              frag = false;
              frag_off = 0;
            } in
            let inside : p + 40 + n ≤ p + len = omega arith in
            skip_headers-Returns n d header (p + 40) (p + len) start (omega arith) fits
              (unfold Stays in (omega arith, inside))))
