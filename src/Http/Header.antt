-- ===== src/Http/Header.antt =====
-- The search for headers: `FindHostIn` gives what `strncasestr` gives, and the value of a header is
-- read in the message.
use zapret.Base.{
  ℕ, zero, suc, ◌+◌, ◌-◌, ◌≤◌, ◌≡◌, refl, List, [], ◌∷◌, Option, none, some, Bool, true, false, ltb,
  if◌then◌else◌, arith, get_elem?, length, sym, inl, inr, Bool-cases,
}
use zapret.Memory.{◌>>=◌, ◌&&?◌}
use zapret.Memory.Safe.{Returns, bind-Returns, branch-Returns, get_elem?-Returns}
use zapret.Tls.{copy_host}
use zapret.Tls.Hello.{Fits, copy_host-Returns}
use zapret.Strings.{toupper, same_letter, case_eq, search_case, strncasestr}
use zapret.Strings.Search.{strncasestr-FirstIn, FirstIn}
use zapret.Http.{
  is_blank, skip_while, is_host_at, host_from, find_host_in, extract_value, extract_at,
  http_extract_header, host_header,
}
use zapret.Http.Bounds.{Rest, skip_while-Returns}

-- One byte of the test and of the comparison.
byte-case_eq :
    (d : List ℕ) (p q c : ℕ) (cs : List ℕ) (test : ℕ → Bool) (rest : Option Bool)
    → p + 1 ≡ q
    → ((b : ℕ) → test b ≡ same_letter c b)
    → rest ≡ case_eq d q cs
    → ((do b ← get_elem? d p; some (test b)) &&? rest) ≡ case_eq d p (c ∷ cs)
unfolding case_eq
byte-case_eq d p q c cs test rest next same e = by_byte (get_elem? d p)
  where
    by_byte :
        (o : Option ℕ)
        → ((do b ← o; some (test b)) &&? rest)
          ≡ (do b ← o; if same_letter c b then case_eq d (p + 1) cs else some false)
    by_byte none = refl
    by_byte (some b) = rw (same, e, next) refl

last_byte-case_eq :
    (d : List ℕ) (p c : ℕ) (test : ℕ → Bool)
    → ((b : ℕ) → test b ≡ same_letter c b)
    → (do b ← get_elem? d p; some (test b)) ≡ case_eq d p (c ∷ [])
unfolding case_eq
last_byte-case_eq d p c test same = by_byte (get_elem? d p)
  where
    by_byte :
        (o : Option ℕ)
        → (do b ← o; some (test b))
          ≡ (do b ← o; if same_letter c b then case_eq d (p + 1) [] else some false)
    by_byte none = refl
    by_byte (some b) = elim (Bool-cases (same_letter c b)) [
      | inl yes_same ↦ rw (same, yes_same) refl
      | inr no_same ↦ rw (same, no_same) refl
    ]

is_host_at-case_eq : (d : List ℕ) (p : ℕ) → is_host_at d p ≡ case_eq d p host_header
unfolding is_host_at toupper
is_host_at-case_eq d p =
    byte-case_eq d p (p + 1) 10 _ _ _ refl (λ b. ground arith)
      (byte-case_eq d (p + 1) (p + 2) 72 _ _ _ (omega arith) (λ b. ground arith)
        (byte-case_eq d (p + 2) (p + 3) 111 _ _ _ (omega arith) (λ b. ground arith)
          (byte-case_eq d (p + 3) (p + 4) 115 _ _ _ (omega arith) (λ b. ground arith)
            (byte-case_eq d (p + 4) (p + 5) 116 _ _ _ (omega arith) (λ b. ground arith)
              (last_byte-case_eq d (p + 5) 58 _ (λ b. ground arith))))))

-- "Host:"
abbrev host_rest : List ℕ
host_rest = 72 ∷ 111 ∷ 115 ∷ 116 ∷ 58 ∷ []

-- Fewer bytes than the text has.
search_case_short :
    (d : List ℕ) (s slen : ℕ)
    → slen ≤ 5
    → s + slen ≤ length d
    → search_case d s slen 10 host_rest ≡ some none
unfolding search_case
search_case_short d s zero short fits = refl
search_case_short d s (suc slen) short fits =
    let (sc, e, any) = get_elem?-Returns d s (omega arith) in
    let rest = search_case_short d (s + 1) slen (omega arith) (omega arith) in
    let cut : ltb slen 5 ≡ true = ground arith in
    elim (Bool-cases (same_letter 10 sc)) [
      | inl first ↦ rw (e, first, cut) refl
      | inr other ↦ rw (e, other, rest) refl
    ]

-- A place where the text starts with another byte, or with this one.
case_eq-cons :
    (d : List ℕ) (s c sc : ℕ) (cs : List ℕ)
    → get_elem? d s ≡ some sc
    → case_eq d s (c ∷ cs) ≡ (if same_letter c sc then case_eq d (s + 1) cs else some false)
unfolding case_eq
case_eq-cons d s c sc cs e = rw e refl

search_case-eq :
    (d : List ℕ) (s slen : ℕ)
    → 5 ≤ slen
    → s + suc slen ≤ length d
    → search_case d s (suc slen) 10 host_rest ≡ (do
      same ← case_eq d s host_header
      if same then some (some s) else search_case d (s + 1) slen 10 host_rest)
unfolding search_case
search_case-eq d s slen long fits =
    let (sc, e, any) = get_elem?-Returns d s (omega arith) in
    let room : ltb slen 5 ≡ false = ground arith in
    elim (Bool-cases (same_letter 10 sc)) [
      | inl first ↦ rw (case_eq-cons d s 10 sc host_rest e, e, first, room) refl
      | inr other ↦ rw (case_eq-cons d s 10 sc host_rest e, e, other) refl
    ]

host_from-search_case :
    (n : ℕ) (d : List ℕ) (s slen : ℕ)
    → slen ≡ n + 5
    → s + slen ≤ length d
    → host_from n d s ≡ search_case d s slen 10 host_rest
unfolding host_from
host_from-search_case zero d s slen e fits = sym (search_case_short d s slen (omega arith) fits)
host_from-search_case (suc n) d s zero e fits = absurd (omega arith)
host_from-search_case (suc n) d s (suc slen) e fits =
    let rest = host_from-search_case n d (s + 1) slen (omega arith) (omega arith) in
    rw (search_case-eq d s slen (omega arith) fits, is_host_at-case_eq, rest) refl

-- In `bs` bytes that may be read, `FindHostIn` gives what `strncasestr` gives for "\nHost:".
pub find_host_in-strncasestr :
    (d : List ℕ) (p bs : ℕ)
    → p + bs ≤ length d
    → find_host_in d p bs ≡ strncasestr d p host_header bs
unfolding find_host_in strncasestr
find_host_in-strncasestr d p bs fits = elim (Bool-cases (ltb bs 6)) [
  | inl short ↦
      let few : bs ≤ 5 = ground arith in rw short (sym (search_case_short d p bs few fits))
  | inr long ↦
      let room : 6 ≤ bs = ground arith in
      rw long (host_from-search_case (bs - 6 + 1) d p bs (omega arith) fits)
]

extract_value-Returns :
    (d : List ℕ) (len_buf end : ℕ) (r s : ℕ × ℕ)
    → Rest d r.0 end s
    → Returns (Fits len_buf) (extract_value d len_buf r s)
unfolding extract_value
extract_value-Returns d len_buf end (p, left) (q, rest) (from, to, fits) =
    branch-Returns (Fits len_buf) (ltb p q) _ _
      (λ _.
        bind-Returns (λ (l : List ℕ). length l ≤ len_buf) _ (copy_host d p (q - p) len_buf) _
          (copy_host-Returns d p (q - p) len_buf (omega arith))
          (λ v _ short. (some v, refl, short)))
      (λ _. (none, refl, tt))

extract_at-Returns :
    (d : List ℕ) (p len len_buf : ℕ) (c : ℕ) (header : List ℕ) (at : Option ℕ)
    → p + len ≤ length d
    → FirstIn d p (p + len) (c ∷ header) at
    → Returns (Fits len_buf) (extract_at d p len (length (c ∷ header)) len_buf at)
unfolding extract_at
extract_at-Returns d p len len_buf c header none fits found = (none, refl, tt)
extract_at-Returns d p len len_buf c header (some at) fits (from, inside, same, first) =
    bind-Returns (Rest d (at + length (c ∷ header)) (p + len)) _
      (skip_while is_blank d (at + length (c ∷ header)) (p + len - (at + length (c ∷ header)))) _
      (skip_while-Returns is_blank d (at + length (c ∷ header)) _ (p + len) (omega arith) fits)
      (λ r _ (r_from, r_to, r_fits).
        bind-Returns (Rest d r.0 (p + len)) _ (skip_while _ d r.0 r.1) _
          (skip_while-Returns _ d r.0 r.1 (p + len) r_to fits)
          (λ s _ rest. extract_value-Returns d len_buf (p + len) r s rest))

-- The value of a header of at least one byte, in a message of `len` bytes that may be read, is
-- extracted without a read outside it, and what is written to the buffer fits its size.
pub http_extract_header-Fits :
    (d : List ℕ) (p len c : ℕ) (header : List ℕ) (len_buf : ℕ)
    → p + len ≤ length d
    → Returns (Fits len_buf) (http_extract_header d p len (c ∷ header) len_buf)
unfolding http_extract_header
http_extract_header-Fits d p len c header len_buf fits =
    bind-Returns (FirstIn d p (p + len) (c ∷ header)) _ (strncasestr d p (c ∷ header) len) _
      (strncasestr-FirstIn d p len c header fits)
      (λ at _ found. extract_at-Returns d p len len_buf c header at fits found)
