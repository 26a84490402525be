-- ===== src/Conntrack/Laws.antt =====
-- What the pool relies on in uthash, and keys: comparison and reversal.
use zapret.Base.{
  ◌≡◌, ◌≢◌, refl, [], ◌∷◌, sym, ◌∙◌, ◌⊎◌, inl, inr, List, Option, none, some, Bool, true, false,
  ◌&&◌, ◌==◌, Bool-cases, arith, if◌then◌else◌,
}
use zapret.Track.{Track}
use zapret.Conntrack.{Conn, connswap, Table}

-- `memcmp` of two keys.
unfoldable pub conn_eq : Conn → Conn → Bool
conn_eq a b =
    (a.src == b.src)
    && (a.dst == b.dst)
    && (a.sport == b.sport)
    && (a.dport == b.dport)
    && (a.l3proto == b.l3proto)
    && (a.l4proto == b.l4proto)

true-ne-false : true ≡ false → ⊥
true-ne-false e = absurd (cc)

pub conn_eq→eq : (a b : Conn) → conn_eq a b ≡ true → a ≡ b
unfolding conn_eq
conn_eq→eq a b e =
    let src : a.src ≡ b.src = ground arith in
    let dst : a.dst ≡ b.dst = ground arith in
    let sport : a.sport ≡ b.sport = ground arith in
    let dport : a.dport ≡ b.dport = ground arith in
    let l3proto : a.l3proto ≡ b.l3proto = ground arith in
    let l4proto : a.l4proto ≡ b.l4proto = ground arith in
    λ i. record {
      src = src i;
      dst = dst i;
      sport = sport i;
      dport = dport i;
      l3proto = l3proto i;
      l4proto = l4proto i;
    }

pub conn_eq_refl : (a : Conn) → conn_eq a a ≡ true
unfolding conn_eq
conn_eq_refl a = ground arith

pub conn_eq-ne : (a b : Conn) → conn_eq a b ≡ false → a ≢ b
conn_eq-ne a b differ e = true-ne-false (sym (rw e (conn_eq_refl b)) ∙ differ)

pub Conn-cases : (a b : Conn) → (a ≡ b) ⊎ (a ≢ b)
Conn-cases a b = elim (Bool-cases (conn_eq a b)) [
  | inl same ↦ inl (conn_eq→eq a b same)
  | inr differ ↦ inr (conn_eq-ne a b differ)
]

pub connswap-connswap : (c : Conn) → connswap (connswap c) ≡ c
connswap-connswap c = refl

-- The first entry of a list under a key.
unfoldable pub lookup : Conn → List (Conn × Track) → Option Track
lookup k [] = none
lookup k ((c, t) ∷ rest) = if conn_eq k c then some t else lookup k rest

-- No key appears twice.
abbrev pub Distinct : List (Conn × Track) → Type 0
Distinct [] = Unit {0}
Distinct ((c, t) ∷ rest) = (lookup c rest ≡ none) × Distinct rest

-- The documented behaviour of the macros. HASH_ADD asks for a key that is not there.
pub record Laws (table : Table) : Type 0 where
  pub find-empty : (c : Conn) → table.find c table.empty ≡ none
  pub find-add :
      (c : Conn) (t : Track) (p : table.Pool) {p' : table.Pool}
      → table.find c p ≡ none
      → table.add c t p ≡ some p'
      → table.find c p' ≡ some t
  pub find-add_other :
      (c k : Conn) (t : Track) (p : table.Pool) {p' : table.Pool}
      → k ≢ c
      → table.add c t p ≡ some p'
      → table.find k p' ≡ table.find k p
  pub find-set :
      (c : Conn) (t t' : Track) (p : table.Pool)
      → table.find c p ≡ some t
      → table.find c (table.set c t' p) ≡ some t'
  pub find-set_other :
      (c k : Conn) (t : Track) (p : table.Pool)
      → k ≢ c
      → table.find k (table.set c t p) ≡ table.find k p
  pub find-del : (c : Conn) (p : table.Pool) → table.find c (table.del c p) ≡ none
  pub find-del_other :
      (c k : Conn) (p : table.Pool) → k ≢ c → table.find k (table.del c p) ≡ table.find k p
  pub find-items : (c : Conn) (p : table.Pool) → table.find c p ≡ lookup c (table.items p)
  pub items-Distinct : (p : table.Pool) → Distinct (table.items p)
