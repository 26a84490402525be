-- ===== src/Conntrack/Assoc.antt =====
-- A hash table as an association list, which keeps the laws assumed of uthash.
use zapret.Base.{
  ◌≡◌, ◌≢◌, refl, sym, ◌∙◌, ap, inl, inr, List, [], ◌∷◌, Option, none, some, true, false,
  if◌then◌else◌, Bool-cases,
}
use zapret.Track.{Track}
use zapret.Track.Keeps.{some-injective}
use zapret.Conntrack.{Conn, Table}
use zapret.Conntrack.Laws.{Laws, conn_eq, conn_eq→eq, conn_eq_refl, lookup, Distinct}

conn_eq-same : (a b : Conn) → a ≡ b → conn_eq a b ≡ true
conn_eq-same a b e = ap (conn_eq a) (sym e) ∙ conn_eq_refl a

conn_eq-other : (a b : Conn) → a ≢ b → conn_eq a b ≡ false
conn_eq-other a b differ = elim (Bool-cases (conn_eq a b)) [
  | inl e ↦ absurd (differ (conn_eq→eq a b e))
  | inr e ↦ e
]

unfoldable pub set_list : Conn → Track → List (Conn × Track) → List (Conn × Track)
set_list c t [] = []
set_list c t ((k, v) ∷ l) = if conn_eq c k then (k, t) ∷ l else (k, v) ∷ set_list c t l

unfoldable pub del_list : Conn → List (Conn × Track) → List (Conn × Track)
del_list c [] = []
del_list c ((k, v) ∷ l) = let rest = del_list c l in if conn_eq c k then rest else (k, v) ∷ rest

lookup-set_list :
    (c : Conn) (t t' : Track) (l : List (Conn × Track))
    → lookup c l ≡ some t
    → lookup c (set_list c t' l) ≡ some t'
unfolding lookup set_list
lookup-set_list c t t' [] e = absurd (cc)
lookup-set_list c t t' ((k, v) ∷ l) e = elim (Bool-cases (conn_eq c k)) [
  | inl same ↦ rw (same, same) refl
  | inr differ ↦ rw (differ, differ) (lookup-set_list c t t' l (rw differ at e))
]

lookup-set_list_other :
    (c k : Conn) (t : Track) (l : List (Conn × Track))
    → k ≢ c
    → lookup k (set_list c t l) ≡ lookup k l
unfolding lookup set_list
lookup-set_list_other c k t [] differ = refl
lookup-set_list_other c k t ((x, v) ∷ l) differ = elim (Bool-cases (conn_eq c x)) [
  | inl same ↦ rw (same, conn_eq-other k x (λ e. differ (e ∙ sym (conn_eq→eq c x same)))) refl
  | inr away ↦ elim (Bool-cases (conn_eq k x)) [
    | inl here ↦ rw (away, here) refl
    | inr there ↦ rw (away, there) (lookup-set_list_other c k t l differ)
  ]
]

lookup-set_list-none :
    (c k : Conn) (t : Track) (l : List (Conn × Track))
    → lookup k l ≡ none
    → lookup k (set_list c t l) ≡ none
unfolding lookup set_list
lookup-set_list-none c k t [] e = refl
lookup-set_list-none c k t ((x, v) ∷ l) e = elim (Bool-cases (conn_eq k x)) [
  | inl here ↦ absurd (cc (rw here at e))
  | inr there ↦
      let rest = rw there at e in
      elim (Bool-cases (conn_eq c x)) [
        | inl same ↦ rw (same, there) rest
        | inr away ↦ rw (away, there) (lookup-set_list-none c k t l rest)
      ]
]

lookup-del_list : (c : Conn) (l : List (Conn × Track)) → lookup c (del_list c l) ≡ none
unfolding lookup del_list
lookup-del_list c [] = refl
lookup-del_list c ((k, v) ∷ l) = elim (Bool-cases (conn_eq c k)) [
  | inl same ↦ rw same (lookup-del_list c l)
  | inr differ ↦ rw (differ, differ) (lookup-del_list c l)
]

lookup-del_list_other :
    (c k : Conn) (l : List (Conn × Track)) → k ≢ c → lookup k (del_list c l) ≡ lookup k l
unfolding lookup del_list
lookup-del_list_other c k [] differ = refl
lookup-del_list_other c k ((x, v) ∷ l) differ = elim (Bool-cases (conn_eq c x)) [
  | inl same ↦
      rw (same, conn_eq-other k x (λ e. differ (e ∙ sym (conn_eq→eq c x same))))
        (lookup-del_list_other c k l differ)
  | inr away ↦ elim (Bool-cases (conn_eq k x)) [
    | inl here ↦ rw (away, here) refl
    | inr there ↦ rw (away, there) (lookup-del_list_other c k l differ)
  ]
]

lookup-del_list-none :
    (c k : Conn) (l : List (Conn × Track)) → lookup k l ≡ none → lookup k (del_list c l) ≡ none
unfolding lookup del_list
lookup-del_list-none c k [] e = refl
lookup-del_list-none c k ((x, v) ∷ l) e = elim (Bool-cases (conn_eq k x)) [
  | inl here ↦ absurd (cc (rw here at e))
  | inr there ↦
      let rest = lookup-del_list-none c k l (rw there at e) in
      elim (Bool-cases (conn_eq c x)) [ inl same ↦ rw same rest | inr away ↦ rw (away, there) rest ]
]

pub set_list-Distinct :
    (c : Conn) (t : Track) (l : List (Conn × Track)) → Distinct l → Distinct (set_list c t l)
unfolding set_list
set_list-Distinct c t [] d = d
set_list-Distinct c t ((x, v) ∷ l) d = elim (Bool-cases (conn_eq c x)) [
  | inl same ↦ rw same d
  | inr away ↦ rw away (lookup-set_list-none c x t l d.0, set_list-Distinct c t l d.1)
]

pub del_list-Distinct : (c : Conn) (l : List (Conn × Track)) → Distinct l → Distinct (del_list c l)
unfolding del_list
del_list-Distinct c [] d = d
del_list-Distinct c ((x, v) ∷ l) d = elim (Bool-cases (conn_eq c x)) [
  | inl same ↦ rw same (del_list-Distinct c l d.1)
  | inr away ↦ rw away (lookup-del_list-none c x l d.0, del_list-Distinct c l d.1)
]

abbrev pub Entries : Type 0
Entries = (l : List (Conn × Track)) × Distinct l

-- A key that is there is refused.
unfoldable pub add_at :
    (c : Conn) → Track → (p : Entries) (o : Option Track) → lookup c p.0 ≡ o → Option Entries
add_at c t p none e = some ((c, t) ∷ p.0, (e, p.1))
add_at c t p (some t') e = none

abbrev pub assoc : Table
assoc = record {
  Pool = Entries;
  empty = ([], tt);
  find = λ c p. lookup c p.0;
  add = λ c t p. add_at c t p (lookup c p.0) refl;
  set = λ c t p. (set_list c t p.0, set_list-Distinct c t p.0 p.1);
  del = λ c p. (del_list c p.0, del_list-Distinct c p.0 p.1);
  items = λ p. p.0;
}

add_at-list :
    (c : Conn) (t : Track) (p : Entries) (o : Option Track) (e : lookup c p.0 ≡ o) (p' : Entries)
    → add_at c t p o e ≡ some p'
    → p'.0 ≡ (c, t) ∷ p.0
unfolding add_at
add_at-list c t p none e p' h = ap (λ (p : Entries). p.0) (sym (some-injective h))
add_at-list c t p (some t') e p' h = absurd (cc)

lookup-here : (c : Conn) (t : Track) (l : List (Conn × Track)) → lookup c ((c, t) ∷ l) ≡ some t
unfolding lookup
lookup-here c t l = rw (conn_eq_refl c) refl

lookup-there :
    (c k : Conn) (t : Track) (l : List (Conn × Track)) → k ≢ c → lookup k ((c, t) ∷ l) ≡ lookup k l
unfolding lookup
lookup-there c k t l differ = rw (conn_eq-other k c differ) refl

pub assoc-Laws : Laws assoc
assoc-Laws = record {
  find-empty = λ c. unfold lookup in refl;
  find-add =
      λ c t p {p'} absent e. ap (lookup c) (add_at-list c t p _ refl p' e) ∙ lookup-here c t p.0;
  find-add_other = λ c k t p {p'} differ e.
      ap (lookup k) (add_at-list c t p _ refl p' e) ∙ lookup-there c k t p.0 differ;
  find-set = λ c t t' p e. lookup-set_list c t t' p.0 e;
  find-set_other = λ c k t p differ. lookup-set_list_other c k t p.0 differ;
  find-del = λ c p. lookup-del_list c p.0;
  find-del_other = λ c k p differ. lookup-del_list_other c k p.0 differ;
  find-items = λ c p. refl;
  items-Distinct = λ p. p.1;
}
