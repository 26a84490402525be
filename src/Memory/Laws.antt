-- ===== src/Memory/Laws.antt =====
-- What reads give after writes.
use zapret.Base.{
  ℕ, zero, suc, ◌+◌, ◌≤◌, ◌<◌, ◌≡◌, refl, ◌⊎◌, inl, inr, List, [], ◌∷◌, Option, none, some, arith,
  length, get_elem?, get_or, Option-cases, ◌==◌, if◌then◌else◌,
}
use zapret.Memory.{put, store, Bytes, ◌>>=◌}

pub get_or-lt-256 : (d : List ℕ) (i : ℕ) → Bytes d → get_or d i 0 < 256
get_or-lt-256 [] i h = omega arith
get_or-lt-256 (x ∷ d) zero h = h.0
get_or-lt-256 (x ∷ d) (suc i) h = get_or-lt-256 d i h.1

pub get_elem?-lt-256 : (d : List ℕ) (i : ℕ) {b : ℕ} → Bytes d → get_elem? d i ≡ some b → b < 256
get_elem?-lt-256 [] i h e = absurd (ground arith)
get_elem?-lt-256 (x ∷ d) zero h e = ground arith
get_elem?-lt-256 (x ∷ d) (suc i) h e = get_elem?-lt-256 d i h.1 e

-- A write inside the buffer succeeds, and outside it faults.
pub put-some :
    (d : List ℕ) (p v : ℕ)
    → p < length d
    → (d' : List ℕ) × (put d p v ≡ some d') × (length d' ≡ length d)
unfolding put
put-some [] p v h = absurd (omega arith)
put-some (x ∷ d) zero v h = (v ∷ d, refl, refl)
put-some (x ∷ d) (suc p) v h =
    let rest = put-some d p v (omega arith) in (x ∷ rest.0, ground arith, ground arith)

-- One more byte in front of a write that succeeded.
put-cons :
    (x : ℕ) (d : List ℕ) (p v : ℕ) {d' : List ℕ}
    → put (x ∷ d) (suc p) v ≡ some d'
    → (e : List ℕ) × (put d p v ≡ some e) × (d' ≡ x ∷ e)
unfolding put
put-cons x d p v h = elim (Option-cases (put d p v)) [
  | inl none_there ↦ absurd (ground arith)
  | inr (e, there) ↦ (e, there, ground arith)
]

pub get_elem?-put :
    (d : List ℕ) (p v i : ℕ) {d' : List ℕ}
    → put d p v ≡ some d'
    → get_elem? d' i ≡ (if i == p then some v else get_elem? d i)
unfolding put
get_elem?-put [] p v i e = absurd (ground arith)
get_elem?-put (x ∷ d) zero v zero e = ground arith
get_elem?-put (x ∷ d) zero v (suc i) e = ground arith
get_elem?-put (x ∷ d) (suc p) v zero e = let r = put-cons x d p v e in ground arith
get_elem?-put (x ∷ d) (suc p) v (suc i) e =
    let r = put-cons x d p v e in ground (arith, get_elem?-put d p v i r.1)

pub store-some :
    (d : List ℕ) (p : ℕ) (bs : List ℕ)
    → p + length bs ≤ length d
    → (d' : List ℕ) × (store d p bs ≡ some d') × (length d' ≡ length d)
unfolding store
store-some d p [] h = (d, refl, refl)
store-some d p (b ∷ bs) h =
    let first = put-some d p b (omega arith) in
    let rest = store-some first.0 (p + 1) bs (omega arith) in (rest.0, ground arith, ground arith)

store-cons :
    (d : List ℕ) (p b : ℕ) (bs : List ℕ) {d' : List ℕ}
    → store d p (b ∷ bs) ≡ some d'
    → (e : List ℕ) × (put d p b ≡ some e) × (store e (p + 1) bs ≡ some d')
unfolding store
store-cons d p b bs h = elim (Option-cases (put d p b)) [
  | inl none_there ↦ absurd (ground arith)
  | inr (e, there) ↦ (e, there, ground arith)
]

-- Bytes outside the stored range stay.
pub get_elem?-store_outside :
    (d : List ℕ) (p : ℕ) (bs : List ℕ) (i : ℕ) {d' : List ℕ}
    → store d p bs ≡ some d'
    → (i < p) ⊎ (p + length bs ≤ i)
    → get_elem? d' i ≡ get_elem? d i
unfolding store
get_elem?-store_outside d p [] i h out = ground arith
get_elem?-store_outside d p (b ∷ bs) i h out =
    let r = store-cons d p b bs h in
    let away : (i < p + 1) ⊎ (p + 1 + length bs ≤ i) = ground arith in
    let there = get_elem?-store_outside r.0 (p + 1) bs i r.2 away in
    ground (arith, there, get_elem?-put d p b i r.1)

-- Bytes inside it are those stored.
pub get_elem?-store_inside :
    (d : List ℕ) (p : ℕ) (bs : List ℕ) (i : ℕ) {d' : List ℕ}
    → store d p bs ≡ some d'
    → i < length bs
    → get_elem? d' (p + i) ≡ get_elem? bs i
get_elem?-store_inside d p [] i h lt = absurd (omega arith)
get_elem?-store_inside d p (b ∷ bs) zero h lt =
    let r = store-cons d p b bs h in
    let at : p + 0 ≡ p = omega arith in
    let kept = get_elem?-store_outside r.0 (p + 1) bs (p + 0) r.2 (inl (omega arith)) in
    ground (arith, kept, get_elem?-put d p b (p + 0) r.1)
get_elem?-store_inside d p (b ∷ bs) (suc i) h lt =
    let r = store-cons d p b bs h in
    let at : p + suc i ≡ p + 1 + i = omega arith in
    rw at (get_elem?-store_inside r.0 (p + 1) bs i r.2 (omega arith))

-- A chain returns if its first part does, and then the rest.
pub bind_total {ℓ κ} :
    {A : Type ℓ} {B : Type κ} (o : Option A) (f : A → Option B)
    → (a : A) × (o ≡ some a)
    → ((a : A) → (b : B) × (f a ≡ some b))
    → (b : B) × ((o >>= f) ≡ some b)
bind_total none f (a, e) rest = absurd (cc)
bind_total (some x) f (a, e) rest = rest x

-- If a chain returned, so did its parts.
pub bind-some {ℓ κ} :
    {A : Type ℓ} {B : Type κ} (o : Option A) (f : A → Option B) {b : B}
    → (o >>= f) ≡ some b
    → (a : A) × (o ≡ some a) × (f a ≡ some b)
bind-some none f e = absurd (cc)
bind-some (some x) f e = (x, refl, e)
