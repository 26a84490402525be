-- ===== src/Memory/Safe.antt =====
-- Computations that stay inside their buffers: they return, with a result that has a property.
use zapret.Base.{
  ℕ, ◌+◌, ◌≤◌, ◌<◌, ◌≡◌, refl, sym, subst, List, Option, none, some, Bool, true, false,
  if◌then◌else◌, arith, length, get_elem?, get_or, get_elem?-eq-get_or,
}
use zapret.Memory.{◌>>=◌, ◌&&?◌, byte_is}
use zapret.Bytes.{pntoh16, pntoh24, pntoh32, pntoh64}
use zapret.Bytes.Value.{pntoh16_total}

abbrev pub Returns {ℓ κ} : {A : Type ℓ} → (A → Type κ) → Option A → Type (ℓ ⊔ κ)
Returns {A} P o = (a : A) × (o ≡ some a) × P a

-- Any result.
abbrev pub Any {ℓ} : {A : Type ℓ} → A → Type 0
Any a = Unit {0}

pub some-Returns {ℓ κ} : {A : Type ℓ} (P : A → Type κ) (a : A) → P a → Returns P (some a)
some-Returns P a p = (a, refl, p)

pub bind-Returns {ℓ κ μ ν} :
    {A : Type ℓ} {B : Type κ} (P : A → Type μ) (Q : B → Type ν) (o : Option A) (f : A → Option B)
    → Returns P o
    → ((a : A) → o ≡ some a → P a → Returns Q (f a))
    → Returns Q (o >>= f)
bind-Returns P Q none f (a, e, p) next = absurd (cc)
bind-Returns P Q (some x) f (a, e, p) next = let h : x ≡ a = cc in next x refl (subst P (sym h) p)

pub branch-Returns {ℓ κ} :
    {A : Type ℓ} (Q : A → Type κ) (b : Bool) (x y : Option A)
    → (b ≡ true → Returns Q x)
    → (b ≡ false → Returns Q y)
    → Returns Q (if b then x else y)
branch-Returns Q true x y yes_case no_case = yes_case refl
branch-Returns Q false x y yes_case no_case = no_case refl

pub get_elem?-Returns : (d : List ℕ) (i : ℕ) → i < length d → Returns Any (get_elem? d i)
get_elem?-Returns d i h = (get_or d i 0, get_elem?-eq-get_or d i 0 h, tt)

pub pntoh16-Returns : (d : List ℕ) (p : ℕ) → p + 1 < length d → Returns Any (pntoh16 d p)
pntoh16-Returns d p h = let r = pntoh16_total d p h in (r.0, r.1, tt)

pub pntoh24-Returns : (d : List ℕ) (p : ℕ) → p + 2 < length d → Returns Any (pntoh24 d p)
unfolding pntoh24
pntoh24-Returns d p h =
    bind-Returns Any Any (get_elem? d p) _ (get_elem?-Returns d p (omega arith)) (λ a _ _.
      bind-Returns Any Any (get_elem? d (p + 1)) _ (get_elem?-Returns d (p + 1) (omega arith))
        (λ b _ _.
          bind-Returns Any Any (get_elem? d (p + 2)) _ (get_elem?-Returns d (p + 2) h)
            (λ c _ _. some-Returns Any _ tt)))

pub weaken-Returns {ℓ κ μ} :
    {A : Type ℓ} {P : A → Type κ} {Q : A → Type μ} {o : Option A}
    → ((a : A) → P a → Q a)
    → Returns P o
    → Returns Q o
weaken-Returns f r = (r.0, r.1, f r.0 r.2)

-- The two parts of a test, the second under the first.
pub and-Returns {κ μ} :
    (P : Type κ) (Q : Type μ) (a b : Option Bool)
    → Returns (λ (t : Bool). t ≡ true → P) a
    → (P → Returns (λ (t : Bool). t ≡ true → Q) b)
    → Returns (λ (t : Bool). t ≡ true → P × Q) (a &&? b)
and-Returns P Q none b (t, e, p) next = absurd (cc)
and-Returns P Q (some false) b (t, e, p) next = (false, refl, λ h. absurd (cc))
and-Returns P Q (some true) b (t, e, p) next =
    let yes_first : P = p (cc) in let r = next yes_first in (r.0, r.1, λ h. (yes_first, r.2 h))

pub test-Returns {κ} :
    (P : Type κ) (b : Bool) → (b ≡ true → P) → Returns (λ (t : Bool). t ≡ true → P) (some b)
test-Returns P b p = (b, refl, p)

-- Two chains from one value: the second returns where the first does.
pub both-Returns {ℓ κ μ ν} :
    {A : Type ℓ} {B : Type κ} {C : Type μ} (P : C → Type ν) (o : Option A) (f : A → Option B)
    (g : A → Option C) {b : B}
    → ((a : A) → f a ≡ some b → Returns P (g a))
    → (o >>= f) ≡ some b
    → Returns P (o >>= g)
both-Returns P none f g next e = absurd (cc)
both-Returns P (some a) f g next e = next a e

-- A test of a computed value that guards a read.
pub and_Any-Returns :
    (a : Bool) (b : Option Bool) → (a ≡ true → Returns Any b) → Returns Any (some a &&? b)
and_Any-Returns true b next = next refl
and_Any-Returns false b next = (false, refl, tt)

-- A test of a byte, and two tests in a row.
pub byte_is-Returns :
    (d : List ℕ) (p : ℕ) (test : ℕ → Bool) → p < length d → Returns Any (byte_is d p test)
byte_is-Returns d p test h =
    bind-Returns Any Any (get_elem? d p) _ (get_elem?-Returns d p h) (λ b _ _. (test b, refl, tt))

pub and-Any : (a b : Option Bool) → Returns Any a → Returns Any b → Returns Any (a &&? b)
and-Any a b ra rb =
    bind-Returns Any Any a _ ra
      (λ t _ _. branch-Returns Any t _ _ (λ _. rb) (λ _. (false, refl, tt)))

pub word_is-Returns :
    (d : List ℕ) (p : ℕ) (test : ℕ → Bool)
    → p + 1 < length d
    → Returns Any (do v ← pntoh16 d p; some (test v))
word_is-Returns d p test h =
    bind-Returns Any Any (pntoh16 d p) _ (pntoh16-Returns d p h) (λ v _ _. (test v, refl, tt))

pub pntoh32-Returns : (d : List ℕ) (p : ℕ) → p + 3 < length d → Returns Any (pntoh32 d p)
unfolding pntoh32
pntoh32-Returns d p h =
    bind-Returns Any Any (get_elem? d p) _ (get_elem?-Returns d p (omega arith)) (λ a _ _.
      bind-Returns Any Any (get_elem? d (p + 1)) _ (get_elem?-Returns d (p + 1) (omega arith))
        (λ b _ _.
          bind-Returns Any Any (get_elem? d (p + 2)) _ (get_elem?-Returns d (p + 2) (omega arith))
            (λ c _ _.
              bind-Returns Any Any (get_elem? d (p + 3)) _ (get_elem?-Returns d (p + 3) h)
                (λ e _ _. some-Returns Any _ tt))))

pub pntoh64-Returns : (d : List ℕ) (p : ℕ) → p + 7 < length d → Returns Any (pntoh64 d p)
unfolding pntoh64
pntoh64-Returns d p h =
    let at : (i : ℕ) → i ≤ 7 → Returns Any (get_elem? d (p + i)) =
      λ i le. get_elem?-Returns d (p + i) (omega arith) in
    bind-Returns Any Any (get_elem? d p) _ (get_elem?-Returns d p (omega arith)) (λ b0 _ _.
      bind-Returns Any Any _ _ (at 1 (omega arith)) (λ b1 _ _.
        bind-Returns Any Any _ _ (at 2 (omega arith)) (λ b2 _ _.
          bind-Returns Any Any _ _ (at 3 (omega arith)) (λ b3 _ _.
            bind-Returns Any Any _ _ (at 4 (omega arith)) (λ b4 _ _.
              bind-Returns Any Any _ _ (at 5 (omega arith)) (λ b5 _ _.
                bind-Returns Any Any _ _ (at 6 (omega arith)) (λ b6 _ _.
                  bind-Returns Any Any _ _ (at 7 (omega arith))
                    (λ b7 _ _. some-Returns Any _ tt))))))))
