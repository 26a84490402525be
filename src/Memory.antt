-- ===== src/Memory.antt =====
-- A C buffer is a list of bytes; a pointer into it is an index. An access outside the buffer is
-- the fault `none`, which C leaves undefined.
pub mod Laws
pub mod Safe
use zapret.Base.{
  ℕ, zero, suc, ◌+◌, ◌-◌, ◌^◌, ◌<◌, List, [], ◌∷◌, Option, none, some, get_elem?, Bool, true, false,
  if◌then◌else◌, ltb,
}

infixl 5 ◌>>=◌
abbrev pub ◌>>=◌ {ℓ κ} : {A : Type ℓ} {B : Type κ} → Option A → (A → Option B) → Option B
none >>= f = none
some a >>= f = f a

-- `d[p] = v`.
unfoldable pub put : List ℕ → ℕ → ℕ → Option (List ℕ)
put [] p v = none
put (x ∷ d) zero v = some (v ∷ d)
put (x ∷ d) (suc p) v = do d' ← put d p v; some (x ∷ d')

-- `d[p] = b0; d[p+1] = b1; ...`, in this order.
unfoldable pub store : List ℕ → ℕ → List ℕ → Option (List ℕ)
store d p [] = some d
store d p (b ∷ bs) = do d' ← put d p b; store d' (p + 1) bs

-- Every byte is in range.
abbrev pub Bytes : List ℕ → Type 0
Bytes [] = Unit {0}
Bytes (b ∷ bs) = (b < 256) × Bytes bs

-- `a && b` and `a || b`, where the second part is evaluated only if the first does not decide.
infixr 6 ◌&&?◌
abbrev pub ◌&&?◌ : Option Bool → Option Bool → Option Bool
a &&? b = do t ← a; if t then b else some false

infixr 5 ◌||?◌
abbrev pub ◌||?◌ : Option Bool → Option Bool → Option Bool
a ||? b = do t ← a; if t then some true else b

-- `a - b` of two `size_t`.
abbrev pub minus64 : ℕ → ℕ → ℕ
minus64 a b = if ltb a b then a + 2 ^ 64 - b else a - b

-- A test of the byte at `p`.
abbrev pub byte_is : List ℕ → ℕ → (ℕ → Bool) → Option Bool
byte_is d p test = do b ← get_elem? d p; some (test b)
