-- ===== src/Position/Bounds.antt =====
-- The end of the domain, its second level and positions in it: inside the message.
use zapret.Base.{
  ℕ, zero, suc, ◌+◌, ◌-◌, ◌≤◌, ◌<◌, refl, List, Option, none, some, ltb, leb, arith, length,
  Bool-cases, inl, inr, ltb→lt, ◌⊎◌, ◌≡◌,
}
use zapret.Memory.Safe.{
  Returns, Any, some-Returns, bind-Returns, branch-Returns, get_elem?-Returns, weaken-Returns,
}
use zapret.Position.{
  Marker, ℤ, is_dot, back, up, from_dom, nld_at, find_nld, check_pos, sld_pos, host_sld_pos,
}

-- A position that was found is below the size.
abbrev pub Within : ℕ → Option ℕ → Type 0
Within sz none = Unit {0}
Within sz (some offset) = offset < sz

pub check_pos-Within : (sz : ℕ) (o : Option ℕ) → Within sz (check_pos sz o)
unfolding check_pos
check_pos-Within sz none = tt
check_pos-Within sz (some offset) = elim (Bool-cases (ltb offset sz)) [
  | inl inside ↦ rw inside (ltb→lt offset sz inside)
  | inr outside ↦ rw outside tt
]

from_dom-Returns :
    (d : List ℕ) (dom p : ℕ) → dom ≤ p → p < length d → Returns Any (from_dom d dom p)
from_dom-Returns d dom p from h =
    branch-Returns Any (ltb p dom) _ _ (λ before. absurd (ground arith))
      (λ _. get_elem?-Returns d p h)

-- What the loop back from `p` leaves: it does not pass the start of the domain.
abbrev Back : ℕ → ℕ → ℕ → Type 0
Back dom p q = (q ≤ p) × ((dom ≤ q) ⊎ (q ≡ p))

back-Returns : (d : List ℕ) (dom p : ℕ) → p < length d → Returns (Back dom p) (back d dom p)
unfolding back
back-Returns d dom zero h = (zero, refl, (omega arith, inr refl))
back-Returns d dom (suc p) h =
    branch-Returns (Back dom (suc p)) (ltb dom (suc p)) _ _
      (λ more.
        let inside : dom ≤ p = ground arith in
        bind-Returns Any _ (from_dom d dom (suc p)) _
          (from_dom-Returns d dom (suc p) (omega arith) h)
          (λ b _ _.
            branch-Returns (Back dom (suc p)) (is_dot b) _ _
              (λ _. some-Returns (Back dom (suc p)) (suc p) (omega arith, inr refl))
              (λ _.
                weaken-Returns (λ q at. (omega (arith, at.0), ground (arith, at.0, at.1)))
                  (back-Returns d dom p (omega arith)))))
      (λ _. some-Returns (Back dom (suc p)) (suc p) (omega arith, inr refl))

-- An end of a domain that was found lies in the memory.
abbrev Ends : ℕ → Option ℕ → Type 0
Ends bound none = Unit {0}
Ends bound (some p2) = p2 ≤ bound

up-Returns :
    (n : ℕ) (d : List ℕ) (dom p2 : ℕ)
    → 0 < length d
    → p2 ≤ length d
    → Returns (Ends (length d)) (up n d dom p2)
unfolding up
up-Returns zero d dom p2 some_byte fits = some-Returns (Ends (length d)) (some p2) fits
up-Returns (suc n) d dom p2 some_byte fits =
    bind-Returns (Back dom (p2 - 1)) _ (back d dom (p2 - 1)) _
      (back-Returns d dom (p2 - 1) (omega arith))
      (λ p _ (le, _).
        branch-Returns (Ends (length d)) (leb p dom) _ _ (λ _. some-Returns _ none tt)
          (λ _. up-Returns n d dom p some_byte (omega arith)))

nld_at-Returns :
    (d : List ℕ) (dom : ℕ) (end : Option ℕ) → Ends (length d) end → Returns Any (nld_at d dom end)
unfolding nld_at
nld_at-Returns d dom none fits = some-Returns Any none tt
nld_at-Returns d dom (some p2) fits =
    branch-Returns Any (leb p2 dom) _ _ (λ _. some-Returns Any none tt)
      (λ more.
        let pos_end : dom < p2 = ground arith in
        bind-Returns (Back dom (p2 - 1)) Any (back d dom (p2 - 1)) _
          (back-Returns d dom (p2 - 1) (omega arith))
          (λ p1 _ (le, at).
            bind-Returns Any Any (from_dom d dom p1) _
              (from_dom-Returns d dom p1 (ground arith) (omega arith))
              (λ b _ _. some-Returns Any _ tt)))

pub find_nld-Returns :
    (d : List ℕ) (dom dlen level : ℕ)
    → 0 < length d
    → dom + dlen ≤ length d
    → Returns Any (find_nld d dom dlen level)
unfolding find_nld
find_nld-Returns d dom dlen zero some_byte fits = some-Returns Any none tt
find_nld-Returns d dom dlen (suc n) some_byte fits =
    bind-Returns (Ends (length d)) Any (up n d dom (dom + dlen)) _
      (up-Returns n d dom (dom + dlen) some_byte fits) (λ end _ ends. nld_at-Returns d dom end ends)

sld_pos-Within :
    (m : Marker) (k : ℤ) (p sz : ℕ) (nld : Option (ℕ × ℕ)) → Within sz (sld_pos m k p sz nld)
unfolding sld_pos
sld_pos-Within m k p sz none = tt
sld_pos-Within m k p sz (some (s, slen)) = check_pos-Within sz _

pub host_sld_pos-Returns :
    (m : Marker) (k : ℤ) (d : List ℕ) (p sz offset_host len_host : ℕ)
    → 0 < length d
    → p + offset_host + len_host ≤ length d
    → Returns (Within sz) (host_sld_pos m k d p sz offset_host len_host)
unfolding host_sld_pos
host_sld_pos-Returns m k d p sz offset_host len_host some_byte fits =
    branch-Returns (Within sz) (ltb sz (offset_host + len_host)) _ _ (λ _. some-Returns _ none tt)
      (λ _.
        bind-Returns Any _ (find_nld d (p + offset_host) len_host 2) _
          (find_nld-Returns d (p + offset_host) len_host 2 some_byte fits)
          (λ nld _ _. (_, refl, sld_pos-Within m k p sz nld)))
