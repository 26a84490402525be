-- ===== src/Base/Sort.antt =====
-- Insertion sort by a key, with which the results about a parameter for `qsort` are applied.
use Prim.Native.Nat.{ℕ, ◌≤◌}
use mathlib.Core.Path.{sym, subst}
use mathlib.Core.Logic.{◌↔◌, inl, inr}
use mathlib.Core.List.{List, [], ◌∷◌}
use native.Mathlib.Omega.{arith}
use zapret.Base.Tests.{leb, if◌then◌else◌, Bool-cases}
use zapret.Base.Lists.{All, In, In-All, All-In, SortedBy}

module _ {A : Type 0} (key : A → ℕ) where
  abbrev pub insert : A → List A → List A
  insert x [] = x ∷ []
  insert x (y ∷ ys) = let rest = insert x ys in if leb (key x) (key y) then x ∷ y ∷ ys else y ∷ rest

  abbrev pub sort : List A → List A
  sort [] = []
  sort (x ∷ xs) = insert x (sort xs)

  insert-In : (x : A) (xs : List A) (a : A) → In a (insert x xs) ↔ In a (x ∷ xs)
  insert-In x [] a = (λ h. h, λ h. h)
  insert-In x (y ∷ ys) a = elim (Bool-cases (leb (key x) (key y))) [
    | inl first ↦ rw first (λ h. h, λ h. h)
    | inr later ↦
        let rest = insert-In x ys a in
        rw later (
          λ h. elim h [
            | inl here ↦ inr (inl here)
            | inr there ↦ elim (rest.0 there) [ inl new ↦ inl new | inr old ↦ inr (inr old) ]
          ],
          λ h. elim h [
            | inl new ↦ inr (rest.1 (inl new))
            | inr there ↦ elim there [ inl here ↦ inl here | inr old ↦ inr (rest.1 (inr old)) ]
          ],
        )
  ]

  pub sort-In : (xs : List A) (a : A) → In a (sort xs) ↔ In a xs
  sort-In [] a = (λ h. h, λ h. h)
  sort-In (x ∷ xs) a =
      let added = insert-In x (sort xs) a in
      let rest = sort-In xs a in
      (
        λ h. elim (added.0 h) [ inl new ↦ inl new | inr there ↦ inr (rest.0 there) ],
        λ h. elim h [ inl new ↦ added.1 (inl new) | inr there ↦ added.1 (inr (rest.1 there)) ],
      )

  lower_bound :
      (x y : A) (ys : List A)
      → key x ≤ key y
      → All (λ (z : A). key y ≤ key z) ys
      → All (λ (z : A). key x ≤ key z) ys
  lower_bound x y [] le h = tt
  lower_bound x y (z ∷ zs) le h = (omega (arith, h.0), lower_bound x y zs le h.1)

  insert-All :
      (x y : A) (ys : List A)
      → key y ≤ key x
      → All (λ (z : A). key y ≤ key z) ys
      → All (λ (z : A). key y ≤ key z) (insert x ys)
  insert-All x y ys le h =
      In-All (λ (z : A). key y ≤ key z) (insert x ys)
        (λ a there. elim ((insert-In x ys a).0 there) [
          | inl new ↦ subst (λ (z : A). key y ≤ key z) (sym new) le
          | inr old ↦ All-In (λ (z : A). key y ≤ key z) ys a h old
        ])

  insert-SortedBy : (x : A) (xs : List A) → SortedBy key xs → SortedBy key (insert x xs)
  insert-SortedBy x [] up = (tt, tt)
  insert-SortedBy x (y ∷ ys) up = elim (Bool-cases (leb (key x) (key y))) [
    | inl first ↦
        let le : key x ≤ key y = ground arith in rw first ((le, lower_bound x y ys le up.0), up)
    | inr later ↦
        let le : key y ≤ key x = ground arith in
        rw later (insert-All x y ys le up.0, insert-SortedBy x ys up.1)
  ]

  pub sort-SortedBy : (xs : List A) → SortedBy key (sort xs)
  sort-SortedBy [] = tt
  sort-SortedBy (x ∷ xs) = insert-SortedBy x (sort xs) (sort-SortedBy xs)
