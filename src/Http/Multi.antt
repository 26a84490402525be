-- ===== src/Http/Multi.antt =====
-- `ResolveMultiPos`: the positions of several markers, in order and without duplicates.
use zapret.Base.{
  SortedBy, ℕ, zero, suc, ◌+◌, ◌≤◌, ◌<◌, ◌≡◌, refl, List, [], ◌∷◌, Option, none, some, ◌==◌, arith,
  length, inl, inr, Bool-cases, ◌⊎◌, ◌↔◌, All, In, In-All, All-In, subst,
}
use zapret.Memory.Safe.{Returns, bind-Returns}
use zapret.Strings.{pass_equal, unique_from, unique}
use zapret.Position.{Marker, ℤ}
use zapret.Position.Bounds.{Within}
use zapret.Http.Pos.{Payload, resolve_pos, keep_found, resolve_all, resolve_multi_pos}
use zapret.Http.Resolve.{resolve_pos-Returns}

-- Not descending, and ascending.
abbrev pub Ascends : List ℕ → Type 0
Ascends = SortedBy (λ n. n)

abbrev pub Rises : List ℕ → Type 0
Rises [] = Unit {0}
Rises (x ∷ xs) = All (λ y. x < y) xs × Rises xs

-- What comes after the copies of `u` in an array in order.
abbrev Passed : ℕ → List ℕ → List ℕ → Type 0
Passed u xs ys =
    All (λ y. u < y) ys
    × Ascends ys
    × (length ys ≤ length xs)
    × ((a : ℕ) → In a xs → (a ≡ u) ⊎ In a ys)
    × ((a : ℕ) → In a ys → In a xs)

above-All : (x u : ℕ) (xs : List ℕ) → u < x → All (λ y. x ≤ y) xs → All (λ y. u < y) xs
above-All x u [] lt h = tt
above-All x u (y ∷ ys) lt h = (omega (arith, h.0), above-All x u ys lt h.1)

pass_equal-Passed :
    (u : ℕ) (xs : List ℕ) → All (λ y. u ≤ y) xs → Ascends xs → Passed u xs (pass_equal u xs)
unfolding pass_equal
pass_equal-Passed u [] low up = (tt, tt, omega arith, λ a there. absurd there, λ a there. there)
pass_equal-Passed u (x ∷ xs) low up = elim (Bool-cases (x == u)) [
  | inl same ↦
      let at : x ≡ u = ground arith in
      let (above, order, short, kept, back) = pass_equal-Passed u xs low.1 up.1 in
      rw same (
        above,
        order,
        omega (arith, short),
        λ a there. elim there [ inl here ↦ inl (rw here at) | inr later ↦ kept a later ],
        λ a there. inr (back a there),
      )
  | inr other ↦
      let more : u < x = ground (arith, low.0) in
      rw other (
        (more, above-All x u xs more up.0),
        up,
        omega arith,
        λ a there. inr there,
        λ a there. there,
      )
]

-- The same members.
abbrev SameSet : List ℕ → List ℕ → Type 0
SameSet xs ys = (a : ℕ) → In a ys ↔ In a xs

-- Without its duplicates an array in order rises and keeps its members.
unique_from-SameSet :
    (fuel : ℕ) (xs : List ℕ)
    → length xs ≤ fuel
    → Ascends xs
    → Rises (unique_from fuel xs) × SameSet xs (unique_from fuel xs)
unfolding unique_from
unique_from-SameSet zero [] short up = (tt, λ a. (λ h. h, λ h. h))
unique_from-SameSet zero (x ∷ xs) short up = absurd (omega arith)
unique_from-SameSet (suc fuel) [] short up = (tt, λ a. (λ h. h, λ h. h))
unique_from-SameSet (suc fuel) (x ∷ xs) short up =
    let (above, order, less, kept, back) = pass_equal-Passed x xs up.0 up.1 in
    let (rises, same) = unique_from-SameSet fuel (pass_equal x xs) (omega (arith, less)) order in
    (
      (
        In-All (λ y. x < y) _
            (λ a there. All-In (λ y. x < y) (pass_equal x xs) a above ((same a).0 there)),
        rises,
      ),
      λ a. (
        λ there. elim there [ inl here ↦ inl here | inr later ↦ inr (back a ((same a).0 later)) ],
        λ there. elim there [
          | inl here ↦ inl here
          | inr later ↦ elim (kept a later) [
            | inl copy ↦ inl copy
            | inr rest ↦ inr ((same a).1 rest)
          ]
        ],
      ),
    )

-- A marker of the list resolves to this position.
abbrev pub Resolves : Payload → List ℕ → ℕ → ℕ → List (Marker × ℤ) → ℕ → Type 0
Resolves l7 d p sz sps a =
    (sp : Marker × ℤ) × In sp sps × (resolve_pos l7 d p sz sp ≡ some (some a))

keep_found-In :
    (o : Option ℕ) (rest : List ℕ) (a : ℕ) → In a (keep_found o rest) ↔ ((o ≡ some a) ⊎ In a rest)
unfolding keep_found
keep_found-In none rest a = (λ h. inr h, λ h. elim h [ inl e ↦ absurd (cc) | inr there ↦ there ])
keep_found-In (some b) rest a = (
  λ h. elim h [ inl e ↦ inl (cc) | inr there ↦ inr there ],
  λ h. elim h [ inl e ↦ inl (cc) | inr there ↦ inr there ],
)

Resolves-cons :
    (l7 : Payload) (d : List ℕ) (p sz : ℕ) (sp : Marker × ℤ) (sps : List (Marker × ℤ)) (a : ℕ)
    (o : Option ℕ)
    → resolve_pos l7 d p sz sp ≡ some o
    → ((o ≡ some a) ⊎ Resolves l7 d p sz sps a) ↔ Resolves l7 d p sz (sp ∷ sps) a
Resolves-cons l7 d p sz sp sps a o e = (
  λ h. elim h [ inl first ↦ (sp, inl refl, cc) | inr (sp', there, at) ↦ (sp', inr there, at) ],
  λ (sp', there, at). elim there [
    | inl here ↦
        let at' : resolve_pos l7 d p sz sp ≡ some (some a) =
          subst (λ s. resolve_pos l7 d p sz s ≡ some (some a)) here at in
        inl (cc)
    | inr later ↦ inr (sp', later, at)
  ],
)

resolve_all-Returns :
    (l7 : Payload) (d : List ℕ) (p sz : ℕ) (sps : List (Marker × ℤ))
    → p + sz ≤ length d
    → Returns
        (λ (r : List ℕ). (a : ℕ) → In a r ↔ Resolves l7 d p sz sps a)
        (resolve_all l7 d p sz sps)
unfolding resolve_all
resolve_all-Returns l7 d p sz [] fits =
    ([], refl, λ a. (λ h. absurd h, λ (sp, there, at). absurd there))
resolve_all-Returns l7 d p sz (sp ∷ sps) fits =
    bind-Returns (Within sz) _ (resolve_pos l7 d p sz sp) _ (resolve_pos-Returns l7 d p sz sp fits)
      (λ o e _.
        bind-Returns (λ (r : List ℕ). (a : ℕ) → In a r ↔ Resolves l7 d p sz sps a) _
          (resolve_all l7 d p sz sps) _ (resolve_all-Returns l7 d p sz sps fits)
          (λ rest _ same. (
            keep_found o rest,
            refl,
            λ a.
                let cons = Resolves-cons l7 d p sz sp sps a o e in
                let kept = keep_found-In o rest a in
                (
                  λ there. cons.0 (elim (kept.0 there) [
                    | inl here ↦ inl here
                    | inr later ↦ inr ((same a).0 later)
                  ]),
                  λ there. kept.1 (elim (cons.1 there) [
                    | inl here ↦ inl here
                    | inr later ↦ inr ((same a).1 later)
                  ]),
                ),
          )))

-- For any `qsort` that puts an array in order and keeps its members, and any message of `sz` bytes,
-- all of which may be read: resolving several markers returns, reads only the memory, and gives in
-- ascending order, without duplicates, exactly the positions that one of them resolves to.
pub resolve_multi_pos-Rises :
    (qsort : List ℕ → List ℕ)
    → ((l : List ℕ) → Ascends (qsort l))
    → ((l : List ℕ) (a : ℕ) → In a (qsort l) ↔ In a l)
    → (l7 : Payload) (d : List ℕ) (p sz : ℕ) (sps : List (Marker × ℤ)) → p + sz ≤ length d
    → Returns
        (λ (r : List ℕ). Rises r × ((a : ℕ) → In a r ↔ Resolves l7 d p sz sps a))
        (resolve_multi_pos qsort l7 d p sz sps)
unfolding resolve_multi_pos unique
resolve_multi_pos-Rises qsort sorts keeps l7 d p sz sps fits =
    bind-Returns (λ (r : List ℕ). (a : ℕ) → In a r ↔ Resolves l7 d p sz sps a) _
      (resolve_all l7 d p sz sps) _ (resolve_all-Returns l7 d p sz sps fits)
      (λ r _ same.
        let (rises, set) =
          unique_from-SameSet (length (qsort r)) (qsort r) (omega arith) (sorts r) in
        (
          unique (qsort r),
          refl,
          (
            rises,
            λ a. (
              λ there. (same a).0 ((keeps r a).0 ((set a).0 there)),
              λ there. (set a).1 ((keeps r a).1 ((same a).1 there)),
            ),
          ),
        ))
