-- ===== src/Quic/Defrag/Full.antt =====
-- The frames are full exactly if no byte is missing before the last.
use zapret.Base.{
  SortedBy, ℕ, ◌+◌, ◌-◌, ◌≤◌, ◌<◌, ◌≡◌, refl, subst, List, [], ◌∷◌, Bool, true, false, ◌&&◌, leb,
  ◌==◌, if◌then◌else◌, arith, max, Bool-cases, inl, inr, ◌↔◌, In, All-In,
}
use zapret.Quic.Defrag.{Range64, merge_from, merge, is_full}

abbrev pub end_of : Range64 → ℕ
end_of r = r.offset + r.len

-- A byte in a piece, and a byte before the end of a piece.
abbrev pub Covered : ℕ → List Range64 → Type 0
Covered a rs = (r : Range64) × In r rs × (r.offset ≤ a) × (a < end_of r)

abbrev pub Below : ℕ → List Range64 → Type 0
Below a rs = (r : Range64) × In r rs × (a < end_of r)

-- In the order of the offsets.
abbrev pub ByOffset : List Range64 → Type 0
ByOffset = SortedBy (λ r. r.offset)

-- Each piece starts no later than those before it end.
joins : ℕ → List Range64 → Bool
joins end [] = true
joins end (r ∷ rs) =
    let rest = joins (max (end_of r) end) rs in if leb r.offset end then rest else false

many-is_full :
    (r : Range64) (rs : List Range64) (current : Range64)
    → is_full (r ∷ merge_from current rs) ≡ false
unfolding is_full merge_from
many-is_full r [] current = refl
many-is_full r (next ∷ rs) current = elim (Bool-cases (leb next.offset (end_of current))) [
  | inl meets ↦ rw meets (many-is_full r rs _)
  | inr gap ↦ rw gap refl
]

is_full-joins :
    (rs : List Range64) (current : Range64)
    → is_full (merge_from current rs) ≡ (joins (end_of current) rs && (current.offset == 0))
unfolding is_full merge_from joins
is_full-joins [] current = refl
is_full-joins (next ∷ rs) current = elim (Bool-cases (leb next.offset (end_of current))) [
  | inl meets ↦
      let grown : Range64 = record current {
        len = max (end_of next) (end_of current) - current.offset;
      } in
      let same : end_of grown ≡ max (end_of next) (end_of current) = omega arith in
      let rest = is_full-joins rs grown in
      rw meets (
        subst (λ (e : ℕ). is_full (merge_from grown rs) ≡ (joins e rs && (current.offset == 0)))
          same rest)
  | inr gap ↦ rw gap (many-is_full current rs next)
]

joins-Covered :
    (end a : ℕ) (rs : List Range64) → joins end rs ≡ true → end ≤ a → Below a rs → Covered a rs
unfolding joins
joins-Covered end a [] e from (r, there, below) = absurd there
joins-Covered end a (r ∷ rs) e from (s, there, below) = elim (Bool-cases (leb r.offset end)) [
  | inr gap ↦ absurd (ground arith)
  | inl meets ↦
      let rest_joins = rw meets at e in
      elim (Bool-cases (leb (end_of r) a)) [
        | inr inside ↦ (r, inl refl, ground arith, ground arith)
        | inl behind ↦ elim there [
          | inl here ↦
              let below_r : a < end_of r = subst (λ (t : Range64). a < end_of t) here below in
              absurd (ground arith)
          | inr later ↦
              let (t, there', low, high) =
                joins-Covered (max (end_of r) end) a rs rest_joins (ground arith)
                  (s, later, below) in
              (t, inr there', low, high)
        ]
      ]
]

-- The first byte that is missing.
missing :
    (end : ℕ) (rs : List Range64)
    → ByOffset rs
    → joins end rs ≡ false
    → (a : ℕ) × (end ≤ a) × Below a rs × ¬ (Covered a rs)
unfolding joins
missing end [] up e = absurd (cc)
missing end (r ∷ rs) up e = elim (Bool-cases (leb r.offset end)) [
  | inl meets ↦
      let (a, from, (s, there, below), uncovered) =
        missing (max (end_of r) end) rs up.1 (rw meets at e) in
      (
        a,
        omega (arith, from),
        (s, inr there, below),
        λ (t, t_there, low, high). elim t_there [
          | inl here ↦
              let high_r : a < end_of r = subst (λ (u : Range64). a < end_of u) here high in
              omega (arith, from, high_r)
          | inr later ↦ uncovered (t, later, low, high)
        ],
      )
  | inr gap ↦
      let far : end < r.offset = ground arith in
      (
        end,
        omega arith,
        (r, inl refl, omega arith),
        λ (t, t_there, low, high). elim t_there [
          | inl here ↦
              let low_r : r.offset ≤ end = subst (λ (u : Range64). u.offset ≤ end) here low in
              omega arith
          | inr later ↦
              let after = All-In (λ (u : Range64). r.offset ≤ u.offset) rs t up.0 later in
              omega (arith, after)
        ],
      )
]

-- No byte is missing before the end of a piece.
abbrev pub Complete : List Range64 → Type 0
Complete rs = (a : ℕ) → Below a rs → Covered a rs

joined_from-Complete :
    (r : Range64) (rs : List Range64)
    → joins (end_of r) rs ≡ true
    → r.offset ≡ 0
    → Complete (r ∷ rs)
joined_from-Complete r rs e start = λ a (s, there, below). elim (Bool-cases (leb (end_of r) a)) [
  | inr inside ↦ (r, inl refl, omega arith, ground arith)
  | inl behind ↦ elim there [
    | inl here ↦
        let below_r : a < end_of r = subst (λ (t : Range64). a < end_of t) here below in
        absurd (ground arith)
    | inr later ↦
        let (t, there', low, high) =
          joins-Covered (end_of r) a rs e (ground arith) (s, later, below) in
        (t, inr there', low, high)
  ]
]

-- The first byte is in the first piece of complete ones.
starts_at_0 :
    (r : Range64) (rs : List Range64) → ByOffset (r ∷ rs) → Complete (r ∷ rs) → r.offset ≡ 0
starts_at_0 r rs up complete = elim (Bool-cases (r.offset == 0)) [
  | inl zero_offset ↦ ground arith
  | inr more ↦
      let (t, there, low, high) = complete 0 (r, inl refl, ground arith) in
      elim there [
        | inl here ↦
            let low_r : r.offset ≤ 0 = subst (λ (u : Range64). u.offset ≤ 0) here low in omega arith
        | inr later ↦
            let after = All-In (λ (u : Range64). r.offset ≤ u.offset) rs t up.0 later in
            omega (arith, after)
      ]
]

Complete-joins :
    (r : Range64) (rs : List Range64)
    → ByOffset (r ∷ rs)
    → Complete (r ∷ rs)
    → joins (end_of r) rs ≡ true
Complete-joins r rs up complete = elim (Bool-cases (joins (end_of r) rs)) [
  | inl yes_joins ↦ yes_joins
  | inr no_joins ↦
      let (a, from, (s, there, below), uncovered) = missing (end_of r) rs up.1 no_joins in
      let (t, t_there, low, high) = complete a (s, inr there, below) in
      elim t_there [
        | inl here ↦
            let high_r : a < end_of r = subst (λ (u : Range64). a < end_of u) here high in
            absurd (omega (arith, from, high_r))
        | inr later ↦ absurd (uncovered (t, later, low, high))
      ]
]

sorted-Complete :
    (r : Range64) (l : List Range64) → ByOffset l → In r l → (is_full (merge l) ≡ true) ↔ Complete l
unfolding merge
sorted-Complete r [] up there = absurd there
sorted-Complete r (s ∷ l) up there =
    let same = is_full-joins l s in
    (
      λ full.
          let joined : joins (end_of s) l ≡ true = ground arith in
          let start : s.offset ≡ 0 = ground arith in joined_from-Complete s l joined start,
      λ complete.
          let joined = Complete-joins s l up complete in
          let start = starts_at_0 s l up complete in ground arith,
    )

-- For any `qsort` that orders pieces by their offset and keeps them, and at least one piece: the
-- result is marked as full exactly if every byte before the end of a piece lies in a piece.
pub is_full-Complete :
    (qsort : List Range64 → List Range64)
    → ((l : List Range64) → ByOffset (qsort l))
    → ((l : List Range64) (r : Range64) → In r (qsort l) ↔ In r l)
    → (r : Range64) (rs : List Range64)
    → (is_full (merge (qsort (r ∷ rs))) ≡ true) ↔ Complete (r ∷ rs)
is_full-Complete qsort sorts keeps r rs =
    let l = qsort (r ∷ rs) in
    let same = sorted-Complete r l (sorts (r ∷ rs)) ((keeps (r ∷ rs) r).1 (inl refl)) in
    (
      λ full a (s, there, below).
          let (t, t_there, low, high) = same.0 full a (s, (keeps (r ∷ rs) s).1 there, below) in
          (t, (keeps (r ∷ rs) t).0 t_there, low, high),
      λ complete. same.1 (λ a (s, there, below).
          let (t, t_there, low, high) = complete a (s, (keeps (r ∷ rs) s).0 there, below) in
          (t, (keeps (r ∷ rs) t).1 t_there, low, high)),
    )
