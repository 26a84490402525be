-- ===== src/Strings/Search.antt =====
-- `strncasestr` finds the first place of a text.
use zapret.Base.{
  ℕ, zero, suc, ◌+◌, ◌≤◌, ◌<◌, ◌≡◌, refl, List, [], ◌∷◌, Option, none, some, true, false, ltb,
  arith, get_elem?, length, inl, inr, ◌⊎◌,
}
use zapret.Memory.Safe.{
  Returns, Any, bind-Returns, branch-Returns, get_elem?-Returns, weaken-Returns,
}
use zapret.Strings.{same_letter, case_eq, mem_eq, search_case, strncasestr}

pub case_eq-Returns :
    (d : List ℕ) (p : ℕ) (cs : List ℕ) → p + length cs ≤ length d → Returns Any (case_eq d p cs)
unfolding case_eq
case_eq-Returns d p [] h = (true, refl, tt)
case_eq-Returns d p (c ∷ cs) h =
    bind-Returns Any Any (get_elem? d p) _ (get_elem?-Returns d p (omega arith)) (λ b _ _.
      branch-Returns Any (same_letter c b) _ _ (λ _. case_eq-Returns d (p + 1) cs (omega arith))
        (λ _. (false, refl, tt)))

pub mem_eq-Returns :
    (d : List ℕ) (p : ℕ) (cs : List ℕ) → p + length cs ≤ length d → Returns Any (mem_eq d p cs)
unfolding mem_eq
mem_eq-Returns d p [] h = (true, refl, tt)
mem_eq-Returns d p (c ∷ cs) h =
    bind-Returns Any Any (get_elem? d p) _ (get_elem?-Returns d p (omega arith)) (λ b _ _.
      bind-Returns Any Any (mem_eq d (p + 1) cs) _ (mem_eq-Returns d (p + 1) cs (omega arith))
        (λ rest _ _. (_, refl, tt)))

-- The text does not stand at `i`, in the bytes before `end`.
abbrev pub Misses : List ℕ → ℕ → List ℕ → ℕ → Type 0
Misses d end find i = (end < i + length find) ⊎ (case_eq d i find ≡ some false)

-- The first place of the text in the bytes from `s` to `end`, or that there is none.
abbrev pub FirstIn : List ℕ → ℕ → ℕ → List ℕ → Option ℕ → Type 0
FirstIn d s end find none = (i : ℕ) → s ≤ i → Misses d end find i
FirstIn d s end find (some q) =
    (s ≤ q)
    × (q + length find ≤ end)
    × (case_eq d q find ≡ some true)
    × ((i : ℕ) → s ≤ i → i < q → Misses d end find i)

here_or_after : (s i : ℕ) → s ≤ i → (s ≡ i) ⊎ (s + 1 ≤ i)
here_or_after s i le = ground arith

Misses-cons :
    (d : List ℕ) (s end : ℕ) (find : List ℕ) (i : ℕ)
    → Misses d end find s
    → s ≤ i
    → (s + 1 ≤ i → Misses d end find i)
    → Misses d end find i
Misses-cons d s end find i miss le after = elim (here_or_after s i le) [
  | inl here ↦ rw⁻¹ here miss
  | inr later ↦ after later
]

-- A place before all others that does not match.
FirstIn-later :
    (d : List ℕ) (s end : ℕ) (find : List ℕ) (r : Option ℕ)
    → Misses d end find s
    → FirstIn d (s + 1) end find r
    → FirstIn d s end find r
FirstIn-later d s end find none miss f =
    λ i le. Misses-cons d s end find i miss le (λ later. f i later)
FirstIn-later d s end find (some q) miss (from, fits, same, before) = (
  omega arith,
  fits,
  same,
  λ i le lt. Misses-cons d s end find i miss le (λ later. before i later lt),
)

search_case-Returns :
    (d : List ℕ) (s slen end c : ℕ) (find : List ℕ)
    → end ≤ length d
    → s + slen ≡ end
    → Returns (FirstIn d s end (c ∷ find)) (search_case d s slen c find)
unfolding search_case case_eq
search_case-Returns d s zero end c find fits to = (none, refl, λ i le. inl (omega arith))
search_case-Returns d s (suc slen) end c find fits to =
    let again : Misses d end (c ∷ find) s
        → Returns (FirstIn d s end (c ∷ find)) (search_case d (s + 1) slen c find) =
      λ miss.
        weaken-Returns (λ r f. FirstIn-later d s end (c ∷ find) r miss f)
          (search_case-Returns d (s + 1) slen end c find fits (omega arith)) in
    bind-Returns Any _ (get_elem? d s) _ (get_elem?-Returns d s (omega arith)) (λ sc e _.
      branch-Returns _ (same_letter c sc) _ _
        (λ first.
          branch-Returns _ (ltb slen (length find)) _ _
            (λ short. (none, refl, λ i le. inl (ground arith)))
            (λ long.
              let room : length find ≤ slen = ground arith in
              bind-Returns Any _ (case_eq d (s + 1) find) _
                (case_eq-Returns d (s + 1) find (omega arith))
                (λ same e2 _.
                  branch-Returns _ same _ _
                    (λ yes_same. (
                      some s,
                      refl,
                      (
                        omega arith,
                        omega arith,
                        rw (e, first, e2, yes_same) refl,
                        λ i le lt. absurd (omega arith),
                      ),
                    ))
                    (λ no_same. again (inr (rw (e, first, e2, no_same) refl))))))
        (λ differs. again (inr (rw (e, differs) refl))))

-- In `slen` bytes that may be read, the search for a text of at least one byte returns, reads only
-- them, and gives the first place in them at which the text stands, upper and lower case taken as
-- one, or says that it stands nowhere in them.
pub strncasestr-FirstIn :
    (d : List ℕ) (s slen c : ℕ) (find : List ℕ)
    → s + slen ≤ length d
    → Returns (FirstIn d s (s + slen) (c ∷ find)) (strncasestr d s (c ∷ find) slen)
unfolding strncasestr
strncasestr-FirstIn d s slen c find fits = search_case-Returns d s slen (s + slen) c find fits refl
