-- ===== src/Http/Bounds.antt =====
-- The parsers of HTTP read only the message.
use zapret.Base.{
  ℕ, zero, suc, ◌+◌, ◌≤◌, ◌≡◌, refl, List, [], ◌∷◌, Option, none, some, Bool, false, ltb, leb,
  arith, get_elem?, length,
}
use zapret.Memory.{◌&&?◌}
use zapret.Memory.Safe.{
  Returns, Any, bind-Returns, branch-Returns, get_elem?-Returns, weaken-Returns, and_Any-Returns,
}
use zapret.Strings.{mem_eq}
use zapret.Strings.Search.{mem_eq-Returns}
use zapret.Http.{
  http_methods, method_in, http_method_of, is_blank, is_eol, skip_while, skip_blanks, skip_word,
  is_version, after_method, after_check, is_http, http_1,
}

-- What is left of the bytes from `p` to `end` that may be read.
abbrev pub Rest : List ℕ → ℕ → ℕ → ℕ × ℕ → Type 0
Rest d p end (q, len) = (p ≤ q) × (q + len ≡ end) × (end ≤ length d)

pub skip_while-Returns :
    (test : ℕ → Bool) (d : List ℕ) (p len end : ℕ)
    → p + len ≡ end
    → end ≤ length d
    → Returns (Rest d p end) (skip_while test d p len)
unfolding skip_while
skip_while-Returns test d p zero end to fits = ((p, 0), refl, (omega arith, to, fits))
skip_while-Returns test d p (suc len) end to fits =
    bind-Returns Any _ (get_elem? d p) _ (get_elem?-Returns d p (omega arith)) (λ b _ _.
      branch-Returns (Rest d p end) (test b) _ _
        (λ _.
          weaken-Returns (λ r rest. (omega (arith, rest.0), rest.1, rest.2))
            (skip_while-Returns test d (p + 1) len end (omega arith) fits))
        (λ _. ((p, suc len), refl, (omega arith, to, fits))))

abbrev RestIf : List ℕ → ℕ → ℕ → Option (ℕ × ℕ) → Type 0
RestIf d p end none = Unit {0}
RestIf d p end (some r) = Rest d p end r

skip_blanks-Returns :
    (d : List ℕ) (p end : ℕ) (r : ℕ × ℕ)
    → Rest d p end r
    → Returns (RestIf d p end) (skip_blanks d r)
unfolding skip_blanks
skip_blanks-Returns d p end (q, zero) rest = (none, refl, tt)
skip_blanks-Returns d p end (q, suc len) (from, to, fits) =
    bind-Returns Any _ (get_elem? d q) _ (get_elem?-Returns d q (omega arith)) (λ b _ _.
      branch-Returns (RestIf d p end) (is_blank b) _ _
        (λ _.
          bind-Returns (Rest d q end) _ (skip_while is_blank d q (suc len)) _
            (skip_while-Returns is_blank d q (suc len) end to fits)
            (λ r _ rest. (some r, refl, (omega (arith, rest.0), rest.1, rest.2))))
        (λ _. (none, refl, tt)))

skip_word-Returns :
    (d : List ℕ) (p len end : ℕ)
    → p + len ≡ end
    → end ≤ length d
    → Returns (RestIf d p end) (skip_word d p len)
unfolding skip_word
skip_word-Returns d p len end to fits =
    bind-Returns (Rest d p end) _ (skip_while _ d p len) _
      (skip_while-Returns _ d p len end to fits) (λ r _ rest. skip_blanks-Returns d p end r rest)

is_version-Returns :
    (d : List ℕ) (p end : ℕ) (r : Option (ℕ × ℕ)) → RestIf d p end r → Returns Any (is_version d r)
unfolding is_version
is_version-Returns d p end none rest = (false, refl, tt)
is_version-Returns d p end (some (q, len)) (from, to, fits) =
    branch-Returns Any (ltb len 10) _ _ (λ _. (false, refl, tt))
      (λ long.
        let ten : 10 ≤ len = ground arith in
        bind-Returns Any Any (get_elem? d q) _ (get_elem?-Returns d q (omega arith)) (λ b _ _.
          branch-Returns Any (is_eol b) _ _ (λ _. (false, refl, tt))
            (λ _. mem_eq-Returns d q http_1 (omega arith))))

after_method-Returns :
    (d : List ℕ) (p end : ℕ) (r : Option (ℕ × ℕ))
    → RestIf d p end r
    → Returns Any (after_method d r)
unfolding after_method
after_method-Returns d p end none rest = (false, refl, tt)
after_method-Returns d p end (some (q, len)) (from, to, fits) =
    bind-Returns (RestIf d q end) Any (skip_word d q len) _ (skip_word-Returns d q len end to fits)
      (λ r _ rest. is_version-Returns d q end r rest)

method_in-Returns :
    (methods : List (List ℕ)) (d : List ℕ) (p len : ℕ)
    → p + len ≤ length d
    → Returns Any (method_in methods d p len)
unfolding method_in
method_in-Returns [] d p len fits = (none, refl, tt)
method_in-Returns (m ∷ methods) d p len fits =
    bind-Returns Any Any (some (leb (length m) len) &&? mem_eq d p m) _
      (and_Any-Returns (leb (length m) len) (mem_eq d p m)
        (λ whole. let inside : length m ≤ len = ground arith in mem_eq-Returns d p m (omega arith)))
      (λ found _ _.
        branch-Returns Any found _ _ (λ _. (some m, refl, tt))
          (λ _. method_in-Returns methods d p len fits))

http_method_of-Returns :
    (d : List ℕ) (p len : ℕ) → p + len ≤ length d → Returns Any (http_method_of d p len)
unfolding http_method_of
http_method_of-Returns d p len fits =
    branch-Returns Any (leb 4 len) _ _ (λ _. method_in-Returns http_methods d p len fits)
      (λ _. (none, refl, tt))

after_check-Returns :
    (d : List ℕ) (p len : ℕ) (m : Option (List ℕ))
    → p + len ≤ length d
    → Returns Any (after_check d p len m)
unfolding after_check
after_check-Returns d p len none fits = (false, refl, tt)
after_check-Returns d p len (some m) fits =
    bind-Returns (RestIf d p (p + len)) Any (skip_word d p len) _
      (skip_word-Returns d p len (p + len) refl fits)
      (λ r _ rest. after_method-Returns d p (p + len) r rest)

pub is_http-Returns : (d : List ℕ) (p len : ℕ) → p + len ≤ length d → Returns Any (is_http d p len)
unfolding is_http
is_http-Returns d p len fits =
    bind-Returns Any Any (http_method_of d p len) _ (http_method_of-Returns d p len fits)
      (λ m _ _. after_check-Returns d p len m fits)
