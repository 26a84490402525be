-- ===== src/Filter/Ports.antt =====
-- What the port filters that are accepted match.
use zapret.Base.{
  ℕ, ◌≤◌, ◌≡◌, refl, List, [], ◌∷◌, Option, none, some, Bool, true, false, not, ◌&&◌, ◌||◌, ltb,
  leb, ◌==◌, arith, Bool-cases, inl, inr, subst,
}
use mathlib.Core.Bool.{xor}
use zapret.Strings.{str_eq}
use zapret.Filter.{
  PortFilter, pf_match, pf_of, starts_with, tail, whole, second_of, pf_one, pf_numbers, pf_parse,
  star, tilde,
}

-- The range is one of ports, and the filter matches the ports in it, or the others if it is
-- negated, but neither port 0 nor, if the range ends at 0, any.
abbrev pub Sound : PortFilter → Type 0
Sound pf =
    (pf.from ≤ pf.to)
    × (pf.to ≤ 65535)
    × ((port : ℕ)
        → pf_match port pf ≡ (
            not (port == 0) && not (pf.to == 0) && xor (leb pf.from port && leb port pf.to) pf.neg))

abbrev SoundIf : Option PortFilter → Type 0
SoundIf none = Unit {0}
SoundIf (some pf) = Sound pf

deny_all :
    (p z r neg : Bool) → (not p && xor (z || r) (neg || z)) ≡ (not p && not z && xor r (neg || z))
unfolding xor
deny_all true z r neg = refl
deny_all false false r neg = refl
deny_all false true r true = refl
deny_all false true r false = refl

pf_of-Sound : (neg : Bool) (from to : ℕ) → from ≤ to → to ≤ 65535 → Sound (pf_of neg from to)
unfolding pf_of pf_match
pf_of-Sound neg from to le small =
    let none_below : (from == 0 && (to == 0)) ≡ (to == 0) = ground arith in
    (
      le,
      small,
      λ port. rw none_below (deny_all (port == 0) (to == 0) (leb from port && leb port to) neg),
    )

pf_one-Sound :
    (scan_u : List ℕ → Option (ℕ × List ℕ)) (neg : Bool) (o : Option ℕ)
    → SoundIf (pf_one scan_u neg o)
unfolding pf_one
pf_one-Sound scan_u neg none = tt
pf_one-Sound scan_u neg (some v) = elim (Bool-cases (ltb 65535 v)) [
  | inl big ↦ rw big tt
  | inr small ↦ rw small (pf_of-Sound neg v v (omega arith) (ground arith))
]

pf_numbers-Sound :
    (scan_u : List ℕ → Option (ℕ × List ℕ)) (neg : Bool) (s : List ℕ) (o : Option (ℕ × ℕ))
    → SoundIf (pf_numbers scan_u neg s o)
unfolding pf_numbers
pf_numbers-Sound scan_u neg s none = pf_one-Sound scan_u neg (whole scan_u (scan_u s))
pf_numbers-Sound scan_u neg s (some (v1, v2)) =
    elim (Bool-cases (ltb 65535 v1 || ltb 65535 v2 || ltb v2 v1)) [
      | inl bad ↦ rw bad tt
      | inr good ↦ rw good (pf_of-Sound neg v1 v2 (ground arith) (ground arith))
    ]

everything-Sound : Sound (record { from = 1; to = 0xffff; neg = false })
unfolding pf_match
everything-Sound = (omega arith, omega arith, λ port. ground arith)

parsed-Sound :
    (scan_u : List ℕ → Option (ℕ × List ℕ)) (s : Option (List ℕ)) → SoundIf (pf_parse scan_u s)
unfolding pf_parse
parsed-Sound scan_u none = tt
parsed-Sound scan_u (some s) = elim (Bool-cases (str_eq s (star ∷ []))) [
  | inl all ↦ rw all everything-Sound
  | inr some_ports ↦ elim (Bool-cases (starts_with tilde s)) [
    | inl negated ↦
        rw (some_ports, negated)
          (pf_numbers-Sound scan_u true (tail s) (second_of scan_u (scan_u (tail s))))
    | inr plain ↦
        rw (some_ports, plain) (pf_numbers-Sound scan_u false s (second_of scan_u (scan_u s)))
  ]
]

-- Whatever `%u` reads: a filter of ports that is accepted has a range of 16-bit ports, and for any
-- port it matches the ports of its range, or, if it is negated, the others, but never port 0, and
-- none at all if the range ends at 0.
pub pf_parse-Sound :
    (scan_u : List ℕ → Option (ℕ × List ℕ)) (s : Option (List ℕ)) (pf : PortFilter)
    → pf_parse scan_u s ≡ some pf
    → Sound pf
pf_parse-Sound scan_u s pf e = subst SoundIf e (parsed-Sound scan_u s)
