-- ===== src/Filter/Examples.antt =====
-- Filters of ports and of packets.
use zapret.Base.{
  ℕ, ◌+◌, ◌-◌, ◌*◌, ◌≡◌, refl, List, [], ◌∷◌, Option, none, some, true, if◌then◌else◌,
}
use zapret.Strings.{is_digit, str_eq}
use zapret.Filter.{pf_of, whole, second_of, pf_one, pf_numbers, pf_parse}
use zapret.Filter.Ports.{Sound, pf_parse-Sound}
use zapret.Filter.Range.{
  packet_range_parse, packet_pos_parse, is_mode, strchr, or_less, upper_parse, after_from,
}

-- `%u` on decimal digits.
abbrev more_digits : ℕ → List ℕ → ℕ × List ℕ
more_digits v [] = (v, [])
more_digits v (c ∷ cs) =
    let rest = more_digits (v * 10 + (c - 48)) cs in if is_digit c then rest else (v, c ∷ cs)

abbrev decimal : List ℕ → Option (ℕ × List ℕ)
decimal [] = none
decimal (c ∷ cs) = if is_digit c then some (more_digits 0 (c ∷ cs)) else none

-- "~5-80"
abbrev not_5_80 : List ℕ
not_5_80 = 126 ∷ 53 ∷ 45 ∷ 56 ∷ 48 ∷ []

parses_not_5_80 : pf_parse decimal (some not_5_80) ≡ some (record { from = 5; to = 80; neg = true })
unfolding pf_parse pf_numbers second_of whole pf_of str_eq is_digit
parses_not_5_80 = refl

-- "0" is the filter that matches no port.
parses_none : pf_parse decimal (some (48 ∷ [])) ≡ some (record { from = 0; to = 0; neg = true })
unfolding pf_parse pf_numbers pf_one second_of whole pf_of str_eq is_digit
parses_none = refl

-- "n2<d9"
parses_range :
    packet_range_parse decimal (110 ∷ 50 ∷ 60 ∷ 100 ∷ 57 ∷ [])
    ≡ some (record {
      from = record { mode = 110; pos = 2 };
      to = record { mode = 100; pos = 9 };
      upper_cutoff = true;
    })
unfolding packet_range_parse packet_pos_parse is_mode strchr or_less upper_parse after_from is_digit
parses_range = refl

pf_parse-Sound_example : Sound (record { from = 5; to = 80; neg = true })
pf_parse-Sound_example =
    pf_parse-Sound decimal (some not_5_80) (record { from = 5; to = 80; neg = true })
      parses_not_5_80
