-- ===== src/Filter.antt =====
-- nfq2/filter.c: filters of ports, ICMP types and protocols, and ranges of packets. A C string is
-- the list of its bytes before the final zero. `scan_u` is `%u` of `sscanf`: the number that the
-- text starts with and the rest. A parser's answer `none` is false; what it leaves in its argument
-- is then not used.
pub mod Ports
pub mod Range
mod Examples
use zapret.Base.{
  ℕ, ◌+◌, List, [], ◌∷◌, Option, none, some, Bool, true, false, not, ◌&&◌, ◌||◌, xor, ltb, leb,
  ◌==◌, if◌then◌else◌,
}
use zapret.Memory.{◌>>=◌}
use zapret.Strings.{str_eq}

pub record PortFilter : Type 0 where
  pub from : ℕ
  pub to : ℕ
  pub neg : Bool

unfoldable pub pf_match : ℕ → PortFilter → Bool
pf_match port pf =
    not (port == 0)
    && xor (pf.from == 0 && (pf.to == 0) || (leb pf.from port && leb port pf.to)) pf.neg

-- The last assignment: from 0 to 0 denies all.
unfoldable pub pf_of : Bool → ℕ → ℕ → PortFilter
pf_of neg from to = record { from = from; to = to; neg = neg || (from == 0 && (to == 0)) }

abbrev pub starts_with : ℕ → List ℕ → Bool
starts_with c [] = false
starts_with c (b ∷ bs) = b == c

abbrev pub tail : List ℕ → List ℕ
tail [] = []
tail (b ∷ bs) = bs

-- "-", "*" and "~".
abbrev pub dash : ℕ
dash = 45

abbrev pub star : ℕ
star = 42

abbrev pub tilde : ℕ
tilde = 126

module _ (scan_u : List ℕ → Option (ℕ × List ℕ)) where
  -- `sscanf(s, "%u%c", ...) == 1`: a number and nothing after it.
  unfoldable pub whole : Option (ℕ × List ℕ) → Option ℕ
  whole none = none
  whole (some (v, [])) = some v
  whole (some (v, c ∷ rest)) = none

  -- `sscanf(s, "%u-%u%c", ...) == 2`.
  unfoldable pub second_of : Option (ℕ × List ℕ) → Option (ℕ × ℕ)
  second_of none = none
  second_of (some (v1, rest)) =
      if starts_with dash rest then (do v2 ← whole (scan_u (tail rest)); some (v1, v2)) else none

  unfoldable pub pf_one : Bool → Option ℕ → Option PortFilter
  pf_one neg none = none
  pf_one neg (some v) = if ltb 65535 v then none else some (pf_of neg v v)

  unfoldable pub pf_numbers : Bool → List ℕ → Option (ℕ × ℕ) → Option PortFilter
  pf_numbers neg s none = pf_one neg (whole (scan_u s))
  pf_numbers neg s (some (v1, v2)) =
      if ltb 65535 v1 || ltb 65535 v2 || ltb v2 v1 then none else some (pf_of neg v1 v2)

  -- No string is NULL.
  unfoldable pub pf_parse : Option (List ℕ) → Option PortFilter
  pf_parse none = none
  pf_parse (some s) =
      if str_eq s (star ∷ [])
      then some (record { from = 1; to = 0xffff; neg = false })
      else if starts_with tilde s
      then pf_numbers true (tail s) (second_of (scan_u (tail s)))
      else pf_numbers false s (second_of (scan_u s))

-- FLTMODE_SKIP, FLTMODE_ANY and FLTMODE_FILTER.
pub data FltMode : Type 0 where
  skip any filter : FltMode

unfoldable pub fltmode_parse : List ℕ → Option FltMode
fltmode_parse s =
    if str_eq s (star ∷ []) then some any else if str_eq s (dash ∷ []) then some skip else none

-- `code` is `none` if `code_valid` is false.
pub record IcmpFilter : Type 0 where
  pub mode : FltMode
  pub type : ℕ
  pub code : Option ℕ

unfoldable pub code_match : ℕ → Option ℕ → Bool
code_match code none = true
code_match code (some c) = c == code

unfoldable pub icf_match : ℕ → ℕ → IcmpFilter → Bool
icf_match type code icf = elim icf.mode [
  | skip ↦ false
  | any ↦ true
  | filter ↦ icf.type == type && code_match code icf.code
]

pub record IppFilter : Type 0 where
  pub mode : FltMode
  pub proto : ℕ

unfoldable pub ipp_match : ℕ → IppFilter → Bool
ipp_match proto ipp = elim ipp.mode [ skip ↦ false | any ↦ true | filter ↦ ipp.proto == proto ]

module _ (scan_u : List ℕ → Option (ℕ × List ℕ)) where
  -- `c1` is ':'.
  unfoldable pub icf_code : ℕ → List ℕ → Option IcmpFilter
  icf_code u1 rest =
      if starts_with 58 rest
      then (do
        u2 ← whole scan_u (scan_u (tail rest))
        if ltb 0xff u1 || ltb 0xff u2
            then none
            else some (record { mode = filter; type = u1; code = some u2 }))
      else none

  unfoldable pub icf_numbers : Option (ℕ × List ℕ) → Option IcmpFilter
  icf_numbers none = none
  icf_numbers (some (u1, [])) =
      if ltb 0xff u1 then none else some (record { mode = filter; type = u1; code = none })
  icf_numbers (some (u1, c1 ∷ rest)) = icf_code u1 (c1 ∷ rest)

  unfoldable pub icf_mode : List ℕ → Option FltMode → Option IcmpFilter
  icf_mode s none = icf_numbers (scan_u s)
  icf_mode s (some m) = some (record { mode = m; type = 0; code = none })

  unfoldable pub icf_parse : List ℕ → Option IcmpFilter
  icf_parse s = icf_mode s (fltmode_parse s)

  unfoldable pub ipp_mode : List ℕ → Option FltMode → Option IppFilter
  ipp_mode s none = do
    u1 ← whole scan_u (scan_u s)
    if ltb 0xff u1 then none else some (record { mode = filter; proto = u1 })
  ipp_mode s (some m) = some (record { mode = m; proto = 0xff })

  unfoldable pub ipp_parse : List ℕ → Option IppFilter
  ipp_parse s = ipp_mode s (fltmode_parse s)
