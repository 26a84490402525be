-- ===== src/Strings.antt =====
-- nfq2/helpers.c: text functions. `strncasestr` works on memory; a C string that is only read is
-- the list of its bytes before the final zero.
pub mod Search
pub mod Hex
use zapret.Base.{
  ℕ, zero, suc, ◌+◌, ◌-◌, ◌<◌, List, [], ◌∷◌, Option, none, some, Bool, true, false, ◌&&◌, ◌||◌,
  ltb, leb, ◌==◌, if◌then◌else◌, get_elem?, length, bit_or,
}
use zapret.Base.Bits.{◌<<◌, u8}
use zapret.Memory.{◌>>=◌}

unfoldable pub toupper : ℕ → ℕ
toupper b = if leb 97 b && leb b 122 then b - 32 else b

abbrev pub same_letter : ℕ → ℕ → Bool
same_letter a b = toupper a == toupper b

-- `!strncasecmp(p, find, strlen(find))`: the reads stop at the first difference.
unfoldable pub case_eq : List ℕ → ℕ → List ℕ → Option Bool
case_eq d p [] = some true
case_eq d p (c ∷ cs) =
    let rest = case_eq d (p + 1) cs in
    do b ← get_elem? d p; if same_letter c b then rest else some false

-- `!memcmp(p, s, n)` for the `n` bytes of a literal: all of them are read.
unfoldable pub mem_eq : List ℕ → ℕ → List ℕ → Option Bool
mem_eq d p [] = some true
mem_eq d p (c ∷ cs) = do b ← get_elem? d p; rest ← mem_eq d (p + 1) cs; some (b == c && rest)

-- The loops of `strncasestr`: `c` is the first byte of the text sought and `find` the rest.
unfoldable pub search_case : List ℕ → ℕ → ℕ → ℕ → List ℕ → Option (Option ℕ)
search_case d s zero c find = some none
search_case d s (suc slen) c find =
    let again = search_case d (s + 1) slen c find in
    do
      sc ← get_elem? d s
      if same_letter c sc
          then (if ltb slen (length find)
              then some none
              else (do same ← case_eq d (s + 1) find; if same then some (some s) else again))
          else again

-- The place of the text, `none` for NULL.
unfoldable pub strncasestr : List ℕ → ℕ → List ℕ → ℕ → Option (Option ℕ)
strncasestr d s [] slen = some (some s)
strncasestr d s (c ∷ find) slen = search_case d s slen c find

-- The index of a string in an array, `none` for -1.
unfoldable pub str_eq : List ℕ → List ℕ → Bool
str_eq [] [] = true
str_eq [] (c ∷ cs) = false
str_eq (b ∷ bs) [] = false
str_eq (b ∷ bs) (c ∷ cs) = b == c && str_eq bs cs

unfoldable pub str_index_from : ℕ → List (List ℕ) → List ℕ → Option ℕ
str_index_from i [] str = none
str_index_from i (s ∷ strs) str =
    let rest = str_index_from (suc i) strs str in if str_eq s str then some i else rest

unfoldable pub str_index : List (List ℕ) → List ℕ → Option ℕ
str_index strs str = str_index_from 0 strs str

unfoldable pub is_letter : ℕ → Bool
is_letter c = leb 97 c && leb c 122 || (leb 65 c && leb c 90)

unfoldable pub is_digit : ℕ → Bool
is_digit c = leb 48 c && leb c 57

-- The loop over the rest of an identifier.
unfoldable pub all_word : List ℕ → Bool
all_word [] = true
all_word (c ∷ cs) = (is_letter c || is_digit c || (c == 95)) && all_word cs

-- The empty string starts with its final zero.
unfoldable pub is_identifier : List ℕ → Bool
is_identifier [] = false
is_identifier (c ∷ cs) = (c == 95 || is_letter c) && all_word cs

-- `invalid_hex_digit` is 255; characters are bytes.
abbrev pub invalid_hex_digit : ℕ
invalid_hex_digit = 255

unfoldable pub parse_hex_digit : ℕ → ℕ
parse_hex_digit c =
    if leb 48 c && leb c 57
    then c - 48
    else if leb 97 c && leb c 102
    then c - 97 + 0xa
    else if leb 65 c && leb c 70
    then c - 65 + 0xa
    else invalid_hex_digit

-- The byte of two digits, `none` for false.
unfoldable pub parse_hex_byte : ℕ → ℕ → Option ℕ
parse_hex_byte s0 s1 =
    if parse_hex_digit s0 == invalid_hex_digit || (parse_hex_digit s1 == invalid_hex_digit)
    then none
    else some (u8 (bit_or (parse_hex_digit s0 << 4) (parse_hex_digit s1)))

-- What is stored in `pbuf` and the answer. A single last digit stands before the final zero, which
-- is no digit; a byte of a bad pair is stored as 0 and not counted.
unfoldable pub store_byte : Option ℕ → List ℕ × Bool → List ℕ × Bool
store_byte none rest = ([], false)
store_byte (some b) (bytes, ok) = (b ∷ bytes, ok)

unfoldable pub parse_hex_str : List ℕ → ℕ → List ℕ × Bool
parse_hex_str s zero = ([], true)
parse_hex_str [] (suc size) = ([], true)
parse_hex_str (s0 ∷ []) (suc size) = ([], false)
parse_hex_str (s0 ∷ s1 ∷ s) (suc size) = store_byte (parse_hex_byte s0 s1) (parse_hex_str s size)

unfoldable pub hex_digit : ℕ → ℕ
hex_digit v = if leb v 9 then 48 + v else if leb v 0xf then v + 65 - 0xa else 63

-- Sequence numbers in a range that may wrap around.
unfoldable pub seq_within : ℕ → ℕ → ℕ → Bool
seq_within s s1 s2 = leb s1 s2 && leb s1 s && leb s s2 || (ltb s2 s1 && (leb s s2 || leb s1 s))

-- `UNIQ_SORT` on an array in order: equal neighbours become one. The inner loop passes the copies
-- of `u`.
unfoldable pub pass_equal : ℕ → List ℕ → List ℕ
pass_equal u [] = []
pass_equal u (x ∷ xs) = let rest = pass_equal u xs in if x == u then rest else x ∷ xs

-- A round takes the first of equal neighbours and passes the rest of them, so that `fuel` is enough
-- if it is the length of the array.
unfoldable pub unique_from : ℕ → List ℕ → List ℕ
unique_from zero pu = []
unique_from (suc fuel) [] = []
unique_from (suc fuel) (u ∷ pu) = u ∷ unique_from fuel (pass_equal u pu)

unfoldable pub unique : List ℕ → List ℕ
unique pu = unique_from (length pu) pu
