-- ===== src/Checksum/Examples.antt =====
-- Checksums of concrete buffers, and a sum whose last carry is lost.
use zapret.Base.{ℕ, ◌+◌, ◌≡◌, refl, List, [], ◌∷◌, some, arith}
use zapret.Checksum.{
  from64to16, do_csum, even_part, words16, words32, words64, add_words, add, align, read, odd_byte,
  swap_bytes,
}
use zapret.Checksum.Fold.{◌≈◌, from64to16_lost}
use zapret.Checksum.Little.{word_sum}
use zapret.Checksum.Total.{IsSum, total_of, do_csum-IsSum}

-- The IPv4 header of RFC 1071 style examples; with its checksum in place it sums to 0xffff.
abbrev header : List ℕ
header =
    0x45 ∷ 0 ∷ 0 ∷ 0x73 ∷ 0 ∷ 0 ∷ 0x40 ∷ 0 ∷ 0x40 ∷ 0x11 ∷ 0xb8 ∷ 0x61 ∷ 0xc0 ∷ 0xa8 ∷ 0 ∷ 1 ∷ 0xc0
    ∷ 0xa8 ∷ 0 ∷ 0xc7 ∷ []

header_sum : do_csum header 0 20 ≡ some 0xffff
unfolding do_csum odd_byte even_part words16 words32 words64 add_words add align read from64to16
header_sum = refl

header_sum_odd : do_csum header 7 20 ≡ some 0xffff
unfolding do_csum odd_byte even_part words16 words32 words64 add_words add align read from64to16
    swap_bytes
header_sum_odd = refl

-- The three words sum to 0x1ffff, which is 1, and the fold gives 0.
abbrev unlucky : ℕ
unlucky = 0x1ffffffff

loses_carry : from64to16 unlucky ≡ 0
unfolding from64to16
loses_carry = refl

from64to16_lost_example : from64to16 unlucky + 1 ≈ unlucky
from64to16_lost_example = from64to16_lost unlucky (omega arith) (omega arith)

do_csum-IsSum_example : IsSum 7 (word_sum 20 header) (total_of header 7 20) (do_csum header 7 20)
do_csum-IsSum_example = do_csum-IsSum header 7 20 (omega arith) (omega arith)

-- Ten bytes whose words sum to 1 get the checksum 0.
abbrev all_ones : List ℕ
all_ones = 255 ∷ 255 ∷ 255 ∷ 255 ∷ 255 ∷ 255 ∷ 255 ∷ 255 ∷ 1 ∷ 0 ∷ []

all_ones_sum : do_csum all_ones 0 10 ≡ some 0
unfolding do_csum odd_byte even_part words16 words32 words64 add_words add align read from64to16
all_ones_sum = refl

all_ones_true_sum : word_sum 10 all_ones ≈ 1
unfolding word_sum
all_ones_true_sum = refl
