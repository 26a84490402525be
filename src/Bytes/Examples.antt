-- ===== src/Bytes/Examples.antt =====
-- Packet fields at concrete buffers.
use zapret.Base.{ℕ, ◌≡◌, refl, List, [], ◌∷◌, some, arith}
use zapret.Memory.{put, store}
use zapret.Bytes.{pntoh16, phton24, bswap24}
use zapret.Bytes.RoundTrip.{Writes, w24, phton-Writes}
use zapret.Bytes.Swap.{s24, Reversed, bswap-Reversed}

abbrev packet : List ℕ
packet = 0x16 ∷ 3 ∷ 1 ∷ 2 ∷ 0 ∷ []

reads_word : pntoh16 packet 2 ≡ some 0x102
unfolding pntoh16
reads_word = refl

writes_length : phton24 packet 1 0xabcdef ≡ some (0x16 ∷ 0xab ∷ 0xcd ∷ 0xef ∷ 0 ∷ [])
unfolding phton24 store put
writes_length = refl

phton-Writes_example : Writes w24 packet 1 0xabcdef
phton-Writes_example = phton-Writes w24 packet 1 0xabcdef (omega arith) (omega arith)

bswap-Reversed_example :
    Reversed s24 0x123456 (bswap24 0x123456) × (bswap24 (bswap24 0x123456) ≡ 0x123456)
bswap-Reversed_example = bswap-Reversed s24 0x123456 (omega arith)
