-- ===== src/Quic/Defrag/Examples.antt =====
-- Two CRYPTO frames that overlap, between a ping and padding.
use zapret.Base.{ℕ, ◌≡◌, refl, ◌↔◌, List, [], ◌∷◌, some, true, arith}
use zapret.Base.Sort.{sort, sort-In, sort-SortedBy}
use zapret.Memory.{Bytes, put, store}
use zapret.Memory.Safe.{Returns}
use zapret.Bytes.{phton64}
use zapret.Datagrams.{zeros}
use zapret.Queue.{copy_bytes}
use zapret.Quic.{tvb_get_varint, varint_of, tvb_get_size}
use zapret.Quic.Defrag.{
  Range64, has_range, add_piece, crypto_piece, crypto_frame, frames_rest, frames, merge_from, merge,
  is_full, finish, quic_defrag_crypto,
}
use zapret.Quic.Defrag.Full.{Complete, is_full-Complete}
use zapret.Quic.Defrag.Total.{Result, quic_defrag_crypto-Returns}

-- Offsets 0 to 2, and 2 to 4.
abbrev clean : List ℕ
clean = 1 ∷ 6 ∷ 0 ∷ 3 ∷ 1 ∷ 2 ∷ 3 ∷ 0 ∷ 6 ∷ 2 ∷ 3 ∷ 3 ∷ 4 ∷ 5 ∷ []

clean-Bytes : Bytes clean
clean-Bytes = (
  omega arith,
  (
    omega arith,
    (
      omega arith,
      (
        omega arith,
        (
          omega arith,
          (
            omega arith,
            (
              omega arith,
              (
                omega arith,
                (
                  omega arith,
                  (omega arith, (omega arith, (omega arith, (omega arith, (omega arith, tt))))),
                ),
              ),
            ),
          ),
        ),
      ),
    ),
  ),
)

abbrev by_offset : List Range64 → List Range64
by_offset = sort (λ r. r.offset)

joins_frames :
    quic_defrag_crypto by_offset clean 0 14 (zeros 16) 16
    ≡ some (some (15, true, 6 ∷ 0 ∷ 192 ∷ 0 ∷ 0 ∷ 0 ∷ 0 ∷ 0 ∷ 0 ∷ 5 ∷ 1 ∷ 2 ∷ 3 ∷ 4 ∷ 5 ∷ 0 ∷ []))
unfolding quic_defrag_crypto frames crypto_frame crypto_piece add_piece has_range frames_rest finish
    merge merge_from is_full tvb_get_varint varint_of tvb_get_size copy_bytes put store phton64
joins_frames = refl

quic_defrag_crypto-Returns_example :
    Returns (Result 16) (quic_defrag_crypto by_offset clean 0 14 (zeros 16) 16)
quic_defrag_crypto-Returns_example =
    quic_defrag_crypto-Returns by_offset clean 0 14 (zeros 16) clean-Bytes (omega arith)
      (omega arith)

abbrev first : Range64
first = record { offset = 4; len = 2 }

abbrev second : Range64
second = record { offset = 0; len = 4 }

is_full-Complete_example :
    (is_full (merge (by_offset (first ∷ second ∷ []))) ≡ true) ↔ Complete (first ∷ second ∷ [])
is_full-Complete_example =
    is_full-Complete by_offset (sort-SortedBy (λ r. r.offset)) (sort-In (λ r. r.offset)) first
      (second ∷ [])
