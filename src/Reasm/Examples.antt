-- ===== src/Reasm/Examples.antt =====
-- A session over a stream whose sequence numbers wrap, with an overlap and a piece that begins
-- before the wanted bytes.
use zapret.Base.{ℕ, ◌+◌, ◌-◌, ◌^◌, refl, List, [], ◌∷◌, none, some, arith}
use zapret.Base.Bits.{u32}
use zapret.Reasm.{Reasm, init, feed}
use zapret.Reasm.Invariant.{IsSound, Returns, feed-Returns}
use zapret.Reasm.Stream.{Holds, IsPiece, Extends, feed-Extends}
use zapret.Reasm.Session.{feed_all, IsComplete, session-IsComplete}

abbrev stream : List ℕ
stream = 11 ∷ 12 ∷ 13 ∷ 14 ∷ 15 ∷ 16 ∷ []

abbrev wrapping : ℕ
wrapping = 2 ^ 32 - 2

abbrev blank : Reasm
blank = record { packet = none; seq = 0; size = 0; size_present = 0 }

abbrev fresh : Reasm
fresh = record {
  packet = some (0 ∷ 0 ∷ 0 ∷ 0 ∷ []);
  seq = wrapping + 1;
  size = 4;
  size_present = 0;
}

first-IsPiece : IsPiece stream wrapping 1 wrapping (11 ∷ 12 ∷ 13 ∷ []) 0
first-IsPiece = record { numbered = refl; bytes = λ i lt. grind arith }

second-IsPiece : IsPiece stream wrapping 1 0 (13 ∷ 14 ∷ 15 ∷ []) 2
second-IsPiece = record { numbered = refl; bytes = λ i lt. grind arith }

fresh-IsSound : IsSound fresh
fresh-IsSound = record {
  buffer = 0 ∷ 0 ∷ 0 ∷ 0 ∷ [];
  allocated = refl;
  sized = refl;
  within = omega arith;
  small = omega arith;
  seq_word = omega arith;
}

fresh-Holds : Holds stream wrapping 1 fresh
fresh-Holds = record {
  sound = fresh-IsSound;
  position = refl;
  contents = λ i lt. absurd (omega arith);
}

feed-Returns_example : Returns fresh (feed fresh wrapping (11 ∷ 12 ∷ 13 ∷ []))
feed-Returns_example = feed-Returns fresh wrapping (11 ∷ 12 ∷ 13 ∷ []) fresh-IsSound (omega arith)

feed-Extends_example :
    Extends stream wrapping 1 fresh (11 ∷ 12 ∷ 13 ∷ []) 0 (feed fresh wrapping (11 ∷ 12 ∷ 13 ∷ []))
feed-Extends_example =
    feed-Extends stream wrapping 1 fresh wrapping (11 ∷ 12 ∷ 13 ∷ []) 0 fresh-Holds first-IsPiece
      (omega arith) (omega arith) (omega arith)

session-IsComplete_example : IsComplete stream wrapping 1 4 (
    feed_all
      (init (some (0 ∷ 0 ∷ 0 ∷ 0 ∷ [])) blank 4 (u32 (wrapping + 1))).0
      ((wrapping, 11 ∷ 12 ∷ 13 ∷ []) ∷ (0, 13 ∷ 14 ∷ 15 ∷ []) ∷ []))
session-IsComplete_example =
    session-IsComplete stream wrapping 1 4 (0 ∷ 0 ∷ 0 ∷ 0 ∷ []) blank (0 ∷ 2 ∷ [])
      ((wrapping, 11 ∷ 12 ∷ 13 ∷ []) ∷ (0, 13 ∷ 14 ∷ 15 ∷ []) ∷ []) refl (omega arith) (omega arith)
      (
        first-IsPiece,
        omega arith,
        omega arith,
        omega arith,
        (second-IsPiece, omega arith, omega arith, omega arith, refl),
      )
