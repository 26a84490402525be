-- ===== src/Reasm/Session.antt =====
-- Whole sessions: from `ReasmInit` to a full buffer, and the segments that end a session.
use zapret.Base.{
  ℕ, ◌+◌, ◌-◌, ◌^◌, ◌≤◌, ◌<◌, ◌≡◌, refl, ◌∙◌, List, [], ◌∷◌, Option, some, Bool, true, false, arith,
  max, length, get_elem?, if◌then◌else◌,
}
use zapret.Base.Bits.{u32}
use zapret.Memory.{◌>>=◌}
use zapret.Reasm.{Reasm, init, feed, is_full, is_empty, max_neg}
use zapret.Reasm.Stream.{Holds, IsPiece, feed-Extends}

-- Segments are fed in order until one fails.
pub feed_all : Reasm → List (ℕ × List ℕ) → Option (Reasm × Bool)
feed_all r [] = some (r, true)
feed_all r ((seq, payload) ∷ rest) = feed r seq payload >>= λ result.
    let more = feed_all result.0 rest in if result.1 then more else some (result.0, false)

module _ (t : List ℕ) (t0 start size : ℕ) where
  -- The segments are pieces of the stream that leave no gap behind the first `present` bytes, and
  -- together they reach exactly `size` bytes from `start` on. Each comes with its position.
  abbrev pub Covers : ℕ → List ℕ → List (ℕ × List ℕ) → Type 0
  Covers present [] [] = present ≡ size
  Covers present [] (s ∷ rest) = ⊥
  Covers present (from ∷ starts) [] = ⊥
  Covers present (from ∷ starts) ((seq, payload) ∷ rest) =
      IsPiece t t0 start seq payload from
      × (from ≤ start + present)
      × (start + present - from ≤ max_neg)
      × (from + length payload ≤ start + size)
      × Covers (max present (from + length payload - start)) starts rest

  -- The session ended well: the buffer is full, and holds the stream's bytes.
  pub record IsComplete (result : Option (Reasm × Bool)) : Type 0 where
    pub after : Reasm
    pub buffer : List ℕ
    pub returns : result ≡ some (after, true)
    pub full : is_full after ≡ true
    pub allocated : after.packet ≡ some buffer
    pub sized : length buffer ≡ size
    pub contents : (i : ℕ) → i < size → get_elem? buffer i ≡ get_elem? t (start + i)

  feed_all-IsComplete :
      (starts : List ℕ) (segments : List (ℕ × List ℕ)) (r : Reasm)
      → 0 < size
      → r.size ≡ size
      → Holds t t0 start r
      → Covers r.size_present starts segments
      → IsComplete (feed_all r segments)
  unfolding feed_all is_full is_empty
  feed_all-IsComplete [] [] r pos sized h c = record {
    after = r;
    buffer = h.sound.buffer;
    returns = refl;
    full = ground arith;
    allocated = h.sound.allocated;
    sized = omega (arith, h.sound.sized);
    contents = λ i lt. h.contents i (omega arith);
  }
  feed_all-IsComplete [] (s ∷ rest) r pos sized h c = absurd c
  feed_all-IsComplete (from ∷ starts) [] r pos sized h c = absurd c
  feed_all-IsComplete (from ∷ starts) ((seq, payload) ∷ rest) r pos sized h c =
      let e = feed-Extends t t0 start r seq payload from h c.0 c.1 c.2 (omega (arith, c.3)) in
      rw e.returns (
        feed_all-IsComplete starts rest e.after pos (e.same_size ∙ sized) e.holds
          (rw e.reaches c.4))

  -- A session on a fresh buffer of the wanted size, neither 0 nor 2^63 or more, that is fed pieces
  -- of the stream that leave no gap, overlapping or repeated as they may, completes with the
  -- stream's bytes.
  pub session-IsComplete :
      (buffer : List ℕ) (old : Reasm) (starts : List ℕ) (segments : List (ℕ × List ℕ))
      → length buffer ≡ size
      → 0 < size
      → size < 2 ^ 63
      → Covers 0 starts segments
      → IsComplete (feed_all (init (some buffer) old size (u32 (t0 + start))).0 segments)
  unfolding init
  session-IsComplete buffer old starts segments sized pos small c =
      feed_all-IsComplete starts segments _ pos refl
        (record {
          sound = record {
            buffer = buffer;
            allocated = refl;
            sized = sized;
            within = omega arith;
            small = small;
            seq_word = omega arith;
          };
          position = omega arith;
          contents = λ i lt. absurd (omega arith);
        })
        c
