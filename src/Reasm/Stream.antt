-- ===== src/Reasm/Stream.antt =====
-- Feeding pieces of one stream puts its start together, whatever their overlap.
use zapret.Base.{
  ℕ, ◌+◌, ◌-◌, ◌^◌, ◌≤◌, ◌<◌, ◌≡◌, refl, ◌∙◌, ap, List, Option, some, Bool, true, false, arith, ltb,
  leb, max, length, drop, take, get_elem?, get_elem?-drop, get_elem?-take, length-take, length-drop,
  ◌⊎◌, inl, inr, Bool-cases, not, ◌&&◌, ◌==◌,
}
use zapret.Base.Bits.{u32, u64}
use zapret.Memory.Laws.{get_elem?-store_inside, get_elem?-store_outside}
use zapret.Memory.{minus64}
use zapret.Reasm.{Reasm, feed, feed_at, ignored, place, advance, max_neg, sub32}
use zapret.Reasm.Invariant.{IsSound, Places, place-Places, advance_size}

-- The stream is `t`, and its byte 0 has sequence number `t0`. The session wants the bytes from
-- position `start` on; what is present are the first of these.
module _ (t : List ℕ) (t0 start : ℕ) where
  pub record Holds (r : Reasm) : Type 0 where
    pub sound : IsSound r
    pub position : r.seq ≡ u32 (t0 + start + r.size_present)
    pub contents : (i : ℕ) → i < r.size_present → get_elem? sound.buffer i ≡ get_elem? t (start + i)

  -- A segment that is the stream's bytes from position `from` on.
  pub record IsPiece (seq : ℕ) (payload : List ℕ) (from : ℕ) : Type 0 where
    pub numbered : seq ≡ u32 (t0 + from)
    pub bytes : (i : ℕ) → i < length payload → get_elem? payload i ≡ get_elem? t (from + i)

  module _ (r : Reasm) (payload : List ℕ) (from szignore overlap : ℕ) (h : Holds r) where
    written-bytes :
        {seq : ℕ}
        → IsPiece seq payload from
        → (p : Places r payload szignore (length payload - szignore) overlap h.sound.buffer)
        → overlap ≤ r.size_present
        → start + r.size_present ≡ from + szignore + overlap
        → (i : ℕ) → i < max r.size_present (r.size_present - overlap + (length payload - szignore))
        → get_elem? p.out i ≡ get_elem? t (start + i)
    written-bytes piece p inside meets i lt =
        let pos : ℕ = r.size_present - overlap in
        let bs : List ℕ = take (length payload - szignore) (drop szignore payload) in
        let sized : length bs ≡ length payload - szignore = omega (
          arith,
          length-take (length payload - szignore) (drop szignore payload),
          length-drop szignore payload,
        ) in
        elim (Bool-cases (ltb i pos)) [
          | inl before ↦
              get_elem?-store_outside h.sound.buffer pos bs i p.stored (inl (ground arith))
              ∙ h.contents i (ground arith)
          | inr after ↦ elim (Bool-cases (ltb i (pos + length bs))) [
            | inl new ↦
                let k : ℕ = i - pos in
                let at : i ≡ pos + k = ground arith in
                let source : from + (szignore + k) ≡ start + i = ground arith in
                ap (λ j. get_elem? p.out j) at
                ∙ get_elem?-store_inside h.sound.buffer pos bs k p.stored (ground arith)
                ∙ get_elem?-take (length payload - szignore) (drop szignore payload) k
                    (ground arith)
                ∙ get_elem?-drop szignore payload k
                ∙ piece.bytes (szignore + k) (ground arith)
                ∙ ap (λ j. get_elem? t j) source
            | inr beyond ↦
                get_elem?-store_outside h.sound.buffer pos bs i p.stored (inr (ground arith))
                ∙ h.contents i (ground arith)
          ]
        ]

  -- What feeding the piece at `from` gives: it is accepted, and the bytes up to its end are
  -- present, if there were not more already.
  pub record Extends (r : Reasm) (payload : List ℕ) (from : ℕ) (result : Option (Reasm × Bool))
      : Type 0 where
    pub after : Reasm
    pub returns : result ≡ some (after, true)
    pub holds : Holds after
    pub same_size : after.size ≡ r.size
    pub reaches : after.size_present ≡ max r.size_present (from + length payload - start)

  place-Extends :
      (r : Reasm) (seq : ℕ) (payload : List ℕ) (from szignore overlap : ℕ)
      → Holds r
      → IsPiece seq payload from
      → szignore < length payload
      → overlap ≤ r.size_present
      → overlap < 2 ^ 32
      → start + r.size_present ≡ from + szignore + overlap
      → from + length payload ≤ start + r.size
      → Extends r payload from (place r payload szignore (length payload - szignore) overlap)
  place-Extends r seq payload from szignore overlap h piece late inside few meets fits =
      let room : r.size_present - overlap + (length payload - szignore) ≤ r.size = omega arith in
      let p =
        place-Places r payload szignore (length payload - szignore) overlap h.sound.buffer
          h.sound.allocated refl inside (omega (arith, h.sound.sized)) in
      let a = advance_size r p.out (length payload - szignore) overlap h.sound inside few room in
      record {
        after = advance r p.out (length payload - szignore) overlap;
        returns = p.returns;
        holds = record {
          sound = record {
            buffer = p.out;
            allocated = a.0;
            sized = omega (arith, p.same_length, h.sound.sized, a.1);
            within = omega (arith, a.1, a.2, h.sound.within);
            small = omega (arith, a.1, h.sound.small);
            seq_word = omega (arith, a.3);
          };
          position = omega (arith, a.2, a.3, h.position);
          contents = λ i lt.
              written-bytes r payload from szignore overlap h piece p inside meets i
                (omega (arith, a.2));
        };
        same_size = a.1;
        reaches = omega (arith, a.2);
      }

  -- The two sequence differences that `ReasmFeed` computes for a piece that leaves no gap.
  piece_overlap :
      (r : Reasm) (seq : ℕ) (payload : List ℕ) (from : ℕ)
      → Holds r
      → IsPiece seq payload from
      → from ≤ start + r.size_present
      → start + r.size_present - from ≤ max_neg
      → (sub32 r.seq seq ≡ start + r.size_present - from)
        × ((sub32 seq r.seq ≡ 0) ⊎ (max_neg < sub32 seq r.seq))
  piece_overlap r seq payload from h piece joined near =
      let exact : sub32 r.seq seq ≡ start + r.size_present - from =
        omega (arith, h.position, piece.numbered) in
      (exact, ground (arith, h.position, piece.numbered))

  feed_at-Extends :
      (r : Reasm) (seq : ℕ) (payload : List ℕ) (from dseq neg_overlap szignore : ℕ)
      → Holds r
      → IsPiece seq payload from
      → (dseq ≡ 0) ⊎ (max_neg < dseq)
      → neg_overlap ≤ max_neg
      → szignore ≤ neg_overlap
      → neg_overlap ≤ r.size_present + szignore
      → start + r.size_present ≡ from + neg_overlap
      → from + length payload ≤ start + r.size
      → Extends r payload from (feed_at r payload dseq neg_overlap szignore)
  unfolding feed_at
  feed_at-Extends r seq payload from dseq neg_overlap szignore h piece close near le ge meets fits =
      let no_gap : (not (dseq == 0) && ltb dseq max_neg) ≡ false = ground arith in
      let not_far : ltb max_neg neg_overlap ≡ false = ground arith in
      rw (no_gap, not_far)
        (elim (Bool-cases (leb (length payload) szignore)) [
          | inl early ↦ rw early (record {
            after = r;
            returns = refl;
            holds = h;
            same_size = refl;
            reaches = ground arith;
          })
          | inr late ↦
              let room : ltb r.size (
                    u64 (
                      minus64 r.size_present (neg_overlap - szignore)
                      + (length payload - szignore)))
                  ≡ false =
                ground (arith, h.sound.small) in
              rw (late, room)
                (place-Extends r seq payload from szignore (neg_overlap - szignore) h piece
                  (ground arith) (omega arith) (omega arith) (omega arith) fits)
        ])

  -- A piece of the stream that starts no later than what is missing, not too far back, and that
  -- ends within the wanted size, is accepted: it extends what is present up to its end.
  pub feed-Extends :
      (r : Reasm) (seq : ℕ) (payload : List ℕ) (from : ℕ)
      → Holds r
      → IsPiece seq payload from
      → from ≤ start + r.size_present
      → start + r.size_present - from ≤ max_neg
      → from + length payload ≤ start + r.size
      → Extends r payload from (feed r seq payload)
  unfolding feed ignored
  feed-Extends r seq payload from h piece joined near fits =
      let o = piece_overlap r seq payload from h piece joined near in
      feed_at-Extends r seq payload from (sub32 seq r.seq) (sub32 r.seq seq) _ h piece o.1
        (omega (arith, o.0)) (ground (arith, o.0)) (ground (arith, o.0)) (omega (arith, o.0)) fits
