-- ===== src/Reasm/Invariant.antt =====
-- The buffer is as long as its recorded size, and what is present fits it; no operation writes
-- outside it.
use zapret.Base.{
  ℕ, ◌+◌, ◌-◌, ◌^◌, ◌≤◌, ◌<◌, ◌≡◌, refl, List, Option, some, Bool, true, false, arith, ltb, leb,
  length, drop, take, max, length-take, length-drop, inl, inr, Bool-cases, not, ◌&&◌, ◌==◌,
}
use zapret.Base.Bits.{u32, u64}
use zapret.Memory.{store, minus64}
use zapret.Memory.Laws.{store-some}
use zapret.Reasm.{Reasm, feed, feed_at, ignored, place, advance, max_neg}

pub record IsSound (r : Reasm) : Type 0 where
  pub buffer : List ℕ
  pub allocated : r.packet ≡ some buffer
  pub sized : length buffer ≡ r.size
  pub within : r.size_present ≤ r.size
  pub small : r.size < 2 ^ 63
  pub seq_word : r.seq < 2 ^ 32

-- What a call returned, with a sound state; a fault does not satisfy it.
pub record Returns (r : Reasm) (result : Option (Reasm × Bool)) : Type 0 where
  pub after : Reasm
  pub answer : Bool
  pub returns : result ≡ some (after, answer)
  pub sound : IsSound after
  pub same_size : after.size ≡ r.size
  pub keeps : r.size_present ≤ after.size_present

unchanged : (r : Reasm) (b : Bool) → IsSound r → Returns r (some (r, b))
unchanged r b s = record {
  after = r;
  answer = b;
  returns = refl;
  sound = s;
  same_size = refl;
  keeps = omega arith;
}

-- `place` writes inside the buffer: what it returns, and the buffer that it leaves.
pub record Places (r : Reasm) (payload : List ℕ) (ignored szcopy overlap : ℕ) (buffer : List ℕ)
    : Type 0 where
  pub out : List ℕ
  pub stored :
      store buffer (r.size_present - overlap) (take szcopy (drop ignored payload)) ≡ some out
  pub same_length : length out ≡ length buffer
  pub returns : place r payload ignored szcopy overlap ≡ some (advance r out szcopy overlap, true)

pub place-Places :
    (r : Reasm) (payload : List ℕ) (ignored szcopy overlap : ℕ) (buffer : List ℕ)
    → r.packet ≡ some buffer
    → szcopy ≡ length payload - ignored
    → overlap ≤ r.size_present
    → r.size_present - overlap + szcopy ≤ length buffer
    → Places r payload ignored szcopy overlap buffer
place-Places r payload ignored szcopy overlap buffer is_buffer e inside fits =
    let bytes : List ℕ = take szcopy (drop ignored payload) in
    let sized : length bytes ≡ szcopy =
      omega (arith, length-take szcopy (drop ignored payload), length-drop ignored payload) in
    let from : ltb r.size_present overlap ≡ false = ground arith in
    let s = store-some buffer (r.size_present - overlap) bytes (omega arith) in
    record {
      out = s.0;
      stored = s.1;
      same_length = s.2;
      returns = unfold place in rw (from, is_buffer, s.1, place);
    }

pub advance_size :
    (r : Reasm) (buffer : List ℕ) (szcopy overlap : ℕ)
    → IsSound r
    → overlap ≤ r.size_present
    → overlap < 2 ^ 32
    → r.size_present - overlap + szcopy ≤ r.size
    → ((advance r buffer szcopy overlap).packet ≡ some buffer)
      × ((advance r buffer szcopy overlap).size ≡ r.size)
      × ((advance r buffer szcopy overlap).size_present
          ≡ max r.size_present (r.size_present - overlap + szcopy))
      × ((advance r buffer szcopy overlap).seq ≡ u32 (r.seq + (szcopy - overlap)))
unfolding advance
advance_size r buffer szcopy overlap s inside few fits = elim (Bool-cases (ltb overlap szcopy)) [
  | inl more ↦ rw more (refl, refl, ground arith, ground arith)
  | inr less ↦ rw less (refl, refl, ground arith, ground arith)
]

accepted :
    (r : Reasm) (payload : List ℕ) (ignored szcopy overlap : ℕ)
    → IsSound r
    → szcopy ≡ length payload - ignored
    → overlap ≤ r.size_present
    → overlap < 2 ^ 32
    → r.size_present - overlap + szcopy ≤ r.size
    → Returns r (place r payload ignored szcopy overlap)
accepted r payload ignored szcopy overlap s e inside few fits =
    let p =
      place-Places r payload ignored szcopy overlap s.buffer s.allocated e inside
        (omega (arith, s.sized)) in
    let a = advance_size r p.out szcopy overlap s inside few fits in
    record {
      after = advance r p.out szcopy overlap;
      answer = true;
      returns = p.returns;
      sound = record {
        buffer = p.out;
        allocated = a.0;
        sized = omega (arith, p.same_length, s.sized, a.1);
        within = omega (arith, a.1, a.2, s.within);
        small = omega (arith, a.1, s.small);
        seq_word = omega (arith, a.3);
      };
      same_size = a.1;
      keeps = omega (arith, a.2);
    }

feed_at-Returns :
    (r : Reasm) (payload : List ℕ) (dseq neg_overlap szignore : ℕ)
    → IsSound r
    → szignore ≤ neg_overlap
    → neg_overlap ≤ r.size_present + szignore
    → length payload < 2 ^ 63
    → Returns r (feed_at r payload dseq neg_overlap szignore)
unfolding feed_at
feed_at-Returns r payload dseq neg_overlap szignore s le ge short =
    let from : minus64 r.size_present (neg_overlap - szignore)
        ≡ r.size_present - (neg_overlap - szignore) =
      ground arith in
    rw from (elim (Bool-cases (not (dseq == 0) && ltb dseq max_neg)) [
      | inl gap ↦ rw gap (unchanged r false s)
      | inr joined ↦ rw joined (elim (Bool-cases (ltb max_neg neg_overlap)) [
        | inl far ↦ rw far (unchanged r false s)
        | inr near ↦ rw near (elim (Bool-cases (leb (length payload) szignore)) [
          | inl early ↦ rw early (unchanged r true s)
          | inr late ↦
              rw late
                (elim (Bool-cases (
                  ltb r.size (
                    u64
                      (r.size_present - (neg_overlap - szignore) + (length payload - szignore))))) [
                        | inl big ↦ rw big (unchanged r false s)
                        | inr small ↦ rw small (
                            accepted r payload szignore (length payload - szignore)
                              (neg_overlap - szignore) s refl (omega arith) (ground arith)
                              (ground (arith, s.small, s.within)))
                      ])
        ])
      ])
    ])

-- From a sound state, whatever segment shorter than 2^63 bytes comes, `feed` writes inside the
-- buffer, and leaves a sound state of the same size that has lost nothing.
pub feed-Returns :
    (r : Reasm) (seq : ℕ) (payload : List ℕ)
    → IsSound r
    → length payload < 2 ^ 63
    → Returns r (feed r seq payload)
unfolding feed ignored
feed-Returns r seq payload s short =
    feed_at-Returns r payload _ _ _ s (ground arith) (ground arith) short
