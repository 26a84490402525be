-- ===== src/Track/Steps.antt =====
-- ConntrackFeedPacket: the stages of a TCP connection, and what happens to the counters.
use zapret.Base.{
  ℕ, ◌≡◌, refl, ◌∙◌, sym, ap, subst, Option, none, some, Bool, true, false, if◌then◌else◌, ◌+◌,
  ◌==◌,
}
use zapret.Base.Bits.{u64}
use zapret.Memory.Laws.{bind-some}
use zapret.Packet.{Dissect}
use zapret.Tcp.{Tcp}
use zapret.Track.{
  Track, Timespec, Positions, ConnState, Lua, direct_of, reverse_of, apply_pos, count_packet,
}
use zapret.Track.Feed.{
  Segment, opening, opening_reply, closing, other, segment_of, count_side, stamp, feed_segment,
  feed_tcp, feed_packet,
}
use zapret.Track.Keeps.{counters, both, apply_pos_keeps, some-injective}
use zapret.Track.Segments.{
  Step, erases_by, erases, no_counts, feed_segment-Step, feed_segment_counters,
}

-- A packet that is not TCP leaves the stage.
pub Moves : Option Tcp → Positions → ConnState → Type 0
Moves none p s' = s' ≡ p.state
Moves (some tcp) p s' = Step (segment_of tcp) (erases_by (segment_of tcp) tcp p) p.state s'

-- What a packet does to the counters of its direction and of the other.
pub counted : Bool → ℕ → Positions → (ℕ × ℕ × ℕ) × (ℕ × ℕ × ℕ)
counted rev len p = (
  (
    u64 ((direct_of rev p).pcounter + 1),
    u64 ((direct_of rev p).pdcounter + (if len == 0 then 0 else 1)),
    u64 ((direct_of rev p).pbcounter + len),
  ),
  counters (reverse_of rev p),
)

erases_by_side :
    (seg : Segment) (rev : Bool) (len : ℕ) (tcp : Tcp) (t : Track)
    → erases_by seg tcp (count_side rev len t).pos ≡ erases_by seg tcp t.pos
unfolding count_side erases_by count_packet
erases_by_side opening true len tcp t = refl
erases_by_side opening false len tcp t = refl
erases_by_side opening_reply true len tcp t = refl
erases_by_side opening_reply false len tcp t = refl
erases_by_side closing rev len tcp t = refl
erases_by_side other rev len tcp t = refl

erases_side :
    (o : Option Tcp) (rev : Bool) (len : ℕ) (t : Track)
    → erases o (count_side rev len t).pos ≡ erases o t.pos
unfolding erases
erases_side none rev len t = refl
erases_side (some tcp) rev len t = erases_by_side (segment_of tcp) rev len tcp t

count_side_keeps :
    (rev : Bool) (len : ℕ) (t : Track)
    → (both rev (count_side rev len t).pos ≡ counted rev len t.pos)
      × ((count_side rev len t).pos.state ≡ t.pos.state)
unfolding count_side count_packet counted
count_side_keeps true len t = (refl, refl)
count_side_keeps false len t = (refl, refl)

Moves-count_side :
    (o : Option Tcp) (rev : Bool) (len : ℕ) (t : Track) (s' : ConnState)
    → Moves o (count_side rev len t).pos s'
    → Moves o t.pos s'
unfolding Moves
Moves-count_side none rev len t s' m = m ∙ (count_side_keeps rev len t).1
Moves-count_side (some tcp) rev len t s' m =
    subst (λ b. Step (segment_of tcp) b t.pos.state s')
      (erases_by_side (segment_of tcp) rev len tcp t)
      (subst
        (λ s.
          Step (segment_of tcp) (erases_by (segment_of tcp) tcp (count_side rev len t).pos) s s')
        (count_side_keeps rev len t).1 m)

stamp_counters :
    (now : Timespec) (rev : Bool) (t : Track) → both rev (stamp now t).pos ≡ both rev t.pos
unfolding stamp
stamp_counters now true t = refl
stamp_counters now false t = refl

module _ (lua : Lua) where
  open lua use {Registry}

  feed_tcp_keeps :
      (rev : Bool) (o : Option Tcp) (dis : Dissect) (t : Track) (reg : Registry)
      (r : Track × Registry)
      → feed_tcp lua rev o dis (t, reg) ≡ some r
      → Moves o t.pos r.0.pos.state
        × (both rev r.0.pos ≡ (if erases o t.pos then no_counts else both rev t.pos))
  unfolding feed_tcp erases Moves
  feed_tcp_keeps rev none dis t reg r e =
      let same = some-injective e in
      (
        ap (λ (s : Track × Registry). s.0.pos.state) (sym same),
        ap (λ (s : Track × Registry). both rev s.0.pos) (sym same),
      )
  feed_tcp_keeps rev (some tcp) dis t reg r e =
      let seg = segment_of tcp in
      let fed : Track = (feed_segment lua seg rev tcp (t, reg)).0 in
      let p = bind-some (apply_pos fed.pos rev tcp dis) _ e in
      let same = some-injective p.2 in
      let kept = apply_pos_keeps fed.pos rev tcp dis p.0 p.1 in
      (
        subst (Step seg (erases_by seg tcp t.pos) t.pos.state)
            (sym kept.0 ∙ ap (λ (s : Track × Registry). s.0.pos.state) same)
            (feed_segment-Step lua seg rev tcp t reg),
        ap (λ (s : Track × Registry). both rev s.0.pos) (sym same)
            ∙ kept.1
            ∙ feed_segment_counters lua seg rev tcp t reg,
      )

  feed_packet_parts :
      (now : Timespec) (t : Track) (rev : Bool) (dis : Dissect) (reg : Registry)
      (r : Track × Registry)
      → feed_packet lua now t rev dis reg ≡ some r
      → Moves dis.tcp t.pos r.0.pos.state
        × (both rev r.0.pos
            ≡ (if erases dis.tcp t.pos then no_counts else counted rev dis.len_payload t.pos))
  unfolding feed_packet stamp
  feed_packet_parts now t rev dis reg r e =
      let len = dis.len_payload in
      let counted_t : Track = count_side rev len t in
      let s = bind-some (feed_tcp lua rev dis.tcp dis (counted_t, reg)) _ e in
      let same = some-injective s.2 in
      let kept = feed_tcp_keeps rev dis.tcp dis counted_t reg s.0 s.1 in
      let side = count_side_keeps rev len t in
      let state : s.0.0.pos.state ≡ r.0.pos.state =
        ap (λ (s : Track × Registry). s.0.pos.state) same in
      let counts : both rev s.0.0.pos ≡ both rev r.0.pos =
        sym (stamp_counters now rev s.0.0) ∙ ap (λ (s : Track × Registry). both rev s.0.pos) same in
      (
        Moves-count_side dis.tcp rev len t r.0.pos.state
            (subst (Moves dis.tcp counted_t.pos) state kept.0),
        sym counts ∙ kept.1 ∙ rw (erases_side, side.0) refl,
      )

  -- Whenever the update returns: a packet that is not TCP leaves the stage; an opening segment sets
  -- SYN; its reply leaves the stage, unless it opens another connection in an entry past its SYN
  -- stage, and then sets SYN; a closing segment sets FIN; any other sets ESTABLISHED in the SYN
  -- stage and leaves the other two.
  pub feed_packet-Moves :
      (now : Timespec) (t : Track) (rev : Bool) (dis : Dissect) (reg : Registry)
      (r : Track × Registry)
      → feed_packet lua now t rev dis reg ≡ some r
      → Moves dis.tcp t.pos r.0.pos.state
  feed_packet-Moves now t rev dis reg r e = (feed_packet_parts now t rev dis reg r e).0

  -- Whenever the update returns, the counters of the packet's direction have grown by the packet
  -- and those of the other have stayed, unless the segment opens another connection in an entry
  -- past its SYN stage: then all six are zero, the packet itself not counted.
  pub feed_packet_counters :
      (now : Timespec) (t : Track) (rev : Bool) (dis : Dissect) (reg : Registry)
      (r : Track × Registry)
      → feed_packet lua now t rev dis reg ≡ some r
      → both rev r.0.pos
        ≡ (if erases dis.tcp t.pos then no_counts else counted rev dis.len_payload t.pos)
  feed_packet_counters now t rev dis reg r e = (feed_packet_parts now t rev dis reg r e).1
