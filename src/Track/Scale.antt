-- ===== src/Track/Scale.antt =====
-- ConntrackFeedPacket over two packets of one direction: the window scale that the first records is
-- the shift of the second.
use zapret.Base.{
  ℕ, ◌≤◌, ◌≡◌, ◌≢◌, refl, sym, ap, ◌∙◌, subst, none, some, Bool, true, false, not, ◌&&◌, ◌==◌,
  if◌then◌else◌, arith,
}
use zapret.Memory.Laws.{bind-some}
use zapret.Packet.{Dissect}
use zapret.Reasm.{sub32}
use zapret.Tcp.{Tcp, tcp_find_scale_factor, scale_none}
use zapret.Track.{
  Track, Timespec, syn, established, is_syn, Lua, direct_of, apply_pos, count_packet,
}
use zapret.Track.Feed.{
  opening, other, segment_of, count_side, set_client_seq0, set_server_seq0, set_state, stamp,
  feed_segment, feed_tcp, feed_packet,
}
use zapret.Track.Keeps.{some-injective}
use zapret.Track.Shift.{apply_pos_recorded, apply_pos_undefined}
use zapret.Track.Segments.{reinit_if-not-is_syn}

-- The packet's direction keeps its scale, and the stage is the same.
count_side_scale :
    (rev : Bool) (len : ℕ) (t : Track)
    → ((direct_of rev (count_side rev len t).pos).scale ≡ (direct_of rev t.pos).scale)
      × ((count_side rev len t).pos.state ≡ t.pos.state)
unfolding count_side count_packet
count_side_scale true len t = (refl, refl)
count_side_scale false len t = (refl, refl)

stamp_scale :
    (now : Timespec) (rev : Bool) (t : Track)
    → ((direct_of rev (stamp now t).pos).scale ≡ (direct_of rev t.pos).scale)
      × ((stamp now t).pos.state ≡ t.pos.state)
unfolding stamp
stamp_scale now true t = (refl, refl)
stamp_scale now false t = (refl, refl)

establish_scale :
    (b : Bool) (seq : ℕ) (rev : Bool) (t : Track)
    → let t' : Track =
        if b then set_server_seq0 seq (set_state established t) else set_state established t in
      ((direct_of rev t'.pos).scale ≡ (direct_of rev t.pos).scale) × (t'.pos.state ≡ established)
unfolding set_state set_server_seq0
establish_scale true seq true t = (refl, refl)
establish_scale true seq false t = (refl, refl)
establish_scale false seq true t = (refl, refl)
establish_scale false seq false t = (refl, refl)

module _ (lua : Lua) where
  open lua use {Registry}

  feed_tcp_recorded :
      (rev : Bool) (tcp : Tcp) (dis : Dissect) (t : Track) (reg : Registry) (r : Track × Registry)
      (k : ℕ)
      → segment_of tcp ≡ opening
      → tcp_find_scale_factor tcp ≡ some k
      → k ≢ scale_none
      → feed_tcp lua rev (some tcp) dis (t, reg) ≡ some r
      → ((direct_of rev r.0.pos).scale ≡ k) × (r.0.pos.state ≡ syn)
  unfolding feed_tcp feed_segment set_client_seq0
  feed_tcp_recorded rev tcp dis t reg r k is found given e =
      let (p, e1, rest) =
        bind-some (apply_pos (feed_segment lua opening rev tcp (t, reg)).0.pos rev tcp dis) _
          (rw is at e) in
      let (scale, stage) =
        apply_pos_recorded (feed_segment lua opening rev tcp (t, reg)).0.pos rev tcp dis p k
          (reinit_if-not-is_syn lua t reg) found given e1 in
      let done = some-injective rest in
      (
        ap (λ (x : Track × Registry). (direct_of rev x.0.pos).scale) (sym done) ∙ scale,
        ap (λ (x : Track × Registry). x.0.pos.state) (sym done) ∙ stage,
      )

  feed_packet_recorded :
      (now : Timespec) (t : Track) (rev : Bool) (dis : Dissect) (tcp : Tcp) (reg : Registry)
      (r : Track × Registry) (k : ℕ)
      → dis.tcp ≡ some tcp
      → segment_of tcp ≡ opening
      → tcp_find_scale_factor tcp ≡ some k
      → k ≢ scale_none
      → feed_packet lua now t rev dis reg ≡ some r
      → ((direct_of rev r.0.pos).scale ≡ k) × (r.0.pos.state ≡ syn)
  unfolding feed_packet
  feed_packet_recorded now t rev dis tcp reg r k has is found given e =
      let t1 : Track = count_side rev dis.len_payload t in
      let (s, e1, rest) = bind-some (feed_tcp lua rev dis.tcp dis (t1, reg)) _ e in
      let fed = subst (λ o. feed_tcp lua rev o dis (t1, reg) ≡ some s) has e1 in
      let (scale, stage) = feed_tcp_recorded rev tcp dis t1 reg s k is found given fed in
      let done = some-injective rest in
      (
        ap (λ (x : Track × Registry). (direct_of rev x.0.pos).scale) (sym done)
            ∙ (stamp_scale now rev s.0).0
            ∙ scale,
        ap (λ (x : Track × Registry). x.0.pos.state) (sym done)
            ∙ (stamp_scale now rev s.0).1
            ∙ stage,
      )

  feed_tcp_undefined :
      (rev : Bool) (tcp : Tcp) (dis : Dissect) (t : Track) (reg : Registry)
      → segment_of tcp ≡ other
      → t.pos.state ≡ syn
      → 32 ≤ (direct_of rev t.pos).scale
      → feed_tcp lua rev (some tcp) dis (t, reg) ≡ none
  unfolding feed_tcp feed_segment
  feed_tcp_undefined rev tcp dis t reg is stage big =
      let b : Bool = not rev && (t.pos.server.seq0 == 0) in
      let seq : ℕ = sub32 tcp.ack 1 in
      let t' : Track =
        if b then set_server_seq0 seq (set_state established t) else set_state established t in
      let moved = establish_scale b seq rev t in
      let faults : apply_pos t'.pos rev tcp dis ≡ none =
        apply_pos_undefined t'.pos rev tcp dis moved.1 (omega (arith, big, moved.0)) in
      rw (is, ap is_syn stage) (rw faults refl)

  feed_packet_undefined :
      (now : Timespec) (t : Track) (rev : Bool) (dis : Dissect) (tcp : Tcp) (reg : Registry)
      → dis.tcp ≡ some tcp
      → segment_of tcp ≡ other
      → t.pos.state ≡ syn
      → 32 ≤ (direct_of rev t.pos).scale
      → feed_packet lua now t rev dis reg ≡ none
  unfolding feed_packet
  feed_packet_undefined now t rev dis tcp reg has is stage big =
      let t1 : Track = count_side rev dis.len_payload t in
      let kept = count_side_scale rev dis.len_payload t in
      let faults : feed_tcp lua rev dis.tcp dis (t1, reg) ≡ none =
        subst (λ o. feed_tcp lua rev o dis (t1, reg) ≡ none) (sym has)
          (feed_tcp_undefined rev tcp dis t1 reg is (kept.1 ∙ stage)
            (omega (arith, big, kept.0))) in
      rw faults refl

  -- If the update by a segment that opens a connection returns, whose options have a window scale
  -- of 32 or more but not 255, then the update by the next segment of its direction faults, if this
  -- one is neither an opening one, its reply, nor one with FIN or RST: it shifts the window by that
  -- scale, which C leaves undefined.
  pub feed_packet_scale_faults :
      (now now' : Timespec) (t : Track) (rev : Bool) (first second : Dissect) (opener tcp : Tcp)
      (reg : Registry) (r : Track × Registry) (k : ℕ)
      → first.tcp ≡ some opener
      → segment_of opener ≡ opening
      → tcp_find_scale_factor opener ≡ some k
      → k ≢ scale_none
      → 32 ≤ k
      → feed_packet lua now t rev first reg ≡ some r
      → second.tcp ≡ some tcp
      → segment_of tcp ≡ other
      → feed_packet lua now' r.0 rev second r.1 ≡ none
  feed_packet_scale_faults now now' t rev first second opener tcp reg r k has is found given big e
        has' is' =
      let (scale, stage) =
        feed_packet_recorded now t rev first opener reg r k has is found given e in
      feed_packet_undefined now' r.0 rev second tcp r.1 has' is' stage (omega (arith, big, scale))
