-- ===== src/Track/Segments.antt =====
-- ConntrackFeedPacket: what each kind of TCP segment does to the stage and the counters.
use zapret.Base.{
  ℕ, ◌≡◌, ◌≢◌, refl, ◌∙◌, sym, ap, inl, inr, ◌⊎◌, subst, Option, none, some, Bool, true, false, not,
  ◌&&◌, ◌==◌, if◌then◌else◌, Bool-cases,
}
use zapret.Reasm.{sub32}
use zapret.Tcp.{Tcp}
use zapret.Track.{Track, Positions, ConnState, syn, established, fin, is_syn, Lua, blank}
use zapret.Track.Feed.{
  Segment, opening, opening_reply, closing, other, segment_of, set_client_seq0, set_server_seq0,
  set_state, init_track, reinit_track, reinit_if, feed_segment,
}
use zapret.Track.Keeps.{both}

-- The moves of a connection between its stages; the flag says that the segment belongs to another
-- connection than the one recorded.
pub data Step : Segment → Bool → ConnState → ConnState → Type 0 where
  opened : (another : Bool) (s : ConnState) → Step opening another s syn
  reply : (s : ConnState) → Step opening_reply false s s
  reopen : (s : ConnState) → Step opening_reply true s syn
  close : (another : Bool) (s : ConnState) → Step closing another s fin
  establish : (another : Bool) → Step other another syn established
  stay : (another : Bool) (s : ConnState) → s ≢ syn → Step other another s s

-- The segment starts another connection in an entry that is past its SYN stage.
unfoldable pub erases_by : Segment → Tcp → Positions → Bool
erases_by opening tcp p = not (is_syn p.state)
erases_by opening_reply tcp p = not (is_syn p.state) && not (p.client.seq0 == sub32 tcp.ack 1)
erases_by closing tcp p = false
erases_by other tcp p = false

unfoldable pub erases : Option Tcp → Positions → Bool
erases none p = false
erases (some tcp) p = erases_by (segment_of tcp) tcp p

abbrev pub no_counts : (ℕ × ℕ × ℕ) × (ℕ × ℕ × ℕ)
no_counts = ((0, 0, 0), (0, 0, 0))

ConnState-cases : (s : ConnState) → (s ≡ syn) ⊎ ((is_syn s ≡ false) × (s ≢ syn))
ConnState-cases syn = inl refl
ConnState-cases established = inr (refl, λ e. absurd (cc))
ConnState-cases fin = inr (refl, λ e. absurd (cc))

-- Filling in a missing first sequence number changes neither the stage nor the counters.
set_if :
    (b : Bool) (seq : ℕ) (rev : Bool) (t : Track)
    → ((if b then set_client_seq0 seq t else t).pos.state ≡ t.pos.state)
      × (both rev (if b then set_client_seq0 seq t else t).pos ≡ both rev t.pos)
unfolding set_client_seq0
set_if true seq true t = (refl, refl)
set_if true seq false t = (refl, refl)
set_if false seq rev t = (refl, refl)

set_server :
    (seq : ℕ) (rev : Bool) (t : Track) → both rev (set_server_seq0 seq t).pos ≡ both rev t.pos
unfolding set_server_seq0
set_server seq true t = refl
set_server seq false t = refl

set_client :
    (seq : ℕ) (rev : Bool) (t : Track) → both rev (set_client_seq0 seq t).pos ≡ both rev t.pos
unfolding set_client_seq0
set_client seq true t = refl
set_client seq false t = refl

set_stage : (s : ConnState) (rev : Bool) (t : Track) → both rev (set_state s t).pos ≡ both rev t.pos
unfolding set_state
set_stage s true t = refl
set_stage s false t = refl

establish-Step :
    {s s' : ConnState} (another : Bool) → s ≡ syn → s' ≡ established → Step other another s s'
establish-Step another first second = rw (first, second) (establish another)

answer :
    (b : Bool) (seq : ℕ) (rev : Bool) (t : Track)
    → let t' : Track =
        if b then set_server_seq0 seq (set_state established t) else set_state established t in
      (t'.pos.state ≡ established) × (both rev t'.pos ≡ both rev t.pos)
unfolding set_state set_server_seq0
answer true seq true t = (refl, refl)
answer true seq false t = (refl, refl)
answer false seq true t = (refl, refl)
answer false seq false t = (refl, refl)

no_counts-blank : (rev : Bool) → both rev (blank 0 0).pos ≡ no_counts
no_counts-blank true = refl
no_counts-blank false = refl

module _ (lua : Lua) where
  open lua use {Registry}

  reinit_if_pos :
      (b : Bool) (t : Track) (reg : Registry)
      → (reinit_if lua b (t, reg)).0.pos ≡ (if b then (blank 0 0).pos else t.pos)
  unfolding reinit_if reinit_track init_track
  reinit_if_pos true t reg = refl
  reinit_if_pos false t reg = refl

  reinit_if_counters :
      (b rev : Bool) (t : Track) (reg : Registry)
      → both rev (reinit_if lua b (t, reg)).0.pos ≡ (if b then no_counts else both rev t.pos)
  reinit_if_counters true rev t reg = ap (both rev) (reinit_if_pos true t reg) ∙ no_counts-blank rev
  reinit_if_counters false rev t reg = ap (both rev) (reinit_if_pos false t reg)

  pub reinit_if-not-is_syn :
      (t : Track) (reg : Registry)
      → (reinit_if lua (not (is_syn t.pos.state)) (t, reg)).0.pos.state ≡ syn
  reinit_if-not-is_syn t reg = elim (ConnState-cases t.pos.state) [
    | inl first ↦
        ap (λ (p : Positions). p.state) (reinit_if_pos (not (is_syn t.pos.state)) t reg)
        ∙ rw first refl
    | inr later ↦
        ap (λ (p : Positions). p.state) (reinit_if_pos (not (is_syn t.pos.state)) t reg)
        ∙ rw (later.0) refl
  ]

  -- The server's first number over an entry that was erased or not.
  reply-Step :
      (b : Bool) (seq0 seq : ℕ) (t : Track) (reg : Registry)
      → let t1 : Track = (reinit_if lua b (t, reg)).0 in
        Step opening_reply b t.pos.state
          (set_server_seq0 seq
            (if t1.pos.client.seq0 == 0 then set_client_seq0 seq0 t1 else t1)).pos.state
  unfolding set_server_seq0
  reply-Step true seq0 seq t reg =
      let t1 : Track = (reinit_if lua true (t, reg)).0 in
      subst (Step opening_reply true t.pos.state)
        (sym (
          (set_if (t1.pos.client.seq0 == 0) seq0 true t1).0
          ∙ ap (λ (p : Positions). p.state) (reinit_if_pos true t reg)))
        (reopen _)
  reply-Step false seq0 seq t reg =
      let t1 : Track = (reinit_if lua false (t, reg)).0 in
      subst (Step opening_reply false t.pos.state)
        (sym (
          (set_if (t1.pos.client.seq0 == 0) seq0 true t1).0
          ∙ ap (λ (p : Positions). p.state) (reinit_if_pos false t reg)))
        (reply _)

  pub feed_segment-Step :
      (seg : Segment) (rev : Bool) (tcp : Tcp) (t : Track) (reg : Registry)
      → Step seg
          (erases_by seg tcp t.pos)
          t.pos.state
          (feed_segment lua seg rev tcp (t, reg)).0.pos.state
  unfolding erases_by feed_segment set_client_seq0 set_state
  feed_segment-Step opening rev tcp t reg =
      subst (Step opening (not (is_syn t.pos.state)) t.pos.state) (sym (reinit_if-not-is_syn t reg))
        (opened _ _)
  feed_segment-Step opening_reply rev tcp t reg = reply-Step _ _ tcp.seq t reg
  feed_segment-Step closing rev tcp t reg = close _ _
  feed_segment-Step other rev tcp t reg = elim (ConnState-cases t.pos.state) [
    | inl first ↦
        rw (ap is_syn first) (establish-Step false first (answer _ (sub32 tcp.ack 1) rev t).0)
    | inr later ↦ rw (later.0) (stay _ _ later.1)
  ]

  pub feed_segment_counters :
      (seg : Segment) (rev : Bool) (tcp : Tcp) (t : Track) (reg : Registry)
      → both rev (feed_segment lua seg rev tcp (t, reg)).0.pos
        ≡ (if erases_by seg tcp t.pos then no_counts else both rev t.pos)
  unfolding feed_segment erases_by
  feed_segment_counters opening rev tcp t reg =
      set_client tcp.seq rev _ ∙ reinit_if_counters (not (is_syn t.pos.state)) rev t reg
  feed_segment_counters opening_reply rev tcp t reg =
      set_server tcp.seq rev _ ∙ (set_if _ _ rev _).1 ∙ reinit_if_counters _ rev t reg
  feed_segment_counters closing rev tcp t reg = set_stage fin rev t
  feed_segment_counters other rev tcp t reg = elim (Bool-cases (is_syn t.pos.state)) [
    | inl first ↦ rw first (answer _ (sub32 tcp.ack 1) rev t).1
    | inr later ↦ rw later refl
  ]
