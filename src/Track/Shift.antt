-- ===== src/Track/Shift.antt =====
-- ConntrackApplyPos and the window scale: recorded in the SYN stage, a shift of the window later.
use zapret.Base.{
  ℕ, ◌+◌, ◌≤◌, ◌≡◌, ◌≢◌, refl, sym, ap, ◌∙◌, none, some, Bool, true, false, ◌==◌, arith,
}
use zapret.Base.Bits.{u32}
use zapret.Memory.Laws.{bind-some}
use zapret.Packet.{Dissect}
use zapret.Tcp.{Tcp, tcp_find_scale_factor, tcp_find_mss, scale_none}
use zapret.Track.{
  Position, Positions, ConnState, syn, established, fin, direct_of, reverse_of, with_sides, shl32,
  apply_window, apply_uppos, mark_over_2g, apply_flow, apply_pos,
}
use zapret.Track.Keeps.{some-injective}
use zapret.Track.Ranges.{apply_flow_scale}

apply_window_recorded :
    (s : ConnState) (tcp : Tcp) (d d' : Position) (k : ℕ)
    → s ≡ syn
    → tcp_find_scale_factor tcp ≡ some k
    → k ≢ scale_none
    → apply_window s tcp d ≡ some d'
    → d'.scale ≡ k
unfolding apply_window
apply_window_recorded syn tcp d d' k is found given e =
    let (scale, e1, rest) = bind-some (tcp_find_scale_factor tcp) _ e in
    let (mss, e2, done) = bind-some (tcp_find_mss tcp) _ rest in
    let same : scale ≡ k = some-injective (sym e1 ∙ found) in
    let there : (k == scale_none) ≡ false = ground arith in
    ap (λ (x : Position). x.scale) (sym (some-injective done)) ∙ rw (same, there) refl
apply_window_recorded established tcp d d' k is found given e = absurd (cc)
apply_window_recorded fin tcp d d' k is found given e = absurd (cc)

apply_uppos_scale : (s : ConnState) (len : ℕ) (d : Position) → (apply_uppos s len d).scale ≡ d.scale
unfolding apply_uppos
apply_uppos_scale syn len d = refl
apply_uppos_scale established len d = ground arith
apply_uppos_scale fin len d = ground arith

mark_over_2g_scale : (d : Position) → (mark_over_2g d).scale ≡ d.scale
unfolding mark_over_2g
mark_over_2g_scale d = ground arith

direct_of-with_sides :
    (rev : Bool) (d r : Position) (p : Positions)
    → direct_of rev (with_sides rev d r p) ≡ d × ((with_sides rev d r p).state ≡ p.state)
direct_of-with_sides true d r p = (refl, refl)
direct_of-with_sides false d r p = (refl, refl)

-- In the SYN stage the scale of the options is recorded.
pub apply_pos_recorded :
    (p : Positions) (rev : Bool) (tcp : Tcp) (dis : Dissect) (p' : Positions) (k : ℕ)
    → p.state ≡ syn
    → tcp_find_scale_factor tcp ≡ some k
    → k ≢ scale_none
    → apply_pos p rev tcp dis ≡ some p'
    → ((direct_of rev p').scale ≡ k) × (p'.state ≡ syn)
unfolding apply_pos
apply_pos_recorded p rev tcp dis p' k is found given e =
    let d0 : Position = apply_flow dis.ip6 (direct_of rev p) in
    let (w, e1, rest) = bind-some (apply_window p.state tcp d0) _ e in
    let recorded = apply_window_recorded p.state tcp d0 w k is found given e1 in
    let d1 : Position = record w { seq_last = tcp.seq; pos = u32 (tcp.seq + dis.len_payload) } in
    let d2 : Position = apply_uppos p.state dis.len_payload d1 in
    let r : Position = record (reverse_of rev p) { seq_last = tcp.ack; pos = tcp.ack } in
    let done = some-injective rest in
    let sides = direct_of-with_sides rev (mark_over_2g d2) (mark_over_2g r) p in
    (
      ap (λ (q : Positions). (direct_of rev q).scale) (sym done)
          ∙ ap (λ (x : Position). x.scale) sides.0
          ∙ mark_over_2g_scale d2
          ∙ apply_uppos_scale p.state dis.len_payload d1
          ∙ recorded,
      ap (λ (q : Positions). q.state) (sym done) ∙ sides.1 ∙ is,
    )

apply_window_undefined :
    (s : ConnState) (tcp : Tcp) (d : Position)
    → s ≡ established
    → 32 ≤ d.scale
    → apply_window s tcp d ≡ none
unfolding apply_window shl32
apply_window_undefined syn tcp d late big = absurd (cc)
apply_window_undefined established tcp d late big = ground arith
apply_window_undefined fin tcp d late big = absurd (cc)

pub apply_pos_undefined :
    (p : Positions) (rev : Bool) (tcp : Tcp) (dis : Dissect)
    → p.state ≡ established
    → 32 ≤ (direct_of rev p).scale
    → apply_pos p rev tcp dis ≡ none
unfolding apply_pos
apply_pos_undefined p rev tcp dis late big = rw (
    apply_window_undefined p.state tcp (apply_flow dis.ip6 (direct_of rev p)) late
      (rw apply_flow_scale big))
