-- ===== src/Track/Keeps.antt =====
-- ConntrackApplyPos: the stage and the counters of a connection stay.
use zapret.Base.{ℕ, ◌+◌, ◌≡◌, refl, ◌∙◌, sym, ap, Option, none, some, Bool, true, false, arith}
use zapret.Base.Bits.{u32}
use zapret.Memory.Laws.{bind-some}
use zapret.Packet.{Dissect, Ip6}
use zapret.Tcp.{Tcp, tcp_find_scale_factor, tcp_find_mss}
use zapret.Track.{
  Position, Positions, ConnState, syn, established, fin, direct_of, reverse_of, with_sides,
  apply_window, apply_uppos, mark_over_2g, apply_flow, apply_pos, shl32,
}

-- The packet, the data packet and the byte counter.
abbrev pub counters : Position → ℕ × ℕ × ℕ
counters d = (d.pcounter, d.pdcounter, d.pbcounter)

-- The counters of the packet's direction and of the other one.
abbrev pub both : Bool → Positions → (ℕ × ℕ × ℕ) × (ℕ × ℕ × ℕ)
both rev p = (counters (direct_of rev p), counters (reverse_of rev p))

apply_window-counters :
    (s : ConnState) (tcp : Tcp) (d : Position) {d' : Position}
    → apply_window s tcp d ≡ some d'
    → counters d' ≡ counters d
unfolding apply_window
apply_window-counters syn tcp d e =
    let a = bind-some (tcp_find_scale_factor tcp) _ e in
    let b = bind-some (tcp_find_mss tcp) _ a.2 in cc
apply_window-counters established tcp d e = let a = bind-some (shl32 tcp.win d.scale) _ e in cc
apply_window-counters fin tcp d e = let a = bind-some (shl32 tcp.win d.scale) _ e in cc

counters-apply_uppos :
    (s : ConnState) (len : ℕ) (d : Position) → counters (apply_uppos s len d) ≡ counters d
unfolding apply_uppos
counters-apply_uppos syn len d = refl
counters-apply_uppos established len d = ground arith
counters-apply_uppos fin len d = ground arith

counters-mark_over_2g : (d : Position) → counters (mark_over_2g d) ≡ counters d
unfolding mark_over_2g
counters-mark_over_2g d = ground arith

counters-apply_flow : (o : Option Ip6) (d : Position) → counters (apply_flow o d) ≡ counters d
unfolding apply_flow
counters-apply_flow none d = refl
counters-apply_flow (some ip6) d = refl

both-with_sides :
    (rev : Bool) (d r : Position) (p : Positions)
    → (both rev (with_sides rev d r p) ≡ (counters d, counters r))
      × ((with_sides rev d r p).state ≡ p.state)
both-with_sides true d r p = (refl, refl)
both-with_sides false d r p = (refl, refl)

pair-eq {ℓ} : {A : Type ℓ} {a a' b b' : A} → a ≡ a' → b ≡ b' → ◌≡◌ {A = A × A} (a, b) (a', b')
pair-eq {a'} {b} p q = ap (λ x. (x, b)) p ∙ ap (λ y. (a', y)) q

pub some-injective {ℓ} : {A : Type ℓ} {a b : A} → some a ≡ some b → a ≡ b
some-injective e = cc

-- The positions are updated within a stage, and no counter is touched.
pub apply_pos_keeps :
    (p : Positions) (rev : Bool) (tcp : Tcp) (dis : Dissect) (p' : Positions)
    → apply_pos p rev tcp dis ≡ some p'
    → (p'.state ≡ p.state) × (both rev p' ≡ both rev p)
unfolding apply_pos
apply_pos_keeps p rev tcp dis p' e =
    let d0 = apply_flow dis.ip6 (direct_of rev p) in
    let w = bind-some (apply_window p.state tcp d0) _ e in
    let c = apply_window-counters p.state tcp d0 w.1 in
    let f = counters-apply_flow dis.ip6 (direct_of rev p) in
    let d1 = record (w.0) { seq_last = tcp.seq; pos = u32 (tcp.seq + dis.len_payload) } in
    let u = counters-apply_uppos p.state dis.len_payload d1 in
    let d2 = apply_uppos p.state dis.len_payload d1 in
    let r = record (reverse_of rev p) { seq_last = tcp.ack; pos = tcp.ack } in
    let direct : counters (mark_over_2g d2) ≡ counters (direct_of rev p) =
      counters-mark_over_2g d2 ∙ u ∙ c ∙ f in
    let reverse : counters (mark_over_2g r) ≡ counters (reverse_of rev p) =
      counters-mark_over_2g r in
    let done : with_sides rev (mark_over_2g d2) (mark_over_2g r) p ≡ p' = some-injective w.2 in
    let b = both-with_sides rev (mark_over_2g d2) (mark_over_2g r) p in
    (
      sym (ap (λ (q : Positions). q.state) done) ∙ b.1,
      sym (ap (both rev) done) ∙ b.0 ∙ pair-eq direct reverse,
    )
