-- ===== src/Track/Ranges.antt =====
-- ConntrackApplyPos: where it returns, the widths of the fields, and the highest position.
use zapret.Base.{
  ℕ, ◌^◌, ◌≤◌, ◌<◌, ◌≡◌, ◌≢◌, refl, ◌⊎◌, inl, inr, Option, none, some, Bool, not, ltb, arith,
}
use zapret.Base.Bits.{◌<<◌, u32, bit_and_window}
use zapret.Memory.Laws.{bind_total}
use zapret.Packet.{Dissect, Ip6}
use zapret.Reasm.{sub32}
use zapret.Tcp.{Tcp, tcp_find_scale_factor, tcp_find_mss}
use zapret.Tcp.Options.{scale-mss_total}
use zapret.Track.{
  Position, Positions, ConnState, syn, established, fin, direct_of, shl32, is_behind, apply_window,
  apply_uppos, apply_flow, apply_pos,
}

-- The sign bit of a difference of sequence numbers.
pub is_behind_iff : (a b : ℕ) → is_behind a b ≡ not (ltb (sub32 a b) (2 ^ 31))
is_behind_iff a b = ground (arith, bit_and_window 1 31 (sub32 a b))

pub apply_flow_scale : (o : Option Ip6) (d : Position) → (apply_flow o d).scale ≡ d.scale
unfolding apply_flow
apply_flow_scale none d = refl
apply_flow_scale (some ip6) d = refl

shl32_total : (x k : ℕ) → k < 32 → (y : ℕ) × (shl32 x k ≡ some y)
unfolding shl32
shl32_total x k lt = (u32 (x << k), ground arith)

apply_window_total :
    (s : ConnState) (tcp : Tcp) (d : Position)
    → (s ≡ syn) ⊎ (d.scale < 32)
    → (d' : Position) × (apply_window s tcp d ≡ some d')
unfolding apply_window
apply_window_total syn tcp d h =
    let o = scale-mss_total tcp in
    bind_total (tcp_find_scale_factor tcp) _ (o.0, o.2)
      (λ scale. bind_total (tcp_find_mss tcp) _ (o.1, o.3) (λ mss. (_, refl)))
apply_window_total established tcp d (inl e) = absurd (cc)
apply_window_total established tcp d (inr lt) =
    bind_total _ _ (shl32_total tcp.win d.scale lt) (λ calc. (_, refl))
apply_window_total fin tcp d (inl e) = absurd (cc)
apply_window_total fin tcp d (inr lt) =
    bind_total _ _ (shl32_total tcp.win d.scale lt) (λ calc. (_, refl))

-- In the SYN stage, and outside it under a scale below 32, the update returns.
pub apply_pos_total :
    (p : Positions) (rev : Bool) (tcp : Tcp) (dis : Dissect)
    → (p.state ≡ syn) ⊎ ((direct_of rev p).scale < 32)
    → (p' : Positions) × (apply_pos p rev tcp dis ≡ some p')
unfolding apply_pos
apply_pos_total p rev tcp dis h =
    let w =
      apply_window_total p.state tcp (apply_flow dis.ip6 (direct_of rev p))
        (rw apply_flow_scale h) in
    bind_total _ _ w (λ d. (_, refl))

-- `b` is ahead of `a`, or equal to it, in the order of sequence numbers: the way from `a` forward
-- to `b` is shorter than 2^31.
abbrev pub Ahead : ℕ → ℕ → Type 0
Ahead a b = sub32 b a < 2 ^ 31

-- The highest position after a segment of `len` bytes: it takes the segment's position, or stays
-- where the segment is empty or its position behind.
abbrev pub Advances : ℕ → Position → ℕ → Type 0
Advances len d uppos =
    ((0 < len) × Ahead d.uppos d.pos × (uppos ≡ d.pos))
    ⊎ (((len ≡ 0) ⊎ (2 ^ 31 ≤ sub32 d.pos d.uppos)) × (uppos ≡ d.uppos))

-- Outside the SYN stage the highest position seen, a number of 32 bits, never moves back in the
-- order of sequence numbers: a segment with data takes it to its own position if that is ahead, and
-- any other leaves it.
pub apply_uppos-Advances :
    (s : ConnState) (len : ℕ) (d : Position)
    → s ≢ syn
    → d.uppos < 2 ^ 32
    → Advances len d (apply_uppos s len d).uppos × Ahead d.uppos (apply_uppos s len d).uppos
unfolding apply_uppos
apply_uppos-Advances syn len d late small = absurd (late refl)
apply_uppos-Advances established len d late small =
    rw (is_behind_iff d.pos d.uppos) (ground arith, ground arith)
apply_uppos-Advances fin len d late small =
    rw (is_behind_iff d.pos d.uppos) (ground arith, ground arith)
