-- ===== src/Track/Examples.antt =====
-- A connection whose client asks for a window scale of 40: the handshake, the fault at its third
-- packet, and a second handshake over an old entry.
use zapret.Base.{ℕ, suc, ◌≢◌, inr, arith, ◌≡◌, refl, List, [], ◌∷◌, Option, none, some, false}
use zapret.Packet.{Dissect}
use zapret.Tcp.{
  Tcp, tcp_syn_segment, tcp_synack_segment, tcp_find_scale_factor, tcp_find_mss, tcp_find_option,
  find_option, read_scale, read_mss, ends_connection,
}
use zapret.Track.{
  syn, zero_position, Track, Timespec, Positions, Lua, established, blank, apply_pos, apply_window,
  apply_uppos, mark_over_2g, apply_flow, count_packet,
}
use zapret.Track.Feed.{
  feed_packet, feed_tcp, feed_segment, segment_of, count_side, set_client_seq0, stamp, reinit_if,
  clear_track, reinit_track, init_track,
}
use zapret.Track.Keeps.{both}
use zapret.Track.Segments.{erases, erases_by, no_counts}
use zapret.Track.Steps.{Moves, feed_packet-Moves, feed_packet_counters}
use zapret.Track.Scale.{feed_packet_scale_faults}
use zapret.Track.Ranges.{apply_pos_total, Advances, Ahead, apply_uppos-Advances}

-- A registry that counts the references given.
abbrev counting : Lua
counting = record { Registry = ℕ; new_ref = λ n. (n, suc n); unref = λ r n. n }

abbrev now : Timespec
now = record { sec = 5; nsec = 0 }

abbrev segment : ℕ → List ℕ → Tcp
segment flags options = record {
  sport = 40000;
  dport = 443;
  seq = 1000;
  ack = 2000;
  flags = flags;
  win = 64240;
  options = options;
}

abbrev packet : Tcp → Dissect
packet tcp = record { ip = none; ip6 = none; tcp = some tcp; udp = none; len_payload = 0 }

abbrev syn_40 : Dissect
syn_40 = packet (segment 2 (3 ∷ 3 ∷ 40 ∷ []))

abbrev ack : Dissect
ack = packet (segment 16 [])

abbrev or_blank : Option (Track × ℕ) → Track × ℕ
or_blank none = (blank 0 0, 0)
or_blank (some r) = r

abbrev first : Track × ℕ
first = or_blank (feed_packet counting now (blank 0 1) false syn_40 2)

first_returns : feed_packet counting now (blank 0 1) false syn_40 2 ≡ some first
unfolding feed_packet feed_tcp feed_segment segment_of count_side count_packet set_client_seq0 stamp
    reinit_if apply_pos apply_window apply_uppos mark_over_2g apply_flow tcp_syn_segment
    tcp_synack_segment tcp_find_scale_factor tcp_find_mss tcp_find_option find_option read_scale
    read_mss
first_returns = refl

-- The client's next segment, an ACK, then shifts by 40.
feed_packet_scale_faults_example : feed_packet counting now first.0 false ack first.1 ≡ none
unfolding segment_of tcp_syn_segment tcp_synack_segment ends_connection tcp_find_scale_factor
    tcp_find_option find_option read_scale
feed_packet_scale_faults_example =
    feed_packet_scale_faults counting now now (blank 0 1) false syn_40 ack
      (segment 2 (3 ∷ 3 ∷ 40 ∷ [])) (segment 16 []) 2 first 40 refl refl refl
      (λ e. absurd (omega arith)) (omega arith) first_returns refl refl

abbrev late : ℕ → Positions
late scale = record {
  t_last = now;
  state = established;
  client = record zero_position { scale = scale; pcounter = 3; pbcounter = 70; uppos = 4294967290 };
  server = zero_position;
  ipproto = 6;
}

late-NotSyn : established ≢ syn
late-NotSyn e = absurd (cc)

apply_pos_total_example :
    (p' : Positions) × (apply_pos (late 7) false (segment 16 []) ack ≡ some p')
apply_pos_total_example = apply_pos_total (late 7) false (segment 16 []) ack (inr (omega arith))

apply_uppos-Advances_example :
    Advances 10 (late 7).client (apply_uppos established 10 (late 7).client).uppos
    × Ahead 4294967290 (apply_uppos established 10 (late 7).client).uppos
apply_uppos-Advances_example =
    apply_uppos-Advances established 10 (late 7).client late-NotSyn (omega arith)

feed_packet-Moves_example : Moves (syn_40.tcp) (blank 0 1).pos first.0.pos.state
feed_packet-Moves_example =
    feed_packet-Moves counting now (blank 0 1) false syn_40 2 first first_returns

-- Another SYN over an entry with three packets.
abbrev old : Track
old = record (blank 0 1) { pos = late 7 }

abbrev again : Track × ℕ
again = or_blank (feed_packet counting now old false syn_40 2)

again_returns : feed_packet counting now old false syn_40 2 ≡ some again
unfolding feed_packet feed_tcp feed_segment segment_of count_side count_packet set_client_seq0 stamp
    reinit_if apply_pos apply_window apply_uppos mark_over_2g apply_flow reinit_track init_track
    clear_track tcp_syn_segment tcp_synack_segment tcp_find_scale_factor tcp_find_mss
    tcp_find_option find_option read_scale read_mss
again_returns = refl

feed_packet_counters_example : both false again.0.pos ≡ no_counts
unfolding erases erases_by segment_of tcp_syn_segment
feed_packet_counters_example =
    feed_packet_counters counting now old false syn_40 2 again again_returns
