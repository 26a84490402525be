-- ===== src/Track.antt =====
-- nfq2/conntrack_base.h, `t_ctrack` of nfq2/conntrack.h, and `ConntrackClearHostname` to
-- `ConntrackFeedPacket` of nfq2/conntrack.c: what is kept of one connection.
pub mod Feed
pub mod Ranges
pub mod Shift
pub mod Scale
pub mod Keeps
pub mod Segments
pub mod Steps
mod Examples
use zapret.Base.{
  ℕ, ◌+◌, ◌*◌, ◌^◌, List, [], Option, none, some, Bool, true, false, not, ◌&&◌, ltb, ◌==◌,
  if◌then◌else◌, bit_and,
}
use zapret.Base.Bits.{◌<<◌, u32, u64}
use zapret.Memory.{◌>>=◌}
use zapret.Packet.{Ip6, Dissect}
use zapret.Reasm.{Reasm, clear, sub32}
use zapret.Tcp.{
  Tcp, tcp_syn_segment, tcp_synack_segment, ends_connection, tcp_find_scale_factor, tcp_find_mss,
  scale_none,
}

pub record Timespec : Type 0 where
  pub sec : ℕ
  pub nsec : ℕ

pub data ConnState : Type 0 where
  syn established fin : ConnState

abbrev pub is_syn : ConnState → Bool
is_syn syn = true
is_syn established = false
is_syn fin = false

pub record Position : Type 0 where
  pub pcounter : ℕ
  pub pdcounter : ℕ
  pub pbcounter : ℕ
  pub ip6flow : ℕ
  pub pos : ℕ
  pub uppos : ℕ
  pub uppos_prev : ℕ
  pub seq_last : ℕ
  pub seq0 : ℕ
  pub winsize : ℕ
  pub mss : ℕ
  pub winsize_calc : ℕ
  pub scale : ℕ
  pub rseq_over_2g : Bool

pub record Positions : Type 0 where
  pub t_last : Timespec
  pub state : ConnState
  pub client : Position
  pub server : Position
  pub ipproto : ℕ

-- `dp` is the cached profile and `delayed` the queue of raw packets.
pub record Track : Type 0 where
  pub check_done : Bool
  pub check_result : Bool
  pub check_excluded : Bool
  pub t_start : Timespec
  pub pos : Positions
  pub dp : Option ℕ
  pub dp_search_complete : Bool
  pub req_retrans_counter : ℕ
  pub failure_detect_finalized : Bool
  pub incoming_ttl : ℕ
  pub b_cutoff : Bool
  pub b_lua_in_cutoff : Bool
  pub b_lua_out_cutoff : Bool
  pub l7proto : ℕ
  pub l7proto_discovered : Bool
  pub hostname : Option (List ℕ)
  pub hostname_is_ip : Bool
  pub hostname_discovered : Bool
  pub hostname_ah_check : Bool
  pub lua_state : ℕ
  pub lua_instance_cutoff : ℕ
  pub reasm_client : Reasm
  pub delayed : List (List ℕ)

abbrev pub zero_time : Timespec
zero_time = record { sec = 0; nsec = 0 }

abbrev pub zero_position : Position
zero_position = record {
  pcounter = 0;
  pdcounter = 0;
  pbcounter = 0;
  ip6flow = 0;
  pos = 0;
  uppos = 0;
  uppos_prev = 0;
  seq_last = 0;
  seq0 = 0;
  winsize = 0;
  mss = 0;
  winsize_calc = 0;
  scale = 0;
  rseq_over_2g = false;
}

-- L7_UNKNOWN.
abbrev pub l7_unknown : ℕ
l7_unknown = 1

-- The Lua registry of the embedded interpreter: `luaL_ref` of a new table, and `luaL_unref`.
pub record Lua : Type 1 where
  pub Registry : Type 0
  pub new_ref : Registry → ℕ × Registry
  pub unref : ℕ → Registry → Registry

-- What ConntrackInitTrack leaves in the record, with the two registry indexes that it got.
abbrev pub blank : ℕ → ℕ → Track
blank state cutoff = record {
  check_done = false;
  check_result = false;
  check_excluded = false;
  t_start = zero_time;
  pos = record {
    t_last = zero_time;
    state = syn;
    client = zero_position;
    server = zero_position;
    ipproto = 0;
  };
  dp = none;
  dp_search_complete = false;
  req_retrans_counter = 0;
  failure_detect_finalized = false;
  incoming_ttl = 0;
  b_cutoff = false;
  b_lua_in_cutoff = false;
  b_lua_out_cutoff = false;
  l7proto = l7_unknown;
  l7proto_discovered = false;
  hostname = none;
  hostname_is_ip = false;
  hostname_discovered = false;
  hostname_ah_check = false;
  lua_state = state;
  lua_instance_cutoff = cutoff;
  reasm_client = record { packet = none; seq = 0; size = 0; size_present = 0 };
  delayed = [];
}

unfoldable pub clear_hostname : Track → Track
clear_hostname t = record t { hostname = none; hostname_is_ip = false }

-- One direction of a connection is the packet's own, the other that of its acknowledgements.
abbrev pub direct_of : Bool → Positions → Position
direct_of true p = p.server
direct_of false p = p.client

abbrev pub reverse_of : Bool → Positions → Position
reverse_of true p = p.client
reverse_of false p = p.server

abbrev pub with_sides : Bool → Position → Position → Positions → Positions
with_sides true direct reverse p = record p { server = direct; client = reverse }
with_sides false direct reverse p = record p { client = direct; server = reverse }

-- `x << k` in 32 bits; C leaves a shift by 32 or more undefined.
unfoldable pub shl32 : ℕ → ℕ → Option ℕ
shl32 x k = if ltb k 32 then some (u32 (x << k)) else none

-- The sign bit of a 32-bit difference.
abbrev pub is_behind : ℕ → ℕ → Bool
is_behind a b = not (bit_and (sub32 a b) 0x80000000 == 0)

-- The window part of ConntrackApplyPos.
unfoldable pub apply_window : ConnState → Tcp → Position → Option Position
apply_window syn tcp d = do
  scale ← tcp_find_scale_factor tcp
  mss ← tcp_find_mss tcp
  some (record d {
    winsize = tcp.win;
    winsize_calc = tcp.win;
    scale = if scale == scale_none then d.scale else scale;
    mss = mss;
  })
apply_window established tcp d = do
  calc ← shl32 tcp.win d.scale
  some (record d { winsize = tcp.win; winsize_calc = calc })
apply_window fin tcp d = do
  calc ← shl32 tcp.win d.scale
  some (record d { winsize = tcp.win; winsize_calc = calc })

-- The highest position seen, and the one before it.
unfoldable pub apply_uppos : ConnState → ℕ → Position → Position
apply_uppos syn len d = record d { uppos_prev = d.pos; uppos = d.pos }
apply_uppos other len d = if len == 0 then d else record d {
  uppos_prev = d.uppos;
  uppos = if is_behind d.pos d.uppos then d.uppos else d.pos;
}

unfoldable pub mark_over_2g : Position → Position
mark_over_2g d =
    if not d.rseq_over_2g && is_behind d.seq_last d.seq0
    then record d { rseq_over_2g = true }
    else d

-- `if (dis->ip6) direct->ip6flow = ...`.
unfoldable pub apply_flow : Option Ip6 → Position → Position
apply_flow none d = d
apply_flow (some ip6) d = record d { ip6flow = ip6.flow }

unfoldable pub apply_pos : Positions → Bool → Tcp → Dissect → Option Positions
apply_pos p rev tcp dis = do
  d ← apply_window p.state tcp (apply_flow dis.ip6 (direct_of rev p))
  let d' =
      apply_uppos p.state dis.len_payload
        (record d { seq_last = tcp.seq; pos = u32 (tcp.seq + dis.len_payload) })
  let r = record (reverse_of rev p) { seq_last = tcp.ack; pos = tcp.ack }
  some (with_sides rev (mark_over_2g d') (mark_over_2g r) p)

-- The three counters of the packet's direction.
unfoldable pub count_packet : ℕ → Position → Position
count_packet len d = record d {
  pcounter = u64 (d.pcounter + 1);
  pdcounter = u64 (d.pdcounter + (if len == 0 then 0 else 1));
  pbcounter = u64 (d.pbcounter + len);
}
