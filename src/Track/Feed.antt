-- ===== src/Track/Feed.antt =====
-- nfq2/conntrack.c, `ConntrackClearTrack` to `ConntrackReInitTrack` and `ConntrackFeedPacket`, over
-- the Lua registry.
use zapret.Base.{ℕ, [], Option, none, some, Bool, true, false, not, ◌&&◌, ◌==◌, if◌then◌else◌}
use zapret.Memory.{◌>>=◌}
use zapret.Packet.{Dissect}
use zapret.Reasm.{clear, sub32}
use zapret.Tcp.{Tcp, tcp_syn_segment, tcp_synack_segment, ends_connection}
use zapret.Track.{
  Track, Timespec, ConnState, established, fin, is_syn, Lua, blank, clear_hostname, apply_pos,
  count_packet,
}

-- The four kinds of TCP segment that ConntrackFeedPacket tells apart, in the order of its tests.
pub data Segment : Type 0 where
  opening opening_reply closing other : Segment

unfoldable pub segment_of : Tcp → Segment
segment_of tcp =
    if tcp_syn_segment tcp
    then opening
    else if tcp_synack_segment tcp
    then opening_reply
    else if ends_connection tcp
    then closing
    else other

-- Both directions get their counters in the positions of the connection.
unfoldable pub count_side : Bool → ℕ → Track → Track
count_side true len t = record t { pos = record (t.pos) { server = count_packet len t.pos.server } }
count_side false len t = record t {
  pos = record (t.pos) { client = count_packet len t.pos.client };
}

unfoldable pub set_client_seq0 : ℕ → Track → Track
set_client_seq0 s t = record t {
  pos = record (t.pos) { client = record (t.pos.client) { seq0 = s } };
}

unfoldable pub set_server_seq0 : ℕ → Track → Track
set_server_seq0 s t = record t {
  pos = record (t.pos) { server = record (t.pos.server) { seq0 = s } };
}

unfoldable pub set_state : ConnState → Track → Track
set_state s t = record t { pos = record (t.pos) { state = s } }

-- The time of the packet; the start time is that of the first.
unfoldable pub stamp : Timespec → Track → Track
stamp now t = record t {
  pos = record (t.pos) { t_last = now };
  t_start = if t.t_start.sec == 0 then now else t.t_start;
}

module _ (lua : Lua) where
  open lua use {Registry, new_ref, unref}

  unfoldable pub clear_track : Track → Registry → Track × Registry
  clear_track t reg = (
    record (clear_hostname t) { reasm_client = clear t.reasm_client; delayed = [] },
    unref t.lua_instance_cutoff (unref t.lua_state reg),
  )

  unfoldable pub init_track : Registry → Track × Registry
  init_track reg =
      let (state, reg1) = new_ref reg in
      let (cutoff, reg2) = new_ref reg1 in (blank state cutoff, reg2)

  unfoldable pub reinit_track : Track → Registry → Track × Registry
  reinit_track t reg = init_track (clear_track t reg).1

  -- The entry is erased if the test holds.
  unfoldable pub reinit_if : Bool → Track × Registry → Track × Registry
  reinit_if true s = reinit_track s.0 s.1
  reinit_if false s = s

  unfoldable pub feed_segment : Segment → Bool → Tcp → Track × Registry → Track × Registry
  feed_segment opening rev tcp (t, reg) =
      let (t1, reg1) = reinit_if (not (is_syn t.pos.state)) (t, reg) in
      (set_client_seq0 tcp.seq t1, reg1)
  feed_segment opening_reply rev tcp (t, reg) =
      let seq0 = sub32 tcp.ack 1 in
      let (t1, reg1) =
        reinit_if (not (is_syn t.pos.state) && not (t.pos.client.seq0 == seq0)) (t, reg) in
      let t2 = if t1.pos.client.seq0 == 0 then set_client_seq0 seq0 t1 else t1 in
      (set_server_seq0 tcp.seq t2, reg1)
  feed_segment closing rev tcp (t, reg) = (set_state fin t, reg)
  feed_segment other rev tcp (t, reg) =
      if is_syn t.pos.state
      then (
        if not rev && (t.pos.server.seq0 == 0)
            then set_server_seq0 (sub32 tcp.ack 1) (set_state established t)
            else set_state established t,
        reg,
      )
      else (t, reg)

  unfoldable pub feed_tcp :
      Bool → Option Tcp → Dissect → Track × Registry → Option (Track × Registry)
  feed_tcp rev none dis s = some s
  feed_tcp rev (some tcp) dis s =
      let (t, reg) = feed_segment (segment_of tcp) rev tcp s in
      do p ← apply_pos t.pos rev tcp dis; some (record t { pos = p }, reg)

  -- `now` is what the clock shows.
  unfoldable pub feed_packet :
      Timespec → Track → Bool → Dissect → Registry → Option (Track × Registry)
  feed_packet now t rev dis reg = do
    s ← feed_tcp rev dis.tcp dis (count_side rev dis.len_payload t, reg)
    some (stamp now s.0, s.1)
