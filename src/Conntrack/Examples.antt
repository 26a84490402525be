-- ===== src/Conntrack/Examples.antt =====
-- Two hosts: a handshake in an empty pool, its search, drop and purge.
use zapret.Base.{
  ℕ, ap, ◌+◌, ◌≤◌, suc, ◌≡◌, ◌≢◌, refl, [], ◌∷◌, Option, none, some, Bool, true, false, arith,
}
use zapret.Bytes.{pntoh16}
use zapret.Packet.{Dissect, extract_ports}
use zapret.Tcp.{
  tcp_syn_segment, tcp_synack_segment, tcp_find_scale_factor, tcp_find_mss, tcp_find_option,
  find_option, read_scale, read_mss,
}
use zapret.Track.{
  Track, Timespec, Lua, blank, apply_pos, apply_window, apply_uppos, mark_over_2g, apply_flow,
  count_packet,
}
use zapret.Track.Feed.{
  init_track, feed_packet, feed_tcp, feed_segment, segment_of, count_side, set_client_seq0, stamp,
  reinit_if,
}
use zapret.Conntrack.{
  Conn, connswap, Conntrack, pool_init, pool_feed, pool_drop, double_search, pool_purge, with_ports,
  extract_conn, is_opening, is_synack, feed_conn, feed_found, feed_missing, feed_created,
  feed_entry, conntrack_new, set_ipproto,
}
use zapret.Conntrack.Laws.{lookup, conn_eq}
use zapret.Conntrack.Assoc.{add_at, set_list, assoc, assoc-Laws}
use zapret.Conntrack.Reply.{reply}
use zapret.Conntrack.Feeding.{Feeds, pool_feed-Feeds}
use zapret.Conntrack.Search.{OneWay, pool_feed-OneWay, double_search_after_feed}
use zapret.Conntrack.Dropping.{double_search_after_drop, is_some}
use zapret.Conntrack.Purging.{Purged, pool_purge-Purged}

abbrev counting : Lua
counting = record { Registry = ℕ; new_ref = λ n. (n, suc n); unref = λ r n. n }

abbrev now : Timespec
now = record { sec = 5; nsec = 0 }

abbrev syn_packet : Dissect
syn_packet = record {
  ip = some (record { src = 0x0a000001; dst = 0x01010101 });
  ip6 = none;
  tcp = some (record {
    sport = 40000;
    dport = 443;
    seq = 1000;
    ack = 0;
    flags = 2;
    win = 64240;
    options = 2 ∷ 4 ∷ 5 ∷ 0xb4 ∷ 1 ∷ 3 ∷ 3 ∷ 7 ∷ [];
  });
  udp = none;
  len_payload = 0;
}

abbrev key : Conn
key = record {
  src = 0x0a000001;
  dst = 0x01010101;
  sport = 40000;
  dport = 443;
  l3proto = 0;
  l4proto = 6;
}

abbrev Pool : Type 0
Pool = assoc.Pool

no_entries : Pool × ℕ
no_entries = (assoc.empty, 0)

-- malloc gives an element that holds whatever another connection left in it.
abbrev memory : Option Track
memory = some (blank 7 8)

abbrev or_nothing : Option ((Pool × ℕ) × Option (Conn × Bool)) → (Pool × ℕ) × Option (Conn × Bool)
or_nothing none = ((assoc.empty, 0), none)
or_nothing (some r) = r

fed : (Pool × ℕ) × Option (Conn × Bool)
fed = or_nothing (pool_feed counting assoc now memory syn_packet no_entries)

fed_returns :
    pool_feed counting assoc now memory syn_packet no_entries ≡ some (fed.0, some (key, false))
unfolding fed no_entries feed_conn feed_found feed_missing feed_created feed_entry conntrack_new
    set_ipproto with_ports extract_conn extract_ports is_opening is_synack lookup conn_eq add_at
    set_list feed_packet feed_tcp feed_segment segment_of count_side count_packet set_client_seq0
    stamp reinit_if apply_pos apply_window apply_uppos mark_over_2g apply_flow tcp_syn_segment
    tcp_synack_segment tcp_find_scale_factor tcp_find_mss tcp_find_option find_option read_scale
    read_mss init_track pntoh16
fed_returns = refl

no_entries-OneWay : OneWay counting assoc no_entries.0
unfolding OneWay no_entries lookup
no_entries-OneWay k t t' e f = absurd (cc)

key-ne-connswap : key ≢ connswap key
key-ne-connswap e =
    let src : ◌≡◌ {A = ℕ} 0x0a000001 0x01010101 = ap (λ (c : Conn). c.src) e in absurd (omega arith)

pool_feed-Feeds_example :
    Feeds counting assoc now memory syn_packet no_entries (fed.0, some (key, false))
pool_feed-Feeds_example =
    pool_feed-Feeds counting assoc assoc-Laws now memory syn_packet no_entries
      (fed.0, some (key, false)) fed_returns

pool_feed-OneWay_example : OneWay counting assoc fed.0.0
pool_feed-OneWay_example =
    pool_feed-OneWay counting assoc assoc-Laws now memory syn_packet no_entries
      (fed.0, some (key, false)) fed_returns no_entries-OneWay

double_search_after_feed_example :
    (double_search counting assoc fed.0.0 syn_packet ≡ some (key, false))
    × (double_search counting assoc fed.0.0 (reply syn_packet) ≡ some (key, true))
double_search_after_feed_example =
    double_search_after_feed counting assoc assoc-Laws now memory syn_packet no_entries fed.0 key
      false fed_returns no_entries-OneWay key-ne-connswap

fed-OneWay : OneWay counting assoc fed.0.0
fed-OneWay =
    pool_feed-OneWay counting assoc assoc-Laws now memory syn_packet no_entries
      (fed.0, some (key, false)) fed_returns no_entries-OneWay

double_search_after_drop_example :
    (double_search counting assoc (pool_drop counting assoc syn_packet fed.0).0.0 syn_packet ≡ none)
    × ((pool_drop counting assoc syn_packet fed.0).1
        ≡ is_some (double_search counting assoc fed.0.0 syn_packet))
double_search_after_drop_example =
    double_search_after_drop counting assoc assoc-Laws syn_packet fed.0 fed-OneWay

-- The pool with the entry of the handshake, purged after its SYN timeout.
full : Conntrack Pool
full = record (pool_init counting assoc 5 60 60 300 60 60) { pool = fed.0.0 }

full_due : full.t_last_purge + full.t_purge_interval ≤ 100
unfolding full pool_init
full_due = omega arith

pool_purge-Purged_example :
    Purged full 100 key
      (assoc.find key full.pool)
      (assoc.find key (pool_purge counting assoc 100 full 2).0.pool)
pool_purge-Purged_example =
    pool_purge-Purged counting assoc assoc-Laws 100 full 2 key (λ e. absurd (omega arith)) full_due
