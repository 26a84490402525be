-- ===== src/Conntrack.antt =====
-- nfq2/conntrack.c, the pool: `connswap`, `ConntrackExtractConn`, `ConntrackNew`, and the functions
-- `ConntrackPoolInit` to `ConntrackPoolPurge`. The hash table of uthash is a parameter.
pub mod Laws
pub mod Feeding
pub mod Reply
pub mod Search
pub mod Purging
pub mod Dropping
mod Assoc
mod Examples
use zapret.Base.{
  ℕ, ◌+◌, ◌≡◌, ◌≢◌, List, [], ◌∷◌, Option, none, some, Bool, true, false, ◌&&◌, ◌||◌, leb, ◌==◌,
  if◌then◌else◌,
}
use zapret.Memory.{◌>>=◌}
use zapret.Packet.{
  Ip, Ip6, Dissect, extract_ports, ipproto_ip, ipproto_ipv6, ipproto_tcp, ipproto_udp, ipproto_none,
}
use zapret.Tcp.{tcp_syn_segment, tcp_synack_segment}
use zapret.Track.{Track, Timespec, ConnState, syn, established, fin, Lua}
use zapret.Track.Feed.{clear_track, init_track, feed_packet}

-- The key of an entry; an address is the number that its bytes spell.
pub record Conn : Type 0 where
  pub src : ℕ
  pub dst : ℕ
  pub sport : ℕ
  pub dport : ℕ
  pub l3proto : ℕ
  pub l4proto : ℕ

abbrev pub connswap : Conn → Conn
connswap c = record {
  src = c.dst;
  dst = c.src;
  sport = c.dport;
  dport = c.sport;
  l3proto = c.l3proto;
  l4proto = c.l4proto;
}

-- The ports and the protocol over the addresses; the ports change places in the reverse direction.
unfoldable pub with_ports : Bool → ℕ → ℕ → ℕ → ℕ × ℕ × ℕ → Option Conn
with_ports reverse src dst l3 (l4, sport, dport) =
    if l4 == ipproto_none
    then none
    else some (record {
      src = if reverse then dst else src;
      dst = if reverse then src else dst;
      sport = if reverse then dport else sport;
      dport = if reverse then sport else dport;
      l3proto = l3;
      l4proto = l4;
    })

-- `none` is the answer false.
unfoldable pub extract_conn : Bool → Option Ip → Option Ip6 → ℕ × ℕ × ℕ → Option Conn
extract_conn reverse (some ip) ip6 ports = with_ports reverse ip.src ip.dst ipproto_ip ports
extract_conn reverse none (some ip6) ports = with_ports reverse ip6.src ip6.dst ipproto_ipv6 ports
extract_conn reverse none none ports = none

abbrev pub conntrack_extract_conn : Bool → Dissect → Option Conn
conntrack_extract_conn reverse dis =
    extract_conn reverse dis.ip dis.ip6 (extract_ports dis.tcp dis.udp)

-- The table of uthash with its macros HASH_FIND, HASH_ADD (`none` when out of memory), HASH_DEL and
-- HASH_ITER; `set` is a write to an element through its pointer.
pub record Table : Type 1 where
  pub Pool : Type 0
  pub empty : Pool
  pub find : Conn → Pool → Option Track
  pub add : Conn → Track → Pool → Option Pool
  pub set : Conn → Track → Pool → Pool
  pub del : Conn → Pool → Pool
  pub items : Pool → List (Conn × Track)

-- `struct t_conntrack`.
pub record Conntrack (Pool : Type 0) : Type 0 where
  pub timeout_syn : ℕ
  pub timeout_established : ℕ
  pub timeout_fin : ℕ
  pub timeout_udp : ℕ
  pub t_purge_interval : ℕ
  pub t_last_purge : ℕ
  pub pool : Pool

unfoldable pub set_ipproto : ℕ → Track → Track
set_ipproto proto t = record t { pos = record (t.pos) { ipproto = proto } }

abbrev pub proto_of : Dissect → ℕ
proto_of dis = (extract_ports dis.tcp dis.udp).0

-- A packet opens an entry: a SYN, a SYN with ACK, or any packet of UDP.
unfoldable pub is_synack : Dissect → Bool
is_synack dis = elim dis.tcp [ none ↦ false | some tcp ↦ tcp_synack_segment tcp ]

unfoldable pub is_opening : Dissect → Bool
is_opening dis =
    elim dis.tcp [ none ↦ false | some tcp ↦ tcp_syn_segment tcp ]
    || is_synack dis
    || elim dis.udp [ none ↦ false | some udp ↦ true ]

unfoldable pub is_expired : {Pool : Type 0} → Conntrack Pool → ℕ → Conn → Track → Bool
is_expired p now c t =
    let idle = λ (timeout : ℕ). leb (t.pos.t_last.sec + timeout) now in
    t.b_cutoff
    || (c.l4proto == ipproto_tcp && elim t.pos.state [
      | syn ↦ idle p.timeout_syn
      | established ↦ idle p.timeout_established
      | fin ↦ idle p.timeout_fin
    ])
    || (c.l4proto == ipproto_udp && idle p.timeout_udp)

module _ (lua : Lua) (table : Table) where
  open lua use {Registry}
  open table use {Pool, empty, find, add, set, del, items}

  unfoldable pub pool_init : ℕ → ℕ → ℕ → ℕ → ℕ → ℕ → Conntrack Pool
  pool_init now interval t_syn t_established t_fin t_udp = record {
    timeout_syn = t_syn;
    timeout_established = t_established;
    timeout_fin = t_fin;
    timeout_udp = t_udp;
    t_purge_interval = interval;
    t_last_purge = now;
    pool = empty;
  }

  -- HASH_DEL and ConntrackFreeElem.
  unfoldable pub remove : Conn → Track → Pool × Registry → Pool × Registry
  remove c t (pool, reg) = (del c pool, (clear_track lua t reg).1)

  unfoldable pub remove_all : List (Conn × Track) → Pool × Registry → Pool × Registry
  remove_all [] s = s
  remove_all ((c, t) ∷ rest) s = remove_all rest (remove c t s)

  unfoldable pub pool_destroy : Pool × Registry → Pool × Registry
  pool_destroy s = remove_all (items s.0) s

  -- `memory` is what malloc gives: nothing, or an element with any content.
  unfoldable pub conntrack_new :
      Option Track → Conn → Pool × Registry → Option (Track × Pool × Registry)
  conntrack_new none c s = none
  conntrack_new (some garbage) c (pool, reg) = do
    pool' ← add c garbage pool
    let (t, reg') = init_track lua reg
    some (t, set c t pool', reg')

  unfoldable pub search_pool : Option Track → Option Track → Conn → Option (Conn × Bool)
  search_pool (some t) there c = some (c, false)
  search_pool none (some t) c = some (connswap c, true)
  search_pool none none c = none

  unfoldable pub double_search : Pool → Dissect → Option (Conn × Bool)
  double_search pool dis = do
    c ← conntrack_extract_conn false dis
    search_pool (find c pool) (find (connswap c) pool) c

  -- An entry takes the packet: the answer is the entry and its direction.
  unfoldable pub feed_entry :
      Timespec
      → Dissect
      → Conn
      → Bool
      → Track
      → Pool × Registry
      → Option ((Pool × Registry) × Option (Conn × Bool))
  feed_entry now dis c rev t (pool, reg) = do
    r ← feed_packet lua now t rev dis reg
    some ((set c (set_ipproto (proto_of dis) r.0) pool, r.1), some (c, rev))

  unfoldable pub feed_created :
      Timespec
      → Dissect
      → Conn
      → Bool
      → Option (Track × Pool × Registry)
      → Pool × Registry
      → Option ((Pool × Registry) × Option (Conn × Bool))
  feed_created now dis c rev none s = some (s, none)
  feed_created now dis c rev (some (t, pool, reg)) s = feed_entry now dis c rev t (pool, reg)

  unfoldable pub feed_missing :
      Timespec
      → Option Track
      → Dissect
      → Conn
      → Pool × Registry
      → Option ((Pool × Registry) × Option (Conn × Bool))
  feed_missing now memory dis c s =
      let rev = is_synack dis in
      let key = if rev then connswap c else c in
      if is_opening dis
      then feed_created now dis key rev (conntrack_new memory key s) s
      else some (s, none)

  unfoldable pub feed_found :
      Timespec
      → Option Track
      → Dissect
      → Option Track
      → Option Track
      → Conn
      → Pool × Registry
      → Option ((Pool × Registry) × Option (Conn × Bool))
  feed_found now memory dis (some t) there c s = feed_entry now dis c false t s
  feed_found now memory dis none (some t) c s = feed_entry now dis (connswap c) true t s
  feed_found now memory dis none none c s = feed_missing now memory dis c s

  unfoldable pub feed_conn :
      Timespec
      → Option Track
      → Dissect
      → Option Conn
      → Pool × Registry
      → Option ((Pool × Registry) × Option (Conn × Bool))
  feed_conn now memory dis none s = some (s, none)
  feed_conn now memory dis (some c) s =
      feed_found now memory dis (find c s.0) (find (connswap c) s.0) c s

  abbrev pub pool_feed :
      Timespec
      → Option Track
      → Dissect
      → Pool × Registry
      → Option ((Pool × Registry) × Option (Conn × Bool))
  pool_feed now memory dis s = feed_conn now memory dis (conntrack_extract_conn false dis) s

  unfoldable pub drop_found :
      Option Track → Option Track → Conn → Pool × Registry → (Pool × Registry) × Bool
  drop_found (some t) there c s = (remove c t s, true)
  drop_found none (some t) c s = (remove (connswap c) t s, true)
  drop_found none none c s = (s, false)

  unfoldable pub drop_conn : Option Conn → Pool × Registry → (Pool × Registry) × Bool
  drop_conn none s = (s, false)
  drop_conn (some c) s = drop_found (find c s.0) (find (connswap c) s.0) c s

  abbrev pub pool_drop : Dissect → Pool × Registry → (Pool × Registry) × Bool
  pool_drop dis s = drop_conn (conntrack_extract_conn false dis) s

  unfoldable pub purge_items :
      Conntrack Pool → ℕ → List (Conn × Track) → Pool × Registry → Pool × Registry
  purge_items p now [] s = s
  purge_items p now ((c, t) ∷ rest) s =
      purge_items p now rest (if is_expired p now c t then remove c t s else s)

  -- `now` is boottime(), which is 0 when the clock cannot be read.
  unfoldable pub pool_purge : ℕ → Conntrack Pool → Registry → Conntrack Pool × Registry
  pool_purge now p reg =
      if now == 0
      then (p, reg)
      else if leb (p.t_last_purge + p.t_purge_interval) now
      then (let (pool, reg') = purge_items p now (items p.pool) (p.pool, reg) in
          (record p { pool = pool; t_last_purge = now }, reg'))
      else (p, reg)
