-- ===== src/Conntrack/Dropping.antt =====
-- ConntrackPoolDrop: the connection of the packet leaves the pool, whichever its direction.
use zapret.Base.{
  ◌≡◌, refl, sym, ◌∙◌, ap, inl, inr, Option, none, some, Bool, true, false, Bool-cases,
}
use zapret.Memory.{◌>>=◌}
use zapret.Packet.{Dissect}
use zapret.Track.{Track, Lua}
use zapret.Conntrack.{
  Conn, connswap, conntrack_extract_conn, Table, remove, search_pool, double_search, drop_found,
  drop_conn, pool_drop,
}
use zapret.Conntrack.Laws.{Laws, conn_eq}
use zapret.Conntrack.Search.{OneWay}
use zapret.Conntrack.Purging.{find-remove}

abbrev pub is_some : Option (Conn × Bool) → Bool
is_some none = false
is_some (some r) = true

module _ (lua : Lua) (table : Table) (laws : Laws table) where
  open lua use {Registry}
  open table use {Pool, find}

  -- The search by a key and its reverse.
  abbrev search : Pool → Conn → Option (Conn × Bool)
  search pool c = search_pool lua table (find c pool) (find (connswap c) pool) c

  search-none :
      (pool : Pool) (c : Conn)
      → find c pool ≡ none
      → find (connswap c) pool ≡ none
      → search pool c ≡ none
  unfolding search_pool
  search-none pool c e f = rw (e, f) refl

  find-remove_same :
      (c : Conn) (t : Track) (s : Pool × Registry) → find c (remove lua table c t s).0 ≡ none
  unfolding remove
  find-remove_same c t s = laws.find-del c s.0

  find-remove_free :
      (c k : Conn) (t : Track) (s : Pool × Registry)
      → find k s.0 ≡ none
      → find k (remove lua table c t s).0 ≡ none
  find-remove_free c k t s free =
      find-remove lua table laws c k t s
      ∙ elim (Bool-cases (conn_eq k c)) [ inl e ↦ rw e refl | inr e ↦ rw e free ]

  drop_found-search :
      (o1 o2 : Option Track) (c : Conn) (s : Pool × Registry)
      → OneWay lua table s.0
      → find c s.0 ≡ o1
      → find (connswap c) s.0 ≡ o2
      → (search (drop_found lua table o1 o2 c s).0.0 c ≡ none)
        × ((drop_found lua table o1 o2 c s).1 ≡ is_some (search_pool lua table o1 o2 c))
  unfolding drop_found search_pool OneWay
  drop_found-search (some t) none c s one e f =
      (search-none _ c (find-remove_same c t s) (find-remove_free c (connswap c) t s f), refl)
  drop_found-search (some t) (some t') c s one e f =
      let same = one c t t' e f in
      (
        search-none _ c (find-remove_same c t s)
            (ap (λ k. find k (remove lua table c t s).0) (sym same) ∙ find-remove_same c t s),
        refl,
      )
  drop_found-search none (some t) c s one e f = (
    search-none _ c (find-remove_free (connswap c) c t s e) (find-remove_same (connswap c) t s),
    refl,
  )
  drop_found-search none none c s one e f = (search-none s.0 c e f, refl)

  drop_conn-search :
      (o : Option Conn) (s : Pool × Registry)
      → OneWay lua table s.0
      → ((o >>= search (drop_conn lua table o s).0.0) ≡ none)
        × ((drop_conn lua table o s).1 ≡ is_some (o >>= search s.0))
  unfolding drop_conn
  drop_conn-search none s one = (refl, refl)
  drop_conn-search (some c) s one =
      drop_found-search (find c s.0) (find (connswap c) s.0) c s one refl refl

  -- Over a table with the laws assumed, in a pool without double entries, dropping by a packet
  -- answers whether a search by it finds an entry, and after it no search by this packet does.
  pub double_search_after_drop :
      (dis : Dissect) (s : Pool × Registry)
      → OneWay lua table s.0
      → (double_search lua table (pool_drop lua table dis s).0.0 dis ≡ none)
        × ((pool_drop lua table dis s).1 ≡ is_some (double_search lua table s.0 dis))
  unfolding double_search
  double_search_after_drop dis s one = drop_conn-search (conntrack_extract_conn false dis) s one
