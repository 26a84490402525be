-- ===== src/Conntrack/Feeding.antt =====
-- ConntrackPoolFeed and ConntrackPoolDoubleSearch: the entry that takes the packet, and that the
-- search finds it.
use zapret.Base.{
  ◌≡◌, ◌≢◌, refl, sym, ap, ◌∙◌, ◌⊎◌, subst, inl, inr, Option, none, some, Bool, true, false,
  if◌then◌else◌, Bool-cases,
}
use zapret.Memory.{◌>>=◌}
use zapret.Memory.Laws.{bind-some}
use zapret.Packet.{Dissect}
use zapret.Track.{Track, Timespec, Lua}
use zapret.Track.Feed.{init_track, feed_packet}
use zapret.Track.Keeps.{some-injective}
use zapret.Conntrack.{
  Conn, connswap, conntrack_extract_conn, Table, set_ipproto, proto_of, is_synack, is_opening,
  conntrack_new, feed_entry, feed_created, feed_missing, feed_found, feed_conn, pool_feed,
}
use zapret.Conntrack.Laws.{Laws}

bind_none : {A B : Type 0} (o : Option A) (f : A → B) → (o >>= λ a. some (f a)) ≡ none → o ≡ none
bind_none none f e = refl
bind_none (some a) f e = absurd (cc)

module _ (lua : Lua) (table : Table) where
  open lua use {Registry}
  open table use {Pool, find}

  -- The entry `c` took the packet: it was there, or a packet that opens a connection made it; its
  -- record is the old one, or a fresh one, with the packet fed; all other entries stay.
  pub record Fed (now : Timespec) (dis : Dissect) (s s' : Pool × Registry) (c : Conn) (rev : Bool)
      : Type 0 where
    pub key : Conn
    pub before : Track × Registry
    pub after : Track × Registry
    pub is_key : conntrack_extract_conn false dis ≡ some key
    pub is_entry : c ≡ (if rev then connswap key else key)
    pub origin :
        ((find c s.0 ≡ some before.0) × (before.1 ≡ s.1))
        ⊎ ((find key s.0 ≡ none)
            × (find (connswap key) s.0 ≡ none)
            × (is_opening dis ≡ true)
            × (rev ≡ is_synack dis)
            × (before ≡ init_track lua s.1))
    pub direct_first : rev ≡ true → find key s.0 ≡ none
    pub fed : feed_packet lua now before.0 rev dis before.1 ≡ some after
    pub stored : find c s'.0 ≡ some (set_ipproto (proto_of dis) after.0)
    pub others : (k : Conn) → k ≢ c → find k s'.0 ≡ find k s.0
    pub registry : s'.1 ≡ after.1

  -- No memory for an element, or none in the table to add it.
  abbrev pub NoMemory : Option Track → Conn → Pool → Type 0
  NoMemory none c pool = Unit {0}
  NoMemory (some garbage) c pool = table.add c garbage pool ≡ none

  -- Why no entry takes the packet: it has no key, or its connection has no entry, and the packet
  -- opens none or there is no memory for it.
  abbrev pub NoEntry : Option Track → Dissect → Option Conn → Pool → Type 0
  NoEntry memory dis none pool = Unit {0}
  NoEntry memory dis (some key) pool =
      (find key pool ≡ none)
      × (find (connswap key) pool ≡ none)
      × ((is_opening dis ≡ false)
          ⊎ NoMemory memory (if is_synack dis then connswap key else key) pool)

  -- Without an answer nothing has changed, and there is a reason.
  unfoldable pub Feeds :
      Timespec
      → Option Track
      → Dissect
      → Pool × Registry
      → (Pool × Registry) × Option (Conn × Bool)
      → Type 0
  Feeds now memory dis s (s', none) =
      (s' ≡ s) × NoEntry memory dis (conntrack_extract_conn false dis) s.0
  Feeds now memory dis s (s', some (c, rev)) = Fed now dis s s' c rev

  module _ (laws : Laws table) where
    feed_entry-Fed :
        (now : Timespec) (memory : Option Track) (dis : Dissect) (key c : Conn) (rev : Bool)
        (t : Track) (s s0 : Pool × Registry) (r : (Pool × Registry) × Option (Conn × Bool))
        → feed_entry lua table now dis c rev t s ≡ some r
        → conntrack_extract_conn false dis ≡ some key
        → c ≡ (if rev then connswap key else key)
        → (find c s.0 ≡ some t)
        → ((find c s0.0 ≡ some t) × (s.1 ≡ s0.1))
          ⊎ ((find key s0.0 ≡ none)
              × (find (connswap key) s0.0 ≡ none)
              × (is_opening dis ≡ true)
              × (rev ≡ is_synack dis)
              × ((t, s.1) ≡ init_track lua s0.1))
        → (rev ≡ true → find key s0.0 ≡ none)
        → ((k : Conn) → k ≢ c → find k s.0 ≡ find k s0.0)
        → Feeds now memory dis s0 r
    unfolding feed_entry Feeds
    feed_entry-Fed now memory dis key c rev t s s0 r e is_key is_c there origin first others =
        let fed = bind-some (feed_packet lua now t rev dis s.1) _ e in
        subst (Feeds now memory dis s0) (some-injective fed.2) (record {
          key = key;
          before = (t, s.1);
          after = fed.0;
          is_key = is_key;
          is_entry = is_c;
          origin = origin;
          direct_first = first;
          fed = fed.1;
          stored = laws.find-set c t _ s.0 there;
          others = λ k differ. laws.find-set_other c k _ s.0 differ ∙ others k differ;
          registry = refl;
        })

    -- A new entry holds a fresh record.
    conntrack_new_facts :
        (memory : Option Track) (c : Conn) (s : Pool × Registry) (n : Track × Pool × Registry)
        → conntrack_new lua table memory c s ≡ some n
        → find c s.0 ≡ none
        → (find c n.1 ≡ some n.0)
          × ((n.0, n.2) ≡ init_track lua s.1)
          × ((k : Conn) → k ≢ c → find k n.1 ≡ find k s.0)
    unfolding conntrack_new
    conntrack_new_facts none c s n e free = absurd (cc)
    conntrack_new_facts (some garbage) c s n e free =
        let added = bind-some (table.add c garbage s.0) _ e in
        let fresh : Track × Registry = init_track lua s.1 in
        let there =
          laws.find-set c garbage fresh.0 added.0 (laws.find-add c garbage s.0 free added.1) in
        subst
          (λ (n : Track × Pool × Registry).
            (find c n.1 ≡ some n.0)
            × ((n.0, n.2) ≡ init_track lua s.1)
            × ((k : Conn) → k ≢ c → find k n.1 ≡ find k s.0))
          (some-injective added.2)
          (
            there,
            refl,
            λ k differ.
                laws.find-set_other c k fresh.0 added.0 differ
                ∙ laws.find-add_other c k garbage s.0 differ added.1,
          )

    -- No new entry means no memory.
    conntrack_new-NoMemory :
        (memory : Option Track) (c : Conn) (s : Pool × Registry)
        → conntrack_new lua table memory c s ≡ none
        → NoMemory memory c s.0
    unfolding conntrack_new
    conntrack_new-NoMemory none c s e = tt
    conntrack_new-NoMemory (some garbage) c s e = bind_none (table.add c garbage s.0) _ e

    feed_created-Feeds :
        (now : Timespec) (memory : Option Track) (dis : Dissect) (key c : Conn) (rev : Bool)
        (s : Pool × Registry) (r : (Pool × Registry) × Option (Conn × Bool))
        (o : Option (Track × Pool × Registry))
        → conntrack_new lua table memory c s ≡ o
        → feed_created lua table now dis c rev o s ≡ some r
        → conntrack_extract_conn false dis ≡ some key
        → c ≡ (if rev then connswap key else key)
        → find key s.0 ≡ none
        → find (connswap key) s.0 ≡ none
        → is_opening dis ≡ true
        → rev ≡ is_synack dis
        → Feeds now memory dis s r
    unfolding feed_created
    feed_created-Feeds now memory dis key c rev s r none made e is_key is_c no_direct no_reverse
          opening by_reply =
        let key_of : (if is_synack dis then connswap key else key) ≡ c =
          ap (λ b. if b then connswap key else key) (sym by_reply) ∙ sym is_c in
        subst (Feeds now memory dis s) (some-injective e) (
          unfold Feeds in
          (
            refl,
            subst (λ o. NoEntry memory dis o s.0) (sym is_key)
                (
                  no_direct,
                  no_reverse,
                  inr (
                      subst (λ k. NoMemory memory k s.0) (sym key_of)
                        (conntrack_new-NoMemory memory c s made)),
                ),
          ))
    feed_created-Feeds now memory dis key c rev s r (some n) made e is_key is_c no_direct no_reverse
          opening by_reply =
        let free : find c s.0 ≡ none =
          subst (λ k. find k s.0 ≡ none) (sym is_c)
            (elim rev as (λ (b : Bool). find (if b then connswap key else key) s.0 ≡ none) [
              | true ↦ no_reverse
              | false ↦ no_direct
            ]) in
        let new = conntrack_new_facts memory c s n made free in
        feed_entry-Fed now memory dis key c rev n.0 (n.1, n.2) s r e is_key is_c new.0
          (inr (no_direct, no_reverse, opening, by_reply, new.1)) (λ _. no_direct) new.2

    feed_missing-Feeds :
        (now : Timespec) (memory : Option Track) (dis : Dissect) (key : Conn) (s : Pool × Registry)
        (r : (Pool × Registry) × Option (Conn × Bool))
        → feed_missing lua table now memory dis key s ≡ some r
        → conntrack_extract_conn false dis ≡ some key
        → find key s.0 ≡ none
        → find (connswap key) s.0 ≡ none
        → Feeds now memory dis s r
    unfolding feed_missing
    feed_missing-Feeds now memory dis key s r e is_key no_direct no_reverse =
        let rev : Bool = is_synack dis in
        elim (Bool-cases (is_opening dis)) [
          | inl opening ↦
              feed_created-Feeds now memory dis key (if rev then connswap key else key) rev s r _
                refl (rw opening at e) is_key refl no_direct no_reverse opening refl
          | inr closed ↦ subst (Feeds now memory dis s) (some-injective (rw closed at e)) (
              unfold Feeds in
              (
                refl,
                subst (λ o. NoEntry memory dis o s.0) (sym is_key)
                    (no_direct, no_reverse, inl closed),
              ))
        ]

    feed_found-Feeds :
        (now : Timespec) (memory : Option Track) (dis : Dissect) (there back : Option Track)
        (key : Conn) (s : Pool × Registry) (r : (Pool × Registry) × Option (Conn × Bool))
        → feed_found lua table now memory dis there back key s ≡ some r
        → conntrack_extract_conn false dis ≡ some key
        → find key s.0 ≡ there
        → find (connswap key) s.0 ≡ back
        → Feeds now memory dis s r
    unfolding feed_found
    feed_found-Feeds now memory dis (some t) back key s r e is_key direct reverse =
        feed_entry-Fed now memory dis key key false t s s r e is_key refl direct
          (inl (direct, refl)) (λ w. absurd (cc)) (λ k differ. refl)
    feed_found-Feeds now memory dis none (some t) key s r e is_key direct reverse =
        feed_entry-Fed now memory dis key (connswap key) true t s s r e is_key refl reverse
          (inl (reverse, refl)) (λ w. direct) (λ k differ. refl)
    feed_found-Feeds now memory dis none none key s r e is_key direct reverse =
        feed_missing-Feeds now memory dis key s r e is_key direct reverse

    feed_conn-Feeds :
        (now : Timespec) (memory : Option Track) (dis : Dissect) (o : Option Conn)
        (s : Pool × Registry) (r : (Pool × Registry) × Option (Conn × Bool))
        → conntrack_extract_conn false dis ≡ o
        → feed_conn lua table now memory dis o s ≡ some r
        → Feeds now memory dis s r
    unfolding feed_conn
    feed_conn-Feeds now memory dis none s r is_key e =
        subst (Feeds now memory dis s) (some-injective e)
          (unfold Feeds in (refl, subst (λ o. NoEntry memory dis o s.0) (sym is_key) tt))
    feed_conn-Feeds now memory dis (some key) s r is_key e =
        feed_found-Feeds now memory dis (find key s.0) (find (connswap key) s.0) key s r e is_key
          refl refl

    -- Over a table with the laws assumed, whenever the pool's update returns: with an answer, one
    -- entry of the packet's connection, in its direction, took the packet, an old entry or one that
    -- an opening packet made, in reverse if this is a SYN with ACK, and all others stay; without an
    -- answer, nothing has changed, and the packet has no key, or its connection has no entry and the
    -- packet opens none or there is no memory for one.
    pub pool_feed-Feeds :
        (now : Timespec) (memory : Option Track) (dis : Dissect) (s : Pool × Registry)
        (r : (Pool × Registry) × Option (Conn × Bool))
        → pool_feed lua table now memory dis s ≡ some r
        → Feeds now memory dis s r
    pool_feed-Feeds now memory dis s r e = feed_conn-Feeds now memory dis _ s r refl e
