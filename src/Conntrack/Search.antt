-- ===== src/Conntrack/Search.antt =====
-- ConntrackPoolDoubleSearch and ConntrackPoolDrop: a connection has one entry, found from both its
-- directions.
use zapret.Base.{
  ◌≡◌, ◌≢◌, refl, sym, ◌∙◌, ap, subst, inl, inr, Option, none, some, Bool, true, false, not,
  if◌then◌else◌, Option-cases,
}
use zapret.Packet.{Dissect}
use zapret.Track.{Track, Timespec, Lua}
use zapret.Conntrack.{
  Conn, connswap, conntrack_extract_conn, Table, search_pool, double_search, pool_feed,
}
use zapret.Conntrack.Laws.{Laws, Conn-cases}
use zapret.Conntrack.Feeding.{Fed, Feeds, pool_feed-Feeds}
use zapret.Conntrack.Reply.{reply, extract-reply}

module _ (lua : Lua) (table : Table) where
  open lua use {Registry}
  open table use {Pool, find}

  -- No connection has an entry under both its keys.
  unfoldable pub OneWay : Pool → Type 0
  OneWay pool =
      (k : Conn) (t t' : Track)
      → find k pool ≡ some t
      → find (connswap k) pool ≡ some t'
      → k ≡ connswap k

  swapped-key :
      (rev : Bool) (pool : Pool) {c key : Conn}
      → c ≡ (if rev then connswap key else key)
      → find key pool ≡ none
      → find (connswap key) pool ≡ none
      → find (connswap c) pool ≡ none
  swapped-key true pool e no_direct no_reverse = rw e no_direct
  swapped-key false pool e no_direct no_reverse = rw e no_reverse

  -- The other key of the entry that took the packet is free, unless the two keys are one.
  other_key_before :
      (now : Timespec) (dis : Dissect) (s s' : Pool × Registry) (c : Conn) (rev : Bool)
      (f : Fed lua table now dis s s' c rev) (t' : Track)
      → OneWay s.0
      → find (connswap c) s.0 ≡ some t'
      → c ≡ connswap c
  unfolding OneWay
  other_key_before now dis s s' c rev f t' one there = elim f.origin [
    | inl old ↦ one c f.before.0 t' old.0 there
    | inr fresh ↦ let free = swapped-key rev s.0 f.is_entry fresh.0 fresh.1 in absurd (cc)
  ]

  other_key_after :
      (now : Timespec) (dis : Dissect) (s s' : Pool × Registry) (c : Conn) (rev : Bool)
      → Fed lua table now dis s s' c rev
      → OneWay s.0
      → c ≢ connswap c
      → find (connswap c) s'.0 ≡ none
  other_key_after now dis s s' c rev f one two = elim (Option-cases (find (connswap c) s.0)) [
    | inl free ↦ f.others (connswap c) (λ e. two (sym e)) ∙ free
    | inr (t', there) ↦ absurd (two (other_key_before now dis s s' c rev f t' one there))
  ]

  none-some : {o : Option Track} {t : Track} → o ≡ none → o ≡ some t → ⊥
  none-some e f = absurd (cc)

  Fed-OneWay :
      (now : Timespec) (dis : Dissect) (s s' : Pool × Registry) (c : Conn) (rev : Bool)
      → Fed lua table now dis s s' c rev
      → OneWay s.0
      → OneWay s'.0
  unfolding OneWay
  Fed-OneWay now dis s s' c rev f one k t t' direct reverse = elim (Conn-cases k (connswap k)) [
    | inl self ↦ self
    | inr differ ↦ elim (Conn-cases k c) [
      | inl here ↦
          let free = other_key_after now dis s s' k rev (rw here f) one differ in
          absurd (none-some free reverse)
      | inr away ↦ elim (Conn-cases (connswap k) c) [
        | inl back ↦
            let free =
              other_key_after now dis s s' (connswap k) rev (rw back f) one (λ e. differ (sym e)) in
            absurd (none-some free direct)
        | inr clear ↦
            one k t t' (sym (f.others k away) ∙ direct)
              (sym (f.others (connswap k) clear) ∙ reverse)
      ]
    ]
  ]

  Feeds-OneWay :
      (now : Timespec) (memory : Option Track) (dis : Dissect) (s s' : Pool × Registry)
      (o : Option (Conn × Bool))
      → Feeds lua table now memory dis s (s', o)
      → OneWay s.0
      → OneWay s'.0
  unfolding Feeds
  Feeds-OneWay now memory dis s s' none f one = rw (f.0) one
  Feeds-OneWay now memory dis s s' (some (c, rev)) f one = Fed-OneWay now dis s s' c rev f one

  search_conn-direct :
      (pool : Pool) (key : Conn) {t : Track}
      → find key pool ≡ some t
      → search_pool lua table (find key pool) (find (connswap key) pool) key ≡ some (key, false)
  unfolding search_pool
  search_conn-direct pool key e = rw e refl

  search_conn-reverse :
      (pool : Pool) (key : Conn) {t : Track}
      → find key pool ≡ none
      → find (connswap key) pool ≡ some t
      → search_pool lua table (find key pool) (find (connswap key) pool) key
        ≡ some (connswap key, true)
  unfolding search_pool
  search_conn-reverse pool key e f = rw (e, f) refl

  find-cong :
      (pool : Pool) {c x : Conn} {t : Track} → c ≡ x → find c pool ≡ some t → find x pool ≡ some t
  find-cong pool {t} e f = subst (λ x. find x pool ≡ some t) e f

  search_Fed :
      (now : Timespec) (dis : Dissect) (s s' : Pool × Registry) (c : Conn) (rev : Bool)
      → Fed lua table now dis s s' c rev
      → c ≢ connswap c
      → double_search lua table s'.0 dis ≡ some (c, rev)
  unfolding double_search
  search_Fed now dis s s' c true f two =
      let at = find-cong s'.0 f.is_entry f.stored in
      let free : find f.key s'.0 ≡ none =
        f.others f.key (λ e. two (f.is_entry ∙ ap connswap e)) ∙ f.direct_first refl in
      rw f.is_key
        (search_conn-reverse s'.0 f.key free at ∙ ap (λ x. some (x, true)) (sym f.is_entry))
  search_Fed now dis s s' c false f two =
      let at = find-cong s'.0 f.is_entry f.stored in
      rw f.is_key (search_conn-direct s'.0 f.key at ∙ ap (λ x. some (x, false)) (sym f.is_entry))

  search_reply :
      (now : Timespec) (dis back : Dissect) (s s' : Pool × Registry) (c : Conn) (rev : Bool)
      (f : Fed lua table now dis s s' c rev)
      → OneWay s.0
      → c ≢ connswap c
      → conntrack_extract_conn false back ≡ some (connswap f.key)
      → double_search lua table s'.0 back ≡ some (c, not rev)
  unfolding double_search
  search_reply now dis back s s' c true f one two is_back =
      let at = find-cong s'.0 f.is_entry f.stored in
      rw is_back
        (search_conn-direct s'.0 (connswap f.key) at ∙ ap (λ x. some (x, false)) (sym f.is_entry))
  search_reply now dis back s s' c false f one two is_back =
      let at = find-cong s'.0 f.is_entry f.stored in
      let free : find (connswap f.key) s'.0 ≡ none =
        subst (λ x. find (connswap x) s'.0 ≡ none) f.is_entry
          (other_key_after now dis s s' c false f one two) in
      rw is_back (
        search_conn-reverse s'.0 (connswap f.key) free at
        ∙ ap (λ x. some (x, true)) (sym f.is_entry))

  module _ (laws : Laws table) where
    -- Over a table with the laws assumed: if no connection has entries under both its keys, then
    -- none has after an update that returns.
    pub pool_feed-OneWay :
        (now : Timespec) (memory : Option Track) (dis : Dissect) (s : Pool × Registry)
        (r : (Pool × Registry) × Option (Conn × Bool))
        → pool_feed lua table now memory dis s ≡ some r
        → OneWay s.0
        → OneWay r.0.0
    pool_feed-OneWay now memory dis s r e one =
        Feeds-OneWay now memory dis s r.0 r.1 (pool_feed-Feeds lua table laws now memory dis s r e)
          one

    -- Over a table with the laws assumed, after an update that answered with an entry and a
    -- direction, where the entry's key is not its own reverse: the search by the same packet gives
    -- that entry and that direction, and, in a pool without double entries, the search by a reply
    -- gives it with the other direction.
    pub double_search_after_feed :
        (now : Timespec) (memory : Option Track) (dis : Dissect) (s s' : Pool × Registry) (c : Conn)
        (rev : Bool)
        → pool_feed lua table now memory dis s ≡ some (s', some (c, rev))
        → OneWay s.0
        → c ≢ connswap c
        → (double_search lua table s'.0 dis ≡ some (c, rev))
          × (double_search lua table s'.0 (reply dis) ≡ some (c, not rev))
    double_search_after_feed now memory dis s s' c rev e one two =
        let f : Fed lua table now dis s s' c rev =
          unfold Feeds in pool_feed-Feeds lua table laws now memory dis s (s', some (c, rev)) e in
        (
          search_Fed now dis s s' c rev f two,
          search_reply now dis (reply dis) s s' c rev f one two
              (extract-reply dis ∙ rw f.is_key refl),
        )
