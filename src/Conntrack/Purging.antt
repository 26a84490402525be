-- ===== src/Conntrack/Purging.antt =====
-- ConntrackPoolDrop, ConntrackPoolPurge and ConntrackPoolDestroy: which entries leave the pool.
use zapret.Base.{
  ℕ, ◌+◌, ◌≤◌, ◌≡◌, ◌≢◌, refl, sym, ◌∙◌, ap, inl, inr, List, [], ◌∷◌, Option, none, some, Bool,
  true, false, if◌then◌else◌, ◌==◌, leb, ◌⊎◌, ◌&&◌, ◌||◌, Bool-cases, arith,
}
use zapret.Track.{Track, ConnState, syn, established, fin, Lua}
use zapret.Conntrack.{Conn, Conntrack, Table, is_expired, remove, purge_items, pool_purge}
use zapret.Conntrack.Laws.{Laws, conn_eq, conn_eq→eq, conn_eq-ne, lookup, Distinct}

-- The longest time without packets in each stage.
abbrev pub stage_timeout : {Pool : Type 0} → Conntrack Pool → ConnState → ℕ
stage_timeout p syn = p.timeout_syn
stage_timeout p established = p.timeout_established
stage_timeout p fin = p.timeout_fin

-- When an entry is dead: it is cut off, or the time without packets allowed to a TCP connection in
-- its stage, or to one of UDP, has passed since its last packet.
abbrev pub Expired : {Pool : Type 0} → Conntrack Pool → ℕ → Conn → Track → Type 0
Expired p now c t =
    (t.b_cutoff ≡ true)
    ⊎ ((c.l4proto ≡ 6) × (t.pos.t_last.sec + stage_timeout p t.pos.state ≤ now))
    ⊎ ((c.l4proto ≡ 17) × (t.pos.t_last.sec + p.timeout_udp ≤ now))

-- What the purge leaves of an entry.
unfoldable pub Purged :
    {Pool : Type 0} → Conntrack Pool → ℕ → Conn → Option Track → Option Track → Type 0
Purged p now k none after = after ≡ none
Purged p now k (some t) after =
    (Expired p now k t × (after ≡ none)) ⊎ (¬ Expired p now k t × (after ≡ some t))

stage_idle :
    {Pool : Type 0} (p : Conntrack Pool) (now sec : ℕ) (s : ConnState)
    → (elim s [
      | syn ↦ leb (sec + p.timeout_syn) now
      | established ↦ leb (sec + p.timeout_established) now
      | fin ↦ leb (sec + p.timeout_fin) now
    ])
      ≡ leb (sec + stage_timeout p s) now
stage_idle p now sec syn = refl
stage_idle p now sec established = refl
stage_idle p now sec fin = refl

expired_by :
    (cut : Bool) (proto now due_tcp due_udp : ℕ)
    → let dead =
        (cut ≡ true) ⊎ ((proto ≡ 6) × (due_tcp ≤ now)) ⊎ ((proto ≡ 17) × (due_udp ≤ now)) in
      let test = cut || (proto == 6 && leb due_tcp now) || (proto == 17 && leb due_udp now) in
      ((test ≡ true) × dead) ⊎ ((test ≡ false) × (¬ dead))
expired_by true proto now due_tcp due_udp = inl (refl, inl refl)
expired_by false proto now due_tcp due_udp = elim (Bool-cases (proto == 6 && leb due_tcp now)) [
  | inl tcp ↦ inl (rw tcp refl, inr (inl (ground arith, ground arith)))
  | inr no_tcp ↦ elim (Bool-cases (proto == 17 && leb due_udp now)) [
    | inl udp ↦ inl (rw (no_tcp, udp) refl, inr (inr (ground arith, ground arith)))
    | inr no_udp ↦ inr (
      rw (no_tcp, no_udp) refl,
      λ h. elim h [
        | inl e ↦ absurd (cc)
        | inr (inl (e, le)) ↦ absurd (ground arith)
        | inr (inr (e, le)) ↦ absurd (ground arith)
      ],
    )
  ]
]

is_expired-Expired :
    {Pool : Type 0} (p : Conntrack Pool) (now : ℕ) (k : Conn) (t : Track)
    → ((is_expired p now k t ≡ true) × Expired p now k t)
      ⊎ ((is_expired p now k t ≡ false) × (¬ Expired p now k t))
unfolding is_expired
is_expired-Expired p now k t = rw (stage_idle p now t.pos.t_last.sec t.pos.state) (
    expired_by t.b_cutoff k.l4proto now (t.pos.t_last.sec + stage_timeout p t.pos.state)
      (t.pos.t_last.sec + p.timeout_udp))

Purged-if :
    {Pool : Type 0} (p : Conntrack Pool) (now : ℕ) (k : Conn) (t : Track) (after : Option Track)
    → after ≡ (if is_expired p now k t then none else some t)
    → Purged p now k (some t) after
unfolding Purged
Purged-if p now k t after e = elim (is_expired-Expired p now k t) [
  | inl dead ↦ inl (dead.1, e ∙ rw (dead.0) refl)
  | inr alive ↦ inr (alive.1, e ∙ rw (alive.0) refl)
]

module _ (lua : Lua) (table : Table) (laws : Laws table) where
  open lua use {Registry}
  open table use {Pool, find, del, items}

  pub find-remove :
      (c k : Conn) (t : Track) (s : Pool × Registry)
      → find k (remove lua table c t s).0 ≡ (if conn_eq k c then none else find k s.0)
  unfolding remove
  find-remove c k t s = elim (Bool-cases (conn_eq k c)) [
    | inl same ↦ rw same (ap (λ x. find x (del c s.0)) (conn_eq→eq k c same) ∙ laws.find-del c s.0)
    | inr differ ↦ rw differ (laws.find-del_other c k s.0 (conn_eq-ne k c differ))
  ]

  find-remove_if :
      (b : Bool) (c k : Conn) (t : Track) (s : Pool × Registry)
      → find k (if b then remove lua table c t s else s).0
        ≡ (if b then if conn_eq k c then none else find k s.0 else find k s.0)
  find-remove_if true c k t s = find-remove c k t s
  find-remove_if false c k t s = refl

  find-remove_if_other :
      (b : Bool) (c k : Conn) (t : Track) (s : Pool × Registry)
      → conn_eq k c ≡ false
      → find k (if b then remove lua table c t s else s).0 ≡ find k s.0
  find-remove_if_other true c k t s differ = find-remove c k t s ∙ rw differ refl
  find-remove_if_other false c k t s differ = refl

  -- Only the keys listed are touched.
  find-purge_items_absent :
      (p : Conntrack Pool) (now : ℕ) (l : List (Conn × Track)) (k : Conn) (s : Pool × Registry)
      → lookup k l ≡ none
      → find k (purge_items lua table p now l s).0 ≡ find k s.0
  unfolding purge_items lookup
  find-purge_items_absent p now [] k s absent = refl
  find-purge_items_absent p now ((c, t) ∷ l) k s absent = elim (Bool-cases (conn_eq k c)) [
    | inl same ↦ absurd (cc (rw same at absent))
    | inr differ ↦
        find-purge_items_absent p now l k _ (rw differ at absent)
        ∙ find-remove_if_other (is_expired p now c t) c k t s differ
  ]

  find-purge_items :
      (p : Conntrack Pool) (now : ℕ) (l : List (Conn × Track)) (k : Conn) (s : Pool × Registry)
      → Distinct l
      → find k s.0 ≡ lookup k l
      → Purged p now k (lookup k l) (find k (purge_items lua table p now l s).0)
  unfolding purge_items lookup
  find-purge_items p now [] k s distinct e = unfold Purged in e
  find-purge_items p now ((c, t) ∷ l) k s distinct e = elim (Bool-cases (conn_eq k c)) [
    | inl same ↦
        let at = conn_eq→eq k c same in
        let there : find k s.0 ≡ some t = e ∙ rw same refl in
        let gone : lookup k l ≡ none = ap (λ x. lookup x l) at ∙ distinct.0 in
        let first : find k (if is_expired p now c t then remove lua table c t s else s).0
            ≡ (if is_expired p now c t then none else some t) =
          find-remove_if (is_expired p now c t) c k t s ∙ rw (same, there) refl in
        rw same (
          Purged-if p now k t _ (
            find-purge_items_absent p now l k _ gone
            ∙ first
            ∙ ap (λ x. if is_expired p now x t then none else some t) (sym at)))
    | inr differ ↦ rw differ (
        find-purge_items p now l k _ distinct.1
          (find-remove_if_other (is_expired p now c t) c k t s differ ∙ e ∙ rw differ refl))
  ]

  -- Over a table with the laws assumed: when the clock can be read and the interval has passed, the
  -- purge removes the entries that are cut off, and those of TCP and UDP whose time without packets
  -- has passed, and keeps every other as it was.
  pub pool_purge-Purged :
      (now : ℕ) (p : Conntrack Pool) (reg : Registry) (k : Conn)
      → now ≢ 0
      → p.t_last_purge + p.t_purge_interval ≤ now
      → Purged p now k (find k p.pool) (find k (pool_purge lua table now p reg).0.pool)
  unfolding pool_purge
  pool_purge-Purged now p reg k running due =
      let clock : (now == 0) ≡ false = ground arith in
      let passed : leb (p.t_last_purge + p.t_purge_interval) now ≡ true = ground arith in
      rw (clock, passed, laws.find-items k p.pool)
        (find-purge_items p now (items p.pool) k (p.pool, reg) (laws.items-Distinct p.pool)
          (laws.find-items k p.pool))
