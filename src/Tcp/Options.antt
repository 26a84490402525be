-- ===== src/Tcp/Options.antt =====
-- The walk over the options ends, stays inside the header, and finds a whole option.
use zapret.Base.{
  ℕ, zero, suc, ◌+◌, ◌≤◌, ◌<◌, ◌≡◌, refl, inl, inr, List, Option, none, some, Bool, ◌||◌, ltb, leb,
  ◌==◌, get_elem?, get_or, get_elem?-eq-get_or, length, arith, Bool-cases, ◌∙◌, ap, ==→eq, le→leb,
}
use zapret.Memory.{◌>>=◌}
use zapret.Tcp.{
  Tcp, find_option, tcp_find_option, tcp_find_scale_factor, tcp_find_mss, read_scale, read_mss,
  scale_none,
}
use zapret.Bytes.Value.{pntoh16_total}

-- An option of this kind at `p`, of at least two bytes, inside the options.
pub record IsOption (options : List ℕ) (kind p : ℕ) : Type 0 where
  pub len : ℕ
  pub has_kind : get_elem? options p ≡ some kind
  pub has_len : get_elem? options (p + 1) ≡ some len
  pub long : 2 ≤ len
  pub inside : p + len ≤ length options

-- The walk returned, and what it found is an option.
abbrev pub Finds : List ℕ → ℕ → Option (Option ℕ) → Type 0
Finds options kind none = ⊥
Finds options kind (some none) = Unit {0}
Finds options kind (some (some p)) = IsOption options kind p

not_leb : {a b : ℕ} → a < b → leb b a ≡ Bool.false
not_leb h = ground arith

-- One round: the walk ends here, or goes on further along.
find_option_step :
    (fuel : ℕ) (options : List ℕ) (kind t : ℕ)
    → t < length options
    → ((t' : ℕ) → t < t' → Finds options kind (find_option fuel options kind t'))
    → Finds options kind (find_option (suc fuel) options kind t)
unfolding find_option
find_option_step fuel options kind t inside next =
    let k : ℕ = get_or options t 0 in
    let is_k = get_elem?-eq-get_or options t 0 inside in
    let len : ℕ = get_or options (t + 1) 0 in
    rw (is_k, not_leb inside)
      (elim (Bool-cases (k == 0)) [
        | inl end ↦ rw end tt
        | inr more ↦ rw more (elim (Bool-cases (k == 1)) [
          | inl noop ↦ rw noop (next (t + 1) (omega arith))
          | inr sized ↦ rw sized (elim (Bool-cases (leb (length options) (t + 1))) [
            | inl cut ↦ rw cut tt
            | inr two ↦
                let is_len = get_elem?-eq-get_or options (t + 1) 0 (ground arith) in
                rw (two, is_len)
                  (elim (Bool-cases (ltb len 2 || ltb (length options) (t + len))) [
                    | inl bad ↦ rw bad tt
                    | inr good ↦ rw good (elim (Bool-cases (k == kind)) [
                      | inl found ↦ rw found (record {
                        len = len;
                        has_kind = is_k ∙ ap some (==→eq k kind found);
                        has_len = is_len;
                        long = ground arith;
                        inside = ground arith;
                      })
                      | inr other ↦ rw other (next (t + len) (ground arith))
                    ])
                  ])
          ])
        ])
      ])

find_option-Finds :
    (fuel : ℕ) (options : List ℕ) (kind t : ℕ)
    → length options ≤ fuel + t
    → Finds options kind (find_option fuel options kind t)
find_option-Finds zero options kind t h =
    unfold find_option in rw (le→leb (length options) t (omega arith)) tt
find_option-Finds (suc fuel) options kind t h = elim (Bool-cases (leb (length options) t)) [
  | inl end ↦ unfold find_option in rw end tt
  | inr more ↦
      find_option_step fuel options kind t (ground arith)
        (λ t' lt. find_option-Finds fuel options kind t' (omega arith))
]

-- Whatever the options hold, the walk ends, reads only inside them, and returns a whole option of
-- the kind sought, or nothing.
pub tcp_find_option-Finds :
    (tcp : Tcp) (kind : ℕ) → Finds tcp.options kind (tcp_find_option tcp kind)
unfolding tcp_find_option
tcp_find_option-Finds tcp kind =
    find_option-Finds (length tcp.options) tcp.options kind 0 (omega arith)

read_scale_total :
    (options : List ℕ) (o : Option (Option ℕ))
    → Finds options 3 o
    → (s : ℕ) × ((o >>= read_scale options) ≡ some s)
unfolding read_scale
read_scale_total options none f = absurd f
read_scale_total options (some none) f = (scale_none, refl)
read_scale_total options (some (some t)) f = elim (Bool-cases (f.len == 3)) [
  | inl sized ↦ (
    get_or options (t + 2) 0,
    rw (f.has_len, sized) (get_elem?-eq-get_or options (t + 2) 0 (ground (arith, f.inside))),
  )
  | inr other ↦ (scale_none, rw (f.has_len, other))
]

read_mss_total :
    (options : List ℕ) (o : Option (Option ℕ))
    → Finds options 2 o
    → (m : ℕ) × ((o >>= read_mss options) ≡ some m)
unfolding read_mss
read_mss_total options none f = absurd f
read_mss_total options (some none) f = (0, refl)
read_mss_total options (some (some t)) f = elim (Bool-cases (f.len == 4)) [
  | inl sized ↦
      let word = pntoh16_total options (t + 2) (ground (arith, f.inside)) in
      (word.0, rw (f.has_len, sized) word.1)
  | inr other ↦ (0, rw (f.has_len, other))
]

-- The readers of the scale and of the segment size do not fault either, whatever the options hold.
pub scale-mss_total :
    (tcp : Tcp)
    → (scale : ℕ) × (mss : ℕ) × (tcp_find_scale_factor tcp ≡ some scale)
      × (tcp_find_mss tcp ≡ some mss)
unfolding tcp_find_scale_factor tcp_find_mss
scale-mss_total tcp =
    let s = read_scale_total tcp.options (tcp_find_option tcp 3) (tcp_find_option-Finds tcp 3) in
    let m = read_mss_total tcp.options (tcp_find_option tcp 2) (tcp_find_option-Finds tcp 2) in
    (s.0, m.0, s.1, m.1)
