-- ===== src/Tls/Bounds.antt =====
-- The readers of TLS hello messages read only inside the message, and what they find lies in it.
use zapret.Base.{
  ℕ, zero, suc, ◌+◌, ◌-◌, ◌≤◌, ◌≡◌, refl, List, Option, none, some, Bool, true, false, ltb, leb,
  ◌==◌, if◌then◌else◌, arith, get_elem?, length, ==→eq, Bool-cases, inl, inr, ◌⊎◌,
}
use zapret.Memory.Safe.{
  Returns, Any, some-Returns, bind-Returns, branch-Returns, get_elem?-Returns, pntoh16-Returns,
  pntoh24-Returns, weaken-Returns,
}
use zapret.Bytes.{pntoh16, pntoh24}
use zapret.Tls.{
  handshake_len, is_handshake_full, behind_methods, behind_session,
  find_ext_len_offset_in_handshake, walk, extensions, at_offset, find_ext_in_handshake,
}

-- An extension of this type whose header stands at `at`, inside the `len` bytes from `p` on.
pub record IsExt (d : List ℕ) (p len type ext elen : ℕ) : Type 0 where
  pub at : ℕ
  pub starts : ext ≡ at + 4
  pub after : p ≤ at
  pub inside : ext + elen ≤ p + len
  pub has_type : pntoh16 d at ≡ some type
  pub has_len : pntoh16 d (at + 2) ≡ some elen

-- What an extension search answers: nothing, or such an extension.
abbrev pub Finds : List ℕ → ℕ → ℕ → ℕ → Option (ℕ × ℕ) → Type 0
Finds d p len type none = Unit {0}
Finds d p len type (some (ext, elen)) = IsExt d p len type ext elen

pub widen :
    (d : List ℕ) (p len p' len' type : ℕ) (r : Option (ℕ × ℕ))
    → p' ≤ p
    → p + len ≤ p' + len'
    → Finds d p len type r
    → Finds d p' len' type r
widen d p len p' len' type none low high f = tt
widen d p len p' len' type (some (ext, elen)) low high f = record {
  at = f.at;
  starts = f.starts;
  after = omega (arith, f.after);
  inside = omega (arith, f.inside);
  has_type = f.has_type;
  has_len = f.has_len;
}

walk-Returns :
    (fuel : ℕ) (d : List ℕ) (p l type : ℕ)
    → l ≤ fuel
    → p + l ≤ length d
    → Returns (Finds d p l type) (walk fuel d p l type)
unfolding walk
walk-Returns zero d p l type enough fits = (none, ground arith, tt)
walk-Returns (suc fuel) d p l type enough fits =
    branch-Returns (Finds d p l type) (ltb l 4) _ _ (λ short. some-Returns _ none tt)
      (λ long.
        let room : 4 ≤ l = ground arith in
        bind-Returns Any _ (pntoh16 d p) _ (pntoh16-Returns d p (omega arith)) (λ etype is_type _.
          bind-Returns Any _ (pntoh16 d (p + 2)) _ (pntoh16-Returns d (p + 2) (omega arith))
            (λ elen is_len _.
              branch-Returns (Finds d p l type) (ltb (l - 4) elen) _ _
                (λ cut. some-Returns _ none tt)
                (λ whole.
                  let inside : elen ≤ l - 4 = ground arith in
                  branch-Returns (Finds d p l type) (etype == type) _ _
                    (λ same. some-Returns (Finds d p l type) (some (p + 4, elen)) (record {
                      at = p;
                      starts = refl;
                      after = omega arith;
                      inside = omega arith;
                      has_type = rw⁻¹ (==→eq etype type same) is_type;
                      has_len = is_len;
                    }))
                    (λ other.
                      weaken-Returns
                        (λ r.
                          widen d (p + 4 + elen) (l - 4 - elen) p l type r (omega arith)
                            (omega arith))
                        (walk-Returns fuel d (p + 4 + elen) (l - 4 - elen) type (omega arith)
                          (omega arith)))))))

-- From the length field of the extensions on.
extensions-Returns :
    (d : List ℕ) (p len type : ℕ) (partial : Bool)
    → 2 ≤ len
    → p + len ≤ length d
    → Returns (Finds d p len type) (extensions d p len type partial)
unfolding extensions
extensions-Returns d p len type partial two fits =
    bind-Returns Any _ (pntoh16 d p) _ (pntoh16-Returns d p (omega arith)) (λ l _ _.
      branch-Returns (Finds d p len type) (ltb (len - 2) l) _ _
        (λ more.
          branch-Returns (Finds d p len type) partial _ _
            (λ _.
              weaken-Returns
                (λ r. widen d (p + 2) (len - 2) p len type r (omega arith) (omega arith))
                (walk-Returns (len - 2) d (p + 2) (len - 2) type (omega arith) (omega arith)))
            (λ _. some-Returns _ none tt))
        (λ whole.
          let inside : l ≤ len - 2 = ground arith in
          weaken-Returns (λ r. widen d (p + 2) l p len type r (omega arith) (omega arith))
            (walk-Returns l d (p + 2) l type (omega arith) (omega arith))))

-- The offset of the length field lies inside.
abbrev pub Inside : ℕ → Option ℕ → Type 0
Inside len none = Unit {0}
Inside len (some l) = l + 2 ≤ len

end-Inside : (len l : ℕ) → Inside len (if ltb len (l + 2) then none else some l)
end-Inside len l = elim (Bool-cases (ltb len (l + 2))) [
  | inl cut ↦ rw cut tt
  | inr whole ↦ rw whole (ground arith)
]

behind_methods-Returns :
    (d : List ℕ) (p len kind l : ℕ)
    → p + len ≤ length d
    → Returns (Inside len) (behind_methods d p len kind l)
unfolding behind_methods
behind_methods-Returns d p len kind l fits =
    branch-Returns (Inside len) (ltb len (l + 1)) _ _ (λ _. some-Returns _ none tt)
      (λ room.
        let at : l + 1 ≤ len = ground arith in
        bind-Returns Any _ (if kind == 1 then get_elem? d (p + l) else some 0) _
          (branch-Returns Any (kind == 1) _ _ (λ _. get_elem?-Returns d (p + l) (omega arith))
            (λ _. some-Returns Any 0 tt))
          (λ methods _ _. (_, refl, end-Inside len (l + methods + 1))))

behind_session-Returns :
    (d : List ℕ) (p len l : ℕ)
    → 1 ≤ len
    → p + len ≤ length d
    → Returns (Inside len) (behind_session d p len l)
unfolding behind_session
behind_session-Returns d p len l one fits =
    branch-Returns (Inside len) (ltb len (l + 2)) _ _ (λ _. some-Returns _ none tt)
      (λ room.
        let at : l + 2 ≤ len = ground arith in
        bind-Returns Any _ (get_elem? d p) _ (get_elem?-Returns d p (omega arith)) (λ kind _ _.
          bind-Returns Any _ (if kind == 1 then pntoh16 d (p + l) else some 0) _
            (branch-Returns Any (kind == 1) _ _ (λ _. pntoh16-Returns d (p + l) (omega arith))
              (λ _. some-Returns Any 0 tt))
            (λ suites _ _. behind_methods-Returns d p len kind (l + suites + 2) fits)))

pub offset-Returns :
    (d : List ℕ) (p len : ℕ)
    → p + len ≤ length d
    → Returns (Inside len) (find_ext_len_offset_in_handshake d p len)
unfolding find_ext_len_offset_in_handshake
offset-Returns d p len fits =
    branch-Returns (Inside len) (ltb len (38 + 1)) _ _ (λ _. some-Returns _ none tt)
      (λ room.
        let at : 39 ≤ len = ground arith in
        bind-Returns Any _ (get_elem? d (p + 38)) _ (get_elem?-Returns d (p + 38) (omega arith))
          (λ session _ _. behind_session-Returns d p len (38 + (session + 1)) (omega arith) fits))

at_offset-Returns :
    (d : List ℕ) (p len type : ℕ) (partial : Bool) (off : Option ℕ)
    → p + len ≤ length d
    → Inside len off
    → Returns (Finds d p len type) (at_offset d p len type partial off)
unfolding at_offset
at_offset-Returns d p len type partial none fits inside = some-Returns _ none tt
at_offset-Returns d p len type partial (some l) fits inside =
    weaken-Returns (λ r. widen d (p + l) (len - l) p len type r (omega arith) (omega arith))
      (extensions-Returns d (p + l) (len - l) type partial (omega arith) (omega arith))

full-Returns : (d : List ℕ) (p len : ℕ) → p + 4 ≤ length d → Returns Any (is_handshake_full d p len)
unfolding is_handshake_full handshake_len
full-Returns d p len fits =
    bind-Returns Any Any _ (λ n. some (leb n len))
      (bind-Returns Any Any (pntoh24 d (p + 1)) (λ n. some (n + 4))
        (pntoh24-Returns d (p + 1) (omega arith)) (λ n _ _. some-Returns Any (n + 4) tt))
      (λ n _ _. some-Returns Any (leb n len) tt)

pub full_if-Returns :
    (d : List ℕ) (p len : ℕ) (partial : Bool)
    → (partial ≡ true) ⊎ (p + 4 ≤ length d)
    → Returns Any (if partial then some true else is_handshake_full d p len)
full_if-Returns d p len true header = some-Returns Any true tt
full_if-Returns d p len false (inl e) = absurd (cc)
full_if-Returns d p len false (inr fits) = full-Returns d p len fits

-- The search in a handshake message of `len` bytes, all of which may be read, returns nothing or
-- an extension of the type sought inside the message. A search that does not accept partial
-- messages needs the four bytes of the message's header.
pub find_ext_in_handshake-Returns :
    (d : List ℕ) (p len type : ℕ) (partial : Bool)
    → p + len ≤ length d
    → (partial ≡ true) ⊎ (p + 4 ≤ length d)
    → Returns (Finds d p len type) (find_ext_in_handshake d p len type partial)
unfolding find_ext_in_handshake
find_ext_in_handshake-Returns d p len type partial fits header =
    bind-Returns Any _ (if partial then some true else is_handshake_full d p len) _
      (full_if-Returns d p len partial header)
      (λ full _ _.
        branch-Returns (Finds d p len type) full _ _
          (λ _.
            bind-Returns (Inside len) _ (find_ext_len_offset_in_handshake d p len) _
              (offset-Returns d p len fits)
              (λ off _ inside. at_offset-Returns d p len type partial off fits inside))
          (λ _. some-Returns _ none tt))
