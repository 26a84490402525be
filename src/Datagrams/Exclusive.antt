-- ===== src/Datagrams/Exclusive.antt =====
-- Messages of one protocol that no two tests accept.
use zapret.Base.{
  ℕ, ◌≤◌, ◌≡◌, ◌≢◌, refl, List, [], ◌∷◌, Option, some, none, Bool, true, false, leb, ◌==◌, arith,
  All,
}
use zapret.Memory.{◌>>=◌, ◌&&?◌}
use zapret.Bytes.{pntoh32}
use zapret.Datagrams.{
  dword_is, is_wireguard_handshake_initiation, is_wireguard_handshake_response,
  is_wireguard_handshake_cookie, is_wireguard_data, is_wireguard_keepalive,
}

-- At most one of the answers is true.
abbrev pub Apart : List (Option Bool) → Type 0
Apart [] = Unit {0}
Apart (a ∷ rest) = (a ≡ some true → All (λ b. b ≢ some true) rest) × Apart rest

-- What an accepted message has: the guard held and the first word is `n`.
abbrev Accepts : List ℕ → ℕ → Bool → ℕ → Type 0
Accepts d p guard n = (guard ≡ true) × (pntoh32 d p ≡ some n)

word-Accepts :
    (d : List ℕ) (p n : ℕ) (guard : Bool) (o : Option ℕ)
    → pntoh32 d p ≡ o
    → (some guard &&? (do v ← o; some (v == n))) ≡ some true
    → Accepts d p guard n
word-Accepts d p n true none e h = absurd (cc)
word-Accepts d p n true (some v) e h = let at : v ≡ n = ground arith in (refl, rw⁻¹ at e)
word-Accepts d p n false o e h = absurd (cc)

-- Two accepted messages have the same first word.
same_word : (d : List ℕ) (p a b : ℕ) (g h : Bool) → Accepts d p g a → Accepts d p h b → a ≡ b
same_word d p a b g h x y = let e1 = x.1 in let e2 = y.1 in cc

-- No message is accepted as two of handshake initiation, handshake response, cookie, data and
-- keepalive of WireGuard.
pub wireguard-Apart :
    (d : List ℕ) (p len : ℕ)
    → Apart (
        is_wireguard_handshake_initiation d p len
        ∷ is_wireguard_handshake_response d p len
        ∷ is_wireguard_handshake_cookie d p len
        ∷ is_wireguard_data d p len
        ∷ is_wireguard_keepalive d p len
        ∷ [])
unfolding is_wireguard_handshake_initiation is_wireguard_handshake_response
    is_wireguard_handshake_cookie is_wireguard_data is_wireguard_keepalive
wireguard-Apart d p len =
    let read = λ (n : ℕ) (g : Bool) (h : (some g &&? dword_is d p (λ v. v == n)) ≡ some true).
      word-Accepts d p n g (pntoh32 d p) refl h in
    let apart =
      λ (m n : ℕ) (g h : Bool) (differ : m ≢ n)
          (x : (some g &&? dword_is d p (λ v. v == m)) ≡ some true)
          (y : (some h &&? dword_is d p (λ v. v == n)) ≡ some true).
        differ (same_word d p m n g h (read m g x) (read n h y)) in
    (
      λ x. (
        λ y. apart 0x01000000 0x02000000 _ _ (λ e. omega (arith, e)) x y,
        (
          λ y. apart 0x01000000 0x03000000 _ _ (λ e. omega (arith, e)) x y,
          (
            λ y. apart 0x01000000 0x04000000 _ _ (λ e. omega (arith, e)) x y,
            (λ y. apart 0x01000000 0x04000000 _ _ (λ e. omega (arith, e)) x y, tt),
          ),
        ),
      ),
      (
        λ x. (
          λ y. apart 0x02000000 0x03000000 _ _ (λ e. omega (arith, e)) x y,
          (
            λ y. apart 0x02000000 0x04000000 _ _ (λ e. omega (arith, e)) x y,
            (λ y. apart 0x02000000 0x04000000 _ _ (λ e. omega (arith, e)) x y, tt),
          ),
        ),
        (
          λ x. (
            λ y. apart 0x03000000 0x04000000 _ _ (λ e. omega (arith, e)) x y,
            (λ y. apart 0x03000000 0x04000000 _ _ (λ e. omega (arith, e)) x y, tt),
          ),
          (
            λ x. (
              λ y.
                  let long = (read 0x04000000 (leb 52 len) x).0 in
                  let short = (read 0x04000000 (len == 32) y).0 in
                  let big : 52 ≤ len = ground arith in
                  let small : len ≡ 32 = ground arith in omega arith,
              tt,
            ),
            (λ x. tt, tt),
          ),
        ),
      ),
    )
