-- ===== src/Datagrams/Examples.antt =====
-- A STUN request, a DNS query that it is not, and a WireGuard keepalive.
use zapret.Base.{ℕ, ◌≡◌, refl, List, [], ◌∷◌, Option, some, Bool, true, false, arith, All}
use zapret.Memory.Safe.{Returns, Any}
use zapret.Bytes.{pntoh16, pntoh32}
use zapret.Strings.{mem_eq}
use zapret.Datagrams.{
  is_stun_message, is_dns_query, is_wireguard_keepalive, is_wireguard_data, zeros,
  is_wireguard_handshake_initiation, is_wireguard_handshake_response, is_wireguard_handshake_cookie,
}
use zapret.Datagrams.Every.{tests, tests-Return}
use zapret.Datagrams.Exclusive.{Apart, wireguard-Apart}

abbrev stun : List ℕ
stun = 0 ∷ 1 ∷ 0 ∷ 0 ∷ 33 ∷ 18 ∷ 164 ∷ 66 ∷ 7 ∷ 7 ∷ 7 ∷ 7 ∷ 7 ∷ 7 ∷ 7 ∷ 7 ∷ 7 ∷ 7 ∷ 7 ∷ 7 ∷ []

accepts_stun : is_stun_message stun 0 20 ≡ some true
unfolding is_stun_message pntoh16 pntoh32
accepts_stun = refl

refuses_stun : is_dns_query stun 0 20 ≡ some false
unfolding is_dns_query mem_eq pntoh16
refuses_stun = refl

accepts_keepalive : is_wireguard_keepalive (4 ∷ zeros 31) 0 32 ≡ some true
unfolding is_wireguard_keepalive pntoh32
accepts_keepalive = refl

tests-Return_example :
    All (λ (test : List ℕ → ℕ → ℕ → Option Bool). Returns Any (test stun 0 20)) tests
tests-Return_example = tests-Return stun 0 20 (omega arith)

wireguard-Apart_example : Apart (
    is_wireguard_handshake_initiation (4 ∷ zeros 31) 0 32
    ∷ is_wireguard_handshake_response (4 ∷ zeros 31) 0 32
    ∷ is_wireguard_handshake_cookie (4 ∷ zeros 31) 0 32
    ∷ is_wireguard_data (4 ∷ zeros 31) 0 32
    ∷ is_wireguard_keepalive (4 ∷ zeros 31) 0 32
    ∷ [])
wireguard-Apart_example = wireguard-Apart (4 ∷ zeros 31) 0 32
