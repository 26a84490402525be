-- ===== src/Datagrams/Every.antt =====
-- Every test reads only the message.
use zapret.Base.{
  ℕ, ◌+◌, ◌≤◌, ◌<◌, ◌≡◌, List, [], ◌∷◌, Option, some, Bool, true, ltb, leb, ◌==◌, arith, length,
  All,
}
use zapret.Memory.{◌&&?◌, byte_is}
use zapret.Memory.Safe.{
  Returns, Any, and-Any, and-Returns, and_Any-Returns, test-Returns, weaken-Returns,
  byte_is-Returns, word_is-Returns,
}
use zapret.Datagrams.{
  starttls_tag, proceed_tag, features_tag, is_xmpp_stream, is_xmpp_start_tls, is_xmpp_proceed_tls,
  is_xmpp_features, is_dns_query, is_dns_response, is_wireguard_handshake_initiation,
  is_wireguard_handshake_response, is_wireguard_handshake_cookie, is_wireguard_data,
  is_wireguard_keepalive, is_dht, is_discord_ip_discovery_request, is_stun_message, is_dtls,
  is_dtls_client_hello, is_dtls_server_hello, bt_protocol, is_bt_handshake, is_utp_bt_handshake,
}
use zapret.Strings.Search.{mem_eq-Returns}
use zapret.Datagrams.Bounds.{
  or-Any, tag-Returns, dword-Returns, version_is-Returns, is_xmpp_stream-Returns,
  is_dns_query-Returns, is_dns_response-Returns, is_dht-Returns, is_discord-Returns,
  is_stun_message-Returns,
}

is_dtls-Returns :
    (d : List ℕ) (p len : ℕ)
    → p + len ≤ length d
    → Returns (λ (t : Bool). t ≡ true → (13 < len) × Unit {0}) (is_dtls d p len)
unfolding is_dtls
is_dtls-Returns d p len fits =
    and-Returns (13 < len) (Unit {0}) (some (ltb 13 len)) _ (test-Returns _ _ (λ e. ground arith))
      (λ long.
        let version = λ (a b : ℕ). version_is-Returns d p a b (omega arith) in
        weaken-Returns (λ t _ _. tt)
          (and-Any _ _ (byte_is-Returns d p _ (omega arith)) (
            and-Any _ _ (byte_is-Returns d p _ (omega arith)) (
              and-Any _ _
                (or-Any _ _ (version 0xfe 0xff) (
                  or-Any _ _ (version 0xfe 0xfd)
                    (or-Any _ _ (version 0xfe 0xfc) (version 0x01 0x00))))
                (word_is-Returns d (p + 11) _ (omega arith))))))

-- A hello has a type behind the record header.
dtls_hello-Returns :
    (d : List ℕ) (p len : ℕ) (kind : ℕ → Bool)
    → p + len ≤ length d
    → Returns Any (is_dtls d p len &&? byte_is d p (λ b. b == 0x16) &&? byte_is d (p + 13) kind)
dtls_hello-Returns d p len kind fits =
    weaken-Returns (λ t _. tt)
      (and-Returns ((13 < len) × Unit {0}) (Unit {0}) (is_dtls d p len) _
        (is_dtls-Returns d p len fits)
        (λ long.
          weaken-Returns (λ t _ _. tt)
            (and-Any _ _ (byte_is-Returns d p _ (omega (arith, long.0)))
              (byte_is-Returns d (p + 13) _ (omega (arith, long.0))))))

utp-Returns :
    (d : List ℕ) (p len : ℕ) → p + len ≤ length d → Returns Any (is_utp_bt_handshake d p len)
unfolding is_utp_bt_handshake
utp-Returns d p len fits = and_Any-Returns (leb 88 len) _ (λ h.
    let long : 88 ≤ len = ground arith in
    and-Any _ _ (byte_is-Returns d p _ (omega arith))
      (mem_eq-Returns d (p + 20) bt_protocol (omega arith)))

-- All tests of the protocols that are told apart by their first bytes.
abbrev pub tests : List (List ℕ → ℕ → ℕ → Option Bool)
tests =
    is_xmpp_stream ∷ is_xmpp_start_tls ∷ is_xmpp_proceed_tls ∷ is_xmpp_features ∷ is_dns_query
    ∷ is_dns_response ∷ is_wireguard_handshake_initiation ∷ is_wireguard_handshake_response
    ∷ is_wireguard_handshake_cookie ∷ is_wireguard_data ∷ is_wireguard_keepalive ∷ is_dht
    ∷ is_discord_ip_discovery_request ∷ is_stun_message ∷ is_dtls ∷ is_dtls_client_hello
    ∷ is_dtls_server_hello ∷ is_bt_handshake ∷ is_utp_bt_handshake ∷ []

-- For any message of `len` bytes, all of which may be read, each test returns and reads only the
-- message.
pub tests-Return :
    (d : List ℕ) (p len : ℕ)
    → p + len ≤ length d
    → All (λ (test : List ℕ → ℕ → ℕ → Option Bool). Returns Any (test d p len)) tests
unfolding is_xmpp_start_tls is_xmpp_proceed_tls is_xmpp_features is_wireguard_handshake_initiation
    is_wireguard_handshake_response is_wireguard_handshake_cookie is_wireguard_data
    is_wireguard_keepalive is_dtls_client_hello is_dtls_server_hello is_bt_handshake
    is_utp_bt_handshake
tests-Return d p len fits = (
  is_xmpp_stream-Returns d p len fits,
  (
    tag-Returns d p len 10 p starttls_tag fits (omega arith),
    (
      tag-Returns d p len 9 p proceed_tag fits (omega arith),
      (
        tag-Returns d p len 17 p features_tag fits (omega arith),
        (
          is_dns_query-Returns d p len fits,
          (
            is_dns_response-Returns d p len fits,
            (
              dword-Returns d p len (len == 148) _ fits (λ h. ground arith),
              (
                dword-Returns d p len (len == 92) _ fits (λ h. ground arith),
                (
                  dword-Returns d p len (len == 64) _ fits (λ h. ground arith),
                  (
                    dword-Returns d p len (leb 52 len) _ fits (λ h. ground arith),
                    (
                      dword-Returns d p len (len == 32) _ fits (λ h. ground arith),
                      (
                        is_dht-Returns d p len fits,
                        (
                          is_discord-Returns d p len fits,
                          (
                            is_stun_message-Returns d p len fits,
                            (
                              weaken-Returns (λ t _. tt) (is_dtls-Returns d p len fits),
                              (
                                dtls_hello-Returns d p len _ fits,
                                (
                                  dtls_hello-Returns d p len _ fits,
                                  (
                                    tag-Returns d p len 68 p bt_protocol fits (omega arith),
                                    (utp-Returns d p len fits, tt),
                                  ),
                                ),
                              ),
                            ),
                          ),
                        ),
                      ),
                    ),
                  ),
                ),
              ),
            ),
          ),
        ),
      ),
    ),
  ),
)
