-- ===== src/Datagrams.antt =====
-- nfq2/protocol.c, `IsXMPPStream` to `IsUTP_BTHandshake`: the tests that tell protocols apart. A
-- message is `len` bytes at index `p` of the memory.
pub mod Bounds
pub mod Every
pub mod Exclusive
mod Examples
use zapret.Base.{
  ℕ, zero, suc, ◌+◌, ◌-◌, ◌<◌, List, [], ◌∷◌, Option, none, some, Bool, true, false, not, ◌&&◌,
  ◌||◌, ltb, leb, ◌==◌, if◌then◌else◌, get_elem?, length, bit_and,
}
use zapret.Memory.{◌>>=◌, ◌&&?◌, ◌||?◌, byte_is, minus64}
use zapret.Bytes.{pntoh16, pntoh32}
use zapret.Strings.{mem_eq}

abbrev pub word_is : List ℕ → ℕ → (ℕ → Bool) → Option Bool
word_is d p test = do v ← pntoh16 d p; some (test v)

abbrev pub dword_is : List ℕ → ℕ → (ℕ → Bool) → Option Bool
dword_is d p test = do v ← pntoh32 d p; some (test v)

-- "<stream:stream ", "<?xml ", "<starttls ", "<proceed " and "<stream:features".
abbrev pub stream_tag : List ℕ
stream_tag = 60 ∷ 115 ∷ 116 ∷ 114 ∷ 101 ∷ 97 ∷ 109 ∷ 58 ∷ 115 ∷ 116 ∷ 114 ∷ 101 ∷ 97 ∷ 109 ∷ 32 ∷ []

abbrev pub xml_tag : List ℕ
xml_tag = 60 ∷ 63 ∷ 120 ∷ 109 ∷ 108 ∷ 32 ∷ []

abbrev pub starttls_tag : List ℕ
starttls_tag = 60 ∷ 115 ∷ 116 ∷ 97 ∷ 114 ∷ 116 ∷ 116 ∷ 108 ∷ 115 ∷ 32 ∷ []

abbrev pub proceed_tag : List ℕ
proceed_tag = 60 ∷ 112 ∷ 114 ∷ 111 ∷ 99 ∷ 101 ∷ 101 ∷ 100 ∷ 32 ∷ []

abbrev pub features_tag : List ℕ
features_tag =
    60 ∷ 115 ∷ 116 ∷ 114 ∷ 101 ∷ 97 ∷ 109 ∷ 58 ∷ 102 ∷ 101 ∷ 97 ∷ 116 ∷ 117 ∷ 114 ∷ 101 ∷ 115 ∷ []

-- `memmem(p, len, text, n) != NULL` with `room` places where the text fits.
unfoldable pub mem_in : ℕ → List ℕ → ℕ → List ℕ → Option Bool
mem_in zero d p text = some false
mem_in (suc room) d p text =
    let rest = mem_in room d (p + 1) text in
    do here ← mem_eq d p text; if here then some true else rest

unfoldable pub memmem : List ℕ → ℕ → ℕ → List ℕ → Option Bool
memmem d p len text = mem_in (len + 1 - length text) d p text

unfoldable pub is_xmpp_stream : List ℕ → ℕ → ℕ → Option Bool
is_xmpp_stream d p len =
    (some (leb 16 len) &&? mem_eq d p stream_tag)
    ||? (some (leb 36 len) &&? mem_eq d p xml_tag &&? memmem d (p + 21) (minus64 len 21) stream_tag)

unfoldable pub is_xmpp_start_tls : List ℕ → ℕ → ℕ → Option Bool
is_xmpp_start_tls d p len = some (leb 10 len) &&? mem_eq d p starttls_tag

unfoldable pub is_xmpp_proceed_tls : List ℕ → ℕ → ℕ → Option Bool
is_xmpp_proceed_tls d p len = some (leb 9 len) &&? mem_eq d p proceed_tag

unfoldable pub is_xmpp_features : List ℕ → ℕ → ℕ → Option Bool
is_xmpp_features d p len = some (leb 17 len) &&? mem_eq d p features_tag

unfoldable pub is_dns_query : List ℕ → ℕ → ℕ → Option Bool
is_dns_query d p len =
    some (leb 12 len)
    &&? byte_is d (p + 2) (λ b. bit_and b 0xfe == 0)
    &&? mem_eq d (p + 4) (0 ∷ 1 ∷ 0 ∷ 0 ∷ 0 ∷ 0 ∷ [])
    &&? word_is d (p + 10) (λ n. leb n 3)

unfoldable pub is_dns_response : List ℕ → ℕ → ℕ → Option Bool
is_dns_response d p len =
    some (leb 12 len)
    &&? byte_is d (p + 2) (λ b. bit_and b 0xf8 == 0x80)
    &&? word_is d (p + 4) (λ n. n == 1)
    &&? word_is d (p + 6) (λ n. leb n 100)
    &&? word_is d (p + 8) (λ n. leb n 100)
    &&? word_is d (p + 10) (λ n. leb n 100)

unfoldable pub is_wireguard_handshake_initiation : List ℕ → ℕ → ℕ → Option Bool
is_wireguard_handshake_initiation d p len =
    some (len == 148) &&? dword_is d p (λ n. n == 0x01000000)

unfoldable pub is_wireguard_handshake_response : List ℕ → ℕ → ℕ → Option Bool
is_wireguard_handshake_response d p len = some (len == 92) &&? dword_is d p (λ n. n == 0x02000000)

unfoldable pub is_wireguard_handshake_cookie : List ℕ → ℕ → ℕ → Option Bool
is_wireguard_handshake_cookie d p len = some (len == 64) &&? dword_is d p (λ n. n == 0x03000000)

unfoldable pub is_wireguard_data : List ℕ → ℕ → ℕ → Option Bool
is_wireguard_data d p len = some (leb 52 len) &&? dword_is d p (λ n. n == 0x04000000)

unfoldable pub is_wireguard_keepalive : List ℕ → ℕ → ℕ → Option Bool
is_wireguard_keepalive d p len = some (len == 32) &&? dword_is d p (λ n. n == 0x04000000)

-- The four forms of the second, fourth and fifth byte.
unfoldable pub dht_key : List ℕ → ℕ → ℕ → ℕ → ℕ → Option Bool
dht_key d p a b c =
    byte_is d (p + 1) (λ x. x == a)
    &&? byte_is d (p + 3) (λ x. x == b)
    &&? byte_is d (p + 4) (λ x. x == c)

unfoldable pub is_dht : List ℕ → ℕ → ℕ → Option Bool
is_dht d p len =
    some (leb 5 len)
    &&? byte_is d p (λ b. b == 100)
    &&? byte_is d (p + 2) (λ b. b == 58)
    &&? byte_is d (p + (len - 1)) (λ b. b == 101)
    &&? (dht_key d p 49 97 100
        ||? dht_key d p 49 114 100
        ||? dht_key d p 50 105 112
        ||? dht_key d p 49 101 108)

-- `n` zero bytes.
abbrev pub zeros : ℕ → List ℕ
zeros zero = []
zeros (suc n) = 0 ∷ zeros n

unfoldable pub is_discord_ip_discovery_request : List ℕ → ℕ → ℕ → Option Bool
is_discord_ip_discovery_request d p len =
    some (len == 74)
    &&? byte_is d p (λ b. b == 0)
    &&? byte_is d (p + 1) (λ b. b == 1)
    &&? byte_is d (p + 2) (λ b. b == 0)
    &&? byte_is d (p + 3) (λ b. b == 70)
    &&? mem_eq d (p + 8) (zeros 64)

unfoldable pub is_stun_message : List ℕ → ℕ → ℕ → Option Bool
is_stun_message d p len =
    some (leb 20 len)
    &&? byte_is d p (λ b. bit_and b 0xc0 == 0)
    &&? byte_is d (p + 3) (λ b. bit_and b 3 == 0)
    &&? dword_is d (p + 4) (λ n. n == 0x2112a442)
    &&? word_is d (p + 2) (λ n. leb n (len - 20))

-- A version of two bytes.
unfoldable pub version_is : List ℕ → ℕ → ℕ → ℕ → Option Bool
version_is d p a b = byte_is d (p + 1) (λ x. x == a) &&? byte_is d (p + 2) (λ x. x == b)

unfoldable pub is_dtls : List ℕ → ℕ → ℕ → Option Bool
is_dtls d p len =
    some (ltb 13 len)
    &&? byte_is d p (λ b. leb 0x14 b)
    &&? byte_is d p (λ b. leb b 0x17)
    &&? (version_is d p 0xfe 0xff
        ||? version_is d p 0xfe 0xfd
        ||? version_is d p 0xfe 0xfc
        ||? version_is d p 0x01 0x00)
    &&? word_is d (p + 11) (λ n. leb (n + 13) len)

unfoldable pub is_dtls_client_hello : List ℕ → ℕ → ℕ → Option Bool
is_dtls_client_hello d p len =
    is_dtls d p len &&? byte_is d p (λ b. b == 0x16) &&? byte_is d (p + 13) (λ b. b == 1)

unfoldable pub is_dtls_server_hello : List ℕ → ℕ → ℕ → Option Bool
is_dtls_server_hello d p len =
    is_dtls d p len &&? byte_is d p (λ b. b == 0x16) &&? byte_is d (p + 13) (λ b. b == 2)

-- "\x13BitTorrent protocol"
abbrev pub bt_protocol : List ℕ
bt_protocol =
    19 ∷ 66 ∷ 105 ∷ 116 ∷ 84 ∷ 111 ∷ 114 ∷ 114 ∷ 101 ∷ 110 ∷ 116 ∷ 32 ∷ 112 ∷ 114 ∷ 111 ∷ 116 ∷ 111
    ∷ 99 ∷ 111 ∷ 108 ∷ []

unfoldable pub is_bt_handshake : List ℕ → ℕ → ℕ → Option Bool
is_bt_handshake d p len = some (leb 68 len) &&? mem_eq d p bt_protocol

unfoldable pub is_utp_bt_handshake : List ℕ → ℕ → ℕ → Option Bool
is_utp_bt_handshake d p len =
    some (leb 88 len) &&? byte_is d p (λ b. b == 1) &&? mem_eq d (p + 20) bt_protocol
