-- ===== src/Quic/Examples.antt =====
-- An initial packet and a CRYPTO frame with the start of a client hello.
use zapret.Base.{ℕ, zero, suc, ◌≡◌, refl, List, [], ◌∷◌, some, true, arith}
use zapret.Memory.{Bytes}
use zapret.Memory.Safe.{Returns, Any}
use zapret.Bytes.{pntoh16, pntoh32}
use zapret.Tls.{is_handshake_hello, hello_bytes, is_type}
use zapret.Datagrams.{zeros}
use zapret.Queue.{copy_bytes}
use zapret.Quic.{
  varint_of, tvb_get_varint, tvb_get_size, crypto_data, is_quic_crypto_hello, is_quic_v2,
  quic_draft_version, quic_is_long_header, quic_extract_version, quic_extract_dcid, initial_payload,
  initial_token, initial_scid, initial_dcid, is_quic_initial,
}
use zapret.Quic.Bounds.{HelloIn, is_quic_crypto_hello-HelloIn}
use zapret.Quic.Initial.{is_quic_initial-Returns}

zeros-Bytes : (n : ℕ) → Bytes (zeros n)
zeros-Bytes zero = tt
zeros-Bytes (suc n) = (omega arith, zeros-Bytes n)

abbrev initial : List ℕ
initial = 195 ∷ 0 ∷ 0 ∷ 0 ∷ 1 ∷ 8 ∷ 1 ∷ 2 ∷ 3 ∷ 4 ∷ 5 ∷ 6 ∷ 7 ∷ 8 ∷ 0 ∷ 0 ∷ 64 ∷ 120 ∷ zeros 120

initial-Bytes : Bytes initial
initial-Bytes = (
  omega arith,
  (
    omega arith,
    (
      omega arith,
      (
        omega arith,
        (
          omega arith,
          (
            omega arith,
            (
              omega arith,
              (
                omega arith,
                (
                  omega arith,
                  (
                    omega arith,
                    (
                      omega arith,
                      (
                        omega arith,
                        (
                          omega arith,
                          (
                            omega arith,
                            (
                              omega arith,
                              (omega arith, (omega arith, (omega arith, zeros-Bytes 120))),
                            ),
                          ),
                        ),
                      ),
                    ),
                  ),
                ),
              ),
            ),
          ),
        ),
      ),
    ),
  ),
)

accepts_initial : is_quic_initial initial 0 138 ≡ some true
unfolding is_quic_initial quic_extract_version quic_is_long_header quic_draft_version is_quic_v2
    initial_dcid initial_scid initial_token initial_payload tvb_get_varint varint_of tvb_get_size
    pntoh16 pntoh32
accepts_initial = refl

connection_id : quic_extract_dcid initial 0 138 ≡ some (some (1 ∷ 2 ∷ 3 ∷ 4 ∷ 5 ∷ 6 ∷ 7 ∷ 8 ∷ []))
unfolding quic_extract_dcid quic_is_long_header copy_bytes
connection_id = refl

-- Offset 0 and a length of six bytes, written in two.
abbrev frame : List ℕ
frame = 6 ∷ 0 ∷ 64 ∷ 6 ∷ 1 ∷ 0 ∷ 0 ∷ 2 ∷ 3 ∷ 3 ∷ []

frame-Bytes : Bytes frame
frame-Bytes = (
  omega arith,
  (
    omega arith,
    (
      omega arith,
      (
        omega arith,
        (
          omega arith,
          (omega arith, (omega arith, (omega arith, (omega arith, (omega arith, tt))))),
        ),
      ),
    ),
  ),
)

finds_hello : is_quic_crypto_hello frame 0 10 ≡ some (some (4, 6))
unfolding is_quic_crypto_hello crypto_data tvb_get_varint varint_of tvb_get_size is_handshake_hello
    hello_bytes is_type pntoh16
finds_hello = refl

is_quic_crypto_hello-HelloIn_example : Returns (HelloIn 10) (is_quic_crypto_hello frame 0 10)
is_quic_crypto_hello-HelloIn_example =
    is_quic_crypto_hello-HelloIn frame 0 10 frame-Bytes (omega arith) (omega arith)

is_quic_initial-Returns_example : Returns Any (is_quic_initial initial 0 138)
is_quic_initial-Returns_example =
    is_quic_initial-Returns initial 0 138 initial-Bytes (omega arith) (omega arith)
