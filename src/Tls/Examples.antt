-- ===== src/Tls/Examples.antt =====
-- A client hello with the server name a.B, whole and cut off.
use zapret.Base.{ℕ, ◌≡◌, refl, List, [], ◌∷◌, none, some, false, arith}
use zapret.Memory.Safe.{Returns}
use zapret.Bytes.{pntoh16, pntoh24}
use zapret.Tls.{
  handshake_len, is_handshake_full, record_len, is_record_full, is_type, hello_bytes,
  is_handshake_hello, record_bytes, is_hello, behind_methods, behind_session,
  find_ext_len_offset_in_handshake, walk, extensions, at_offset, find_ext_in_handshake, find_ext,
  advance_to_host_in_sni, copy_lower, copy_host, host_at, extract_host_from_ext, hello_extract_host,
  tolower,
}
use zapret.Tls.Bounds.{Finds}
use zapret.Tls.Hello.{Fits, find_ext-Returns, hello_extract_host-Returns}

abbrev hello : List ℕ
hello =
    22 ∷ 3 ∷ 1 ∷ 0 ∷ 59 ∷ 1 ∷ 0 ∷ 0 ∷ 55 ∷ 3 ∷ 3 ∷ 0 ∷ 0 ∷ 0 ∷ 0 ∷ 0 ∷ 0 ∷ 0 ∷ 0 ∷ 0 ∷ 0 ∷ 0 ∷ 0 ∷ 0
    ∷ 0 ∷ 0 ∷ 0 ∷ 0 ∷ 0 ∷ 0 ∷ 0 ∷ 0 ∷ 0 ∷ 0 ∷ 0 ∷ 0 ∷ 0 ∷ 0 ∷ 0 ∷ 0 ∷ 0 ∷ 0 ∷ 0 ∷ 0 ∷ 0 ∷ 2 ∷ 19 ∷ 1
    ∷ 1 ∷ 0 ∷ 0 ∷ 12 ∷ 0 ∷ 0 ∷ 0 ∷ 8 ∷ 0 ∷ 6 ∷ 0 ∷ 0 ∷ 3 ∷ 97 ∷ 46 ∷ 66 ∷ []

-- The name is found, in lower case and with its final zero.
hello_host : hello_extract_host hello 0 64 256 false ≡ some (some (97 ∷ 46 ∷ 98 ∷ 0 ∷ []))
unfolding handshake_len is_handshake_full record_len is_record_full is_type hello_bytes
    is_handshake_hello record_bytes is_hello behind_methods behind_session
    find_ext_len_offset_in_handshake walk extensions at_offset find_ext_in_handshake find_ext
    advance_to_host_in_sni copy_lower copy_host host_at extract_host_from_ext hello_extract_host
    tolower pntoh16 pntoh24
hello_host = refl

-- The first three bytes of a handshake message, whose length is read without a test.
short_faults : find_ext_in_handshake (1 ∷ 0 ∷ 0 ∷ []) 0 3 0 false ≡ none
unfolding find_ext_in_handshake is_handshake_full handshake_len pntoh24
short_faults = refl

find_ext-Returns_example : Returns (Finds hello 0 64 0) (find_ext hello 0 64 0 false)
find_ext-Returns_example = find_ext-Returns hello 0 64 0 false (omega arith)

hello_extract_host-Returns_example : Returns (Fits 3) (hello_extract_host hello 0 64 3 false)
hello_extract_host-Returns_example = hello_extract_host-Returns hello 0 64 3 false (omega arith)
