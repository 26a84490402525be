-- ===== src/Position/Examples.antt =====
-- Positions in a client hello with the server name a.B.
use zapret.Base.{ℕ, ◌≡◌, refl, List, [], ◌∷◌, some, arith}
use zapret.Memory.Safe.{Returns}
use zapret.Position.{host_endsld, negsuc, tls_pos, find_nld, up, nld_at, back}
use zapret.Position.Bounds.{Within}
use zapret.Position.Markers.{tls_pos-Returns}

abbrev hello : List ℕ
hello =
    22 ∷ 3 ∷ 1 ∷ 0 ∷ 59 ∷ 1 ∷ 0 ∷ 0 ∷ 55 ∷ 3 ∷ 3 ∷ 0 ∷ 0 ∷ 0 ∷ 0 ∷ 0 ∷ 0 ∷ 0 ∷ 0 ∷ 0 ∷ 0 ∷ 0 ∷ 0 ∷ 0
    ∷ 0 ∷ 0 ∷ 0 ∷ 0 ∷ 0 ∷ 0 ∷ 0 ∷ 0 ∷ 0 ∷ 0 ∷ 0 ∷ 0 ∷ 0 ∷ 0 ∷ 0 ∷ 0 ∷ 0 ∷ 0 ∷ 0 ∷ 0 ∷ 0 ∷ 2 ∷ 19 ∷ 1
    ∷ 1 ∷ 0 ∷ 0 ∷ 12 ∷ 0 ∷ 0 ∷ 0 ∷ 8 ∷ 0 ∷ 6 ∷ 0 ∷ 0 ∷ 3 ∷ 97 ∷ 46 ∷ 66 ∷ []

-- www.ex.org, at index 1: the domain of second level starts at 5.
second_level :
    find_nld (0 ∷ 119 ∷ 119 ∷ 119 ∷ 46 ∷ 101 ∷ 120 ∷ 46 ∷ 111 ∷ 114 ∷ 103 ∷ []) 1 10 2
    ≡ some (some (5, 2))
unfolding find_nld up nld_at back
second_level = refl

tls_pos-Returns_example : Returns (Within 64) (tls_pos host_endsld (negsuc 0) hello 0 64)
tls_pos-Returns_example = tls_pos-Returns host_endsld (negsuc 0) hello 0 64 (omega arith)
