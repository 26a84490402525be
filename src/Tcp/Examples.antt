-- ===== src/Tcp/Examples.antt =====
-- The options of a usual SYN segment: segment size, no-operation, window scale.
use zapret.Base.{[], ◌∷◌}
use zapret.Tcp.{Tcp, tcp_find_option}
use zapret.Tcp.Options.{Finds, tcp_find_option-Finds}

abbrev syn : Tcp
syn = record {
  sport = 40000;
  dport = 443;
  seq = 1000;
  ack = 0;
  flags = 2;
  win = 64240;
  options = 2 ∷ 4 ∷ 5 ∷ 0xb4 ∷ 1 ∷ 3 ∷ 3 ∷ 7 ∷ [];
}

tcp_find_option-Finds_example : Finds syn.options 3 (tcp_find_option syn 3)
tcp_find_option-Finds_example = tcp_find_option-Finds syn 3
