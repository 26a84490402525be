-- ===== src/Conntrack/Reply.antt =====
-- ConntrackExtractConn on a packet and on its reply.
use zapret.Base.{ℕ, ◌≡◌, refl, inl, inr, Option, none, some, false, ◌==◌, Bool-cases}
use zapret.Memory.{◌>>=◌}
use zapret.Packet.{Ip, Ip6, Udp, Dissect, extract_ports, ipproto_none, ipproto_ip, ipproto_ipv6}
use zapret.Tcp.{Tcp}
use zapret.Conntrack.{connswap, with_ports, extract_conn, conntrack_extract_conn}

-- The packet of the other direction.
abbrev reply_ip : Option Ip → Option Ip
reply_ip none = none
reply_ip (some ip) = some (record { src = ip.dst; dst = ip.src })

abbrev reply_ip6 : Option Ip6 → Option Ip6
reply_ip6 none = none
reply_ip6 (some ip6) = some (record ip6 { src = ip6.dst; dst = ip6.src })

abbrev reply_tcp : Option Tcp → Option Tcp
reply_tcp none = none
reply_tcp (some tcp) = some (record tcp { sport = tcp.dport; dport = tcp.sport })

abbrev reply_udp : Option Udp → Option Udp
reply_udp none = none
reply_udp (some udp) = some (record { sport = udp.dport; dport = udp.sport })

abbrev pub reply : Dissect → Dissect
reply dis = record dis {
  ip = reply_ip dis.ip;
  ip6 = reply_ip6 dis.ip6;
  tcp = reply_tcp dis.tcp;
  udp = reply_udp dis.udp;
}

abbrev swapped : ℕ × ℕ × ℕ → ℕ × ℕ × ℕ
swapped (l4, sport, dport) = (l4, dport, sport)

ports_reply :
    (tcp : Option Tcp) (udp : Option Udp)
    → extract_ports (reply_tcp tcp) (reply_udp udp) ≡ swapped (extract_ports tcp udp)
unfolding extract_ports
ports_reply (some tcp) udp = refl
ports_reply none (some udp) = refl
ports_reply none none = refl

with_ports_reply :
    (src dst l3 : ℕ) (ports : ℕ × ℕ × ℕ)
    → with_ports false dst src l3 (swapped ports)
      ≡ (with_ports false src dst l3 ports >>= λ c. some (connswap c))
unfolding with_ports
with_ports_reply src dst l3 ports = elim (Bool-cases (ports.0 == ipproto_none)) [
  | inl neither ↦ rw neither refl
  | inr either ↦ rw either refl
]

extract_conn_reply :
    (ip : Option Ip) (ip6 : Option Ip6) (ports : ℕ × ℕ × ℕ)
    → extract_conn false (reply_ip ip) (reply_ip6 ip6) (swapped ports)
      ≡ (extract_conn false ip ip6 ports >>= λ c. some (connswap c))
unfolding extract_conn
extract_conn_reply (some ip) ip6 ports = with_ports_reply ip.src ip.dst ipproto_ip ports
extract_conn_reply none (some ip6) ports = with_ports_reply ip6.src ip6.dst ipproto_ipv6 ports
extract_conn_reply none none ports = refl

-- The key of a reply is the reverse of the packet's key.
pub extract-reply :
    (dis : Dissect)
    → conntrack_extract_conn false (reply dis)
      ≡ (conntrack_extract_conn false dis >>= λ c. some (connswap c))
extract-reply dis =
    rw ports_reply (extract_conn_reply dis.ip dis.ip6 (extract_ports dis.tcp dis.udp))
