-- ===== src/Packet.antt =====
-- The dissected packet of nfq2/darkmagic.h (`struct dissect`) as the connection tracker reads it:
-- headers with their fields in host order, and `extract_ports` of nfq2/darkmagic.c.
use zapret.Base.{ℕ, Option, none, some}
use zapret.Tcp.{Tcp}

pub record Ip : Type 0 where
  pub src : ℕ
  pub dst : ℕ

-- `flow` is the first word of the header.
pub record Ip6 : Type 0 where
  pub src : ℕ
  pub dst : ℕ
  pub flow : ℕ

pub record Udp : Type 0 where
  pub sport : ℕ
  pub dport : ℕ

pub record Dissect : Type 0 where
  pub ip : Option Ip
  pub ip6 : Option Ip6
  pub tcp : Option Tcp
  pub udp : Option Udp
  pub len_payload : ℕ

abbrev pub ipproto_ip : ℕ
ipproto_ip = 0

abbrev pub ipproto_tcp : ℕ
ipproto_tcp = 6

abbrev pub ipproto_udp : ℕ
ipproto_udp = 17

abbrev pub ipproto_ipv6 : ℕ
ipproto_ipv6 = 41

abbrev pub ipproto_none : ℕ
ipproto_none = 59

-- Protocol, source port and destination port.
unfoldable pub extract_ports : Option Tcp → Option Udp → ℕ × ℕ × ℕ
extract_ports (some t) udp = (ipproto_tcp, t.sport, t.dport)
extract_ports none (some u) = (ipproto_udp, u.sport, u.dport)
extract_ports none none = (ipproto_none, 0, 0)
