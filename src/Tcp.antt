-- ===== src/Tcp.antt =====
-- nfq2/darkmagic.c, `tcp_find_option` to `tcp_syn_segment`. A header has its fields in host order;
-- `options` are the bytes from the end of the fixed part up to `th_off << 2`.
pub mod Options
mod Examples
use zapret.Base.{
  ℕ, zero, suc, ◌+◌, List, Option, none, some, Bool, ◌||◌, ltb, leb, ◌==◌, if◌then◌else◌, get_elem?,
  length, bit_and,
}
use zapret.Memory.{◌>>=◌}
use zapret.Bytes.{pntoh16}

pub record Tcp : Type 0 where
  pub sport : ℕ
  pub dport : ℕ
  pub seq : ℕ
  pub ack : ℕ
  pub flags : ℕ
  pub win : ℕ
  pub options : List ℕ

-- TH_FIN, TH_SYN, TH_RST, TH_PUSH, TH_ACK, TH_URG are the bits from the lowest on.
unfoldable pub tcp_synack_segment : Tcp → Bool
tcp_synack_segment t = bit_and t.flags 0x3f == 0x12

unfoldable pub tcp_syn_segment : Tcp → Bool
tcp_syn_segment t = bit_and t.flags 0x3f == 0x02

-- TH_FIN | TH_RST.
unfoldable pub ends_connection : Tcp → Bool
ends_connection t = if bit_and t.flags 0x05 == 0 then Bool.false else Bool.true

-- The walk over the options from `t` on, with fuel. The inner option is the pointer returned; the
-- outer `none` is a read outside the header, or the end of the fuel.
unfoldable pub find_option : ℕ → List ℕ → ℕ → ℕ → Option (Option ℕ)
find_option zero options kind t = if leb (length options) t then some none else none
find_option (suc fuel) options kind t =
    let next = find_option fuel options kind (t + 1) in
    let skip = λ (len : ℕ). find_option fuel options kind (t + len) in
    if leb (length options) t then some none else do
      k ← get_elem? options t
      if k == 0
          then some none
          else if k == 1
          then next
          else if leb (length options) (t + 1)
          then some none
          else do
            len ← get_elem? options (t + 1)
            let rest = skip len
            if ltb len 2 || ltb (length options) (t + len)
                then some none
                else if k == kind
                then some (some t)
                else rest

unfoldable pub tcp_find_option : Tcp → ℕ → Option (Option ℕ)
tcp_find_option tcp kind = find_option (length tcp.options) tcp.options kind 0

-- `SCALE_NONE`.
abbrev pub scale_none : ℕ
scale_none = 255

-- The byte behind a scale option of the right length.
unfoldable pub read_scale : List ℕ → Option ℕ → Option ℕ
read_scale options none = some scale_none
read_scale options (some t) = do
  len ← get_elem? options (t + 1)
  let scale = get_elem? options (t + 2)
  if len == 3 then scale else some scale_none

-- TCP_KIND_SCALE is 3.
unfoldable pub tcp_find_scale_factor : Tcp → Option ℕ
tcp_find_scale_factor tcp = tcp_find_option tcp 3 >>= read_scale tcp.options

-- The word behind a segment size option of the right length.
unfoldable pub read_mss : List ℕ → Option ℕ → Option ℕ
read_mss options none = some 0
read_mss options (some t) = do
  len ← get_elem? options (t + 1)
  let mss = pntoh16 options (t + 2)
  if len == 4 then mss else some 0

-- TCP_KIND_MSS is 2.
unfoldable pub tcp_find_mss : Tcp → Option ℕ
tcp_find_mss tcp = tcp_find_option tcp 2 >>= read_mss tcp.options
