-- ===== src/Queue.antt =====
-- nfq2/packet_queue.c: the packets that wait for the rest of a message. The tail queue of
-- `sys/queue.h` is the list of its packets, the first in front.
pub mod Order
mod Examples
use zapret.Base.{
  ℕ, zero, suc, ◌+◌, ◌<◌, List, [], ◌∷◌, ◌++◌, Option, none, some, Bool, true, false, if◌then◌else◌,
  take, get_elem?,
}
use zapret.Memory.{◌>>=◌}
use zapret.Track.{Positions}

-- `struct rawpacket`; the names end before their final zero, `tpos` is `none` if not present.
pub record RawPacket : Type 0 where
  pub dst : ℕ
  pub ifin : List ℕ
  pub ifout : List ℕ
  pub fwmark_orig : ℕ
  pub fwmark : ℕ
  pub len : ℕ
  pub len_payload : ℕ
  pub packet : List ℕ
  pub tpos : Option Positions
  pub server_side : Bool

unfoldable pub rawpacket_queue_init : List RawPacket
rawpacket_queue_init = []

-- The packet that was first, and the rest of the queue.
unfoldable pub rawpacket_dequeue : List RawPacket → Option RawPacket × List RawPacket
rawpacket_dequeue [] = (none, [])
rawpacket_dequeue (rp ∷ q) = (some rp, q)

-- The loop, with the packets in the order in which they are freed.
unfoldable pub rawpacket_queue_destroy :
    List RawPacket → List RawPacket → List RawPacket × List RawPacket
rawpacket_queue_destroy freed [] = (freed, [])
rawpacket_queue_destroy freed (rp ∷ q) = rawpacket_queue_destroy (freed ++ rp ∷ []) q

-- `snprintf` into 16 bytes, the final zero included; NULL gives the empty name.
unfoldable pub copy_name : Option (List ℕ) → List ℕ
copy_name none = []
copy_name (some name) = take 15 name

-- `memcpy`: `len` bytes from the start of the data.
unfoldable pub copy_bytes : ℕ → List ℕ → Option (List ℕ)
copy_bytes zero d = some []
copy_bytes (suc len) [] = none
copy_bytes (suc len) (b ∷ d) = do rest ← copy_bytes len d; some (b ∷ rest)

-- What the caller passes.
pub record Request : Type 0 where
  pub dst : ℕ
  pub fwmark_orig : ℕ
  pub fwmark : ℕ
  pub ifin : Option (List ℕ)
  pub ifout : Option (List ℕ)
  pub data_at : List ℕ
  pub len : ℕ
  pub len_payload : ℕ
  pub tpos : Option Positions
  pub server_side : Bool

unfoldable pub packet_of : Request → List ℕ → RawPacket
packet_of r bytes = record {
  dst = r.dst;
  ifin = copy_name r.ifin;
  ifout = copy_name r.ifout;
  fwmark_orig = r.fwmark_orig;
  fwmark = r.fwmark;
  len = r.len;
  len_payload = r.len_payload;
  packet = bytes;
  tpos = r.tpos;
  server_side = r.server_side;
}

-- `mem_rp` and `mem_packet` say whether the two allocations succeed. The answer is the packet, or
-- `none` for NULL.
unfoldable pub rawpacket_queue :
    Bool → Bool → List RawPacket → Request → Option (Option RawPacket × List RawPacket)
rawpacket_queue mem_rp mem_packet q r =
    if mem_rp
    then (if mem_packet
        then (do
          bytes ← copy_bytes r.len r.data_at
          some (some (packet_of r bytes), q ++ packet_of r bytes ∷ []))
        else some (none, q))
    else some (none, q)

unfoldable pub rawpacket_queue_count : List RawPacket → ℕ
rawpacket_queue_count [] = 0
rawpacket_queue_count (rp ∷ q) = suc (rawpacket_queue_count q)

unfoldable pub rawpacket_queue_empty : List RawPacket → Bool
rawpacket_queue_empty [] = true
rawpacket_queue_empty (rp ∷ q) = false
