-- ===== src/Reasm.antt =====
-- nfq2/conntrack.c, `ReasmInit` to `ReasmHasSpace`, and the inline tests of nfq2/conntrack.h: the
-- buffer in which the start of a stream is put together. It takes segments that overlap what is
-- there, and no gaps.
pub mod Invariant
pub mod Stream
pub mod Session
mod Examples
use zapret.Base.{
  ℕ, ◌+◌, ◌-◌, ◌^◌, List, Option, none, some, Bool, true, false, not, ◌&&◌, ltb, leb, ◌==◌,
  if◌then◌else◌, length, drop, take,
}
use zapret.Base.Bits.{u32, u64}
use zapret.Memory.{◌>>=◌, store, minus64}

-- `packet` is null or an allocated buffer.
pub record Reasm : Type 0 where
  pub packet : Option (List ℕ)
  pub seq : ℕ
  pub size : ℕ
  pub size_present : ℕ

pub clear : Reasm → Reasm
clear r = record r { packet = none; size = 0; size_present = 0 }

-- `allocated` is what `malloc(size_requested)` gives.
pub init : Option (List ℕ) → Reasm → ℕ → ℕ → Reasm × Bool
init none r size_requested seq_start = (record r { packet = none }, false)
init (some buffer) r size_requested seq_start = (
  record { packet = some buffer; seq = seq_start; size = size_requested; size_present = 0 },
  true,
)

-- `moved` is what `realloc(packet, new_size)` gives.
pub resize : Option (List ℕ) → Reasm → ℕ → Reasm × Bool
resize none r new_size = (r, false)
resize (some buffer) r new_size = (
  record r {
    packet = some buffer;
    size = new_size;
    size_present = if ltb new_size r.size_present then new_size else r.size_present;
  },
  true,
)

-- `REASM_MAX_NEG`.
abbrev pub max_neg : ℕ
max_neg = 0x100000

-- `a - b` in `uint32_t`.
abbrev pub sub32 : ℕ → ℕ → ℕ
sub32 a b = u32 (a + 2 ^ 32 - b)

-- `memcpy` to the buffer; through the null pointer it faults.
abbrev copy_to : Option (List ℕ) → ℕ → List ℕ → Option (List ℕ)
copy_to none at bytes = none
copy_to (some buffer) at bytes = store buffer at bytes

-- The position after `szcopy` bytes were written from `overlap` bytes before it.
pub advance : Reasm → List ℕ → ℕ → ℕ → Reasm
advance r buffer szcopy overlap =
    if ltb overlap szcopy
    then record r {
      packet = some buffer;
      size_present = u64 (r.size_present + (szcopy - overlap));
      seq = u32 (r.seq + sub32 (u32 szcopy) overlap);
    }
    else record r { packet = some buffer }

-- The copy and the update of the position. `ignored` bytes of the payload are dropped, and the
-- first of the rest goes `overlap` bytes before the end of what is present; a write before the
-- buffer faults.
pub place : Reasm → List ℕ → ℕ → ℕ → ℕ → Option (Reasm × Bool)
place r payload ignored szcopy overlap = if ltb r.size_present overlap then none else do
  buffer ← copy_to r.packet (r.size_present - overlap) (take szcopy (drop ignored payload))
  some (advance r buffer szcopy overlap, true)

-- How much of the payload lies before the first byte of the buffer.
pub ignored : Reasm → ℕ → ℕ
ignored r neg_overlap = if ltb r.size_present neg_overlap then neg_overlap - r.size_present else 0

-- The tests of `ReasmFeed`, from `dseq` and `neg_overlap` on.
pub feed_at : Reasm → List ℕ → ℕ → ℕ → ℕ → Option (Reasm × Bool)
feed_at r payload dseq neg_overlap szignore =
    if not (dseq == 0) && ltb dseq max_neg
    then some (r, false)
    else if ltb max_neg neg_overlap
    then some (r, false)
    else if leb (length payload) szignore
    then some (r, true)
    else if ltb r.size
        (u64 (minus64 r.size_present (neg_overlap - szignore) + (length payload - szignore)))
    then some (r, false)
    else place r payload szignore (length payload - szignore) (neg_overlap - szignore)

-- The fault is a write outside the buffer. `false` means that the session has failed.
pub feed : Reasm → ℕ → List ℕ → Option (Reasm × Bool)
feed r seq payload =
    feed_at r payload (sub32 seq r.seq) (sub32 r.seq seq) (ignored r (sub32 r.seq seq))

pub has_space : Reasm → ℕ → Bool
has_space r len = leb (u64 (r.size_present + len)) r.size

pub is_empty : Reasm → Bool
is_empty r = r.size == 0

pub is_full : Reasm → Bool
unfolding is_empty
is_full r = not (is_empty r) && (r.size == r.size_present)
