-- ===== src/Queue/Order.antt =====
-- Over any sequence of operations the queue loses nothing and keeps the order.
use zapret.Base.{
  ℕ, zero, suc, ◌≤◌, ◌≡◌, refl, sym, List, [], ◌∷◌, ◌++◌, Option, none, some, Bool, true, false,
  arith, length, ap, ◌∙◌, All, take,
}
use zapret.Memory.{◌>>=◌}
use zapret.Memory.Safe.{Returns, bind-Returns}
use zapret.Queue.{RawPacket, rawpacket_dequeue, copy_bytes, Request, rawpacket_queue}
use mathlib.Core.List.{append_assoc, append-nil}

-- The operations of a caller: to queue a packet, with the results of the allocations, or to take
-- one.
pub data Op : Type 0 where
  put : Bool → Bool → Request → Op
  get : Op

-- What an operation adds and takes.
pub record Trace : Type 0 where
  pub queued : List RawPacket
  pub taken : List RawPacket
  pub left : List RawPacket

unfoldable pub listed : Option RawPacket → List RawPacket
listed none = []
listed (some rp) = rp ∷ []

-- The operations in order, from a queue.
unfoldable pub run : List RawPacket → List Op → Option Trace
run q [] = some (record { queued = []; taken = []; left = q })
run q (put mem_rp mem_packet r ∷ ops) = do
  (added, q') ← rawpacket_queue mem_rp mem_packet q r
  t ← run q' ops
  some (record t { queued = listed added ++ t.queued })
run q (get ∷ ops) = do
  t ← run (rawpacket_dequeue q).1 ops
  some (record t { taken = listed (rawpacket_dequeue q).0 ++ t.taken })

-- The data of a request may be read.
abbrev pub Readable : Op → Type 0
Readable (put mem_rp mem_packet r) = r.len ≤ length r.data_at
Readable get = Unit {0}

pub copy_bytes-Returns :
    (len : ℕ) (d : List ℕ)
    → len ≤ length d
    → Returns (λ (r : List ℕ). r ≡ take len d) (copy_bytes len d)
unfolding copy_bytes
copy_bytes-Returns zero d h = ([], refl, refl)
copy_bytes-Returns (suc len) [] h = absurd (omega arith)
copy_bytes-Returns (suc len) (b ∷ d) h =
    bind-Returns (λ (r : List ℕ). r ≡ take len d) _ (copy_bytes len d) _
      (copy_bytes-Returns len d (omega arith)) (λ rest _ e. (b ∷ rest, refl, ap (λ r. b ∷ r) e))

-- What a call adds stands at the end.
rawpacket_queue-Returns :
    (mem_rp mem_packet : Bool) (q : List RawPacket) (r : Request)
    → r.len ≤ length r.data_at
    → Returns
        (λ (a : Option RawPacket × List RawPacket). a.1 ≡ q ++ listed a.0)
        (rawpacket_queue mem_rp mem_packet q r)
unfolding rawpacket_queue listed
rawpacket_queue-Returns true true q r fits =
    bind-Returns (λ (b : List ℕ). b ≡ take r.len r.data_at) _ (copy_bytes r.len r.data_at) _
      (copy_bytes-Returns r.len r.data_at fits) (λ bytes _ _. (_, refl, refl))
rawpacket_queue-Returns true false q r fits = ((none, q), refl, sym (append-nil q))
rawpacket_queue-Returns false mem_packet q r fits = ((none, q), refl, sym (append-nil q))

dequeue_listed :
    (q : List RawPacket) → listed (rawpacket_dequeue q).0 ++ (rawpacket_dequeue q).1 ≡ q
unfolding listed rawpacket_dequeue
dequeue_listed [] = refl
dequeue_listed (rp ∷ q) = refl

-- For any sequence of operations on a queue whose requests name data that may be read, the
-- operations return, and the packets taken, followed by those left, are the packets that were there
-- at first, followed by those that were queued, each in order.
pub run-Returns :
    (q : List RawPacket) (ops : List Op)
    → All Readable ops
    → Returns (λ (t : Trace). t.taken ++ t.left ≡ q ++ t.queued) (run q ops)
unfolding run
run-Returns q [] h = (_, refl, sym (append-nil q))
run-Returns q (put mem_rp mem_packet r ∷ ops) h =
    bind-Returns _ _ (rawpacket_queue mem_rp mem_packet q r) _
      (rawpacket_queue-Returns mem_rp mem_packet q r h.0)
      (λ a _ at.
        bind-Returns (λ (t : Trace). t.taken ++ t.left ≡ a.1 ++ t.queued) _ (run a.1 ops) _
          (run-Returns a.1 ops h.1)
          (λ t _ e. (
            _,
            refl,
            e
                ∙ ap (λ (l : List RawPacket). l ++ t.queued) at
                ∙ append_assoc q (listed a.0) t.queued,
          )))
run-Returns q (get ∷ ops) h =
    bind-Returns (λ (t : Trace). t.taken ++ t.left ≡ (rawpacket_dequeue q).1 ++ t.queued) _
      (run (rawpacket_dequeue q).1 ops) _ (run-Returns (rawpacket_dequeue q).1 ops h.1)
      (λ t _ e. (
        _,
        refl,
        append_assoc (listed (rawpacket_dequeue q).0) t.taken t.left
            ∙ ap (λ (l : List RawPacket). listed (rawpacket_dequeue q).0 ++ l) e
            ∙ sym (append_assoc (listed (rawpacket_dequeue q).0) (rawpacket_dequeue q).1 t.queued)
            ∙ ap (λ (l : List RawPacket). l ++ t.queued) (dequeue_listed q),
      ))
