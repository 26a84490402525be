-- ===== src/Queue/Examples.antt =====
-- Two packets are queued, with a failed allocation between them, and one is taken.
use zapret.Base.{ℕ, ◌≡◌, refl, ◌++◌, List, [], ◌∷◌, none, some, true, false, arith}
use zapret.Memory.Safe.{Returns}
use zapret.Queue.{Request, rawpacket_queue, rawpacket_dequeue, packet_of, copy_bytes}
use zapret.Queue.Order.{Op, put, get, Trace, run, run-Returns, listed}

abbrev request : ℕ → Request
request n = record {
  dst = 1;
  fwmark_orig = 0;
  fwmark = 2;
  ifin = some (101 ∷ 48 ∷ []);
  ifout = none;
  data_at = n ∷ n ∷ 9 ∷ [];
  len = 2;
  len_payload = 1;
  tpos = none;
  server_side = false;
}

abbrev ops : List Op
ops = put true true (request 5) ∷ put true false (request 6) ∷ put true true (request 7) ∷ get ∷ []

first_out :
    run [] ops
    ≡ some (record {
      queued = packet_of (request 5) (5 ∷ 5 ∷ []) ∷ packet_of (request 7) (7 ∷ 7 ∷ []) ∷ [];
      taken = packet_of (request 5) (5 ∷ 5 ∷ []) ∷ [];
      left = packet_of (request 7) (7 ∷ 7 ∷ []) ∷ [];
    })
unfolding run rawpacket_queue rawpacket_dequeue copy_bytes listed
first_out = refl

run-Returns_example : Returns (λ (t : Trace). t.taken ++ t.left ≡ [] ++ t.queued) (run [] ops)
run-Returns_example = run-Returns [] ops (omega arith, (omega arith, (omega arith, (tt, tt))))
