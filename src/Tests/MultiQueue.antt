-- ===== src/Tests/MultiQueue.antt =====
-- The theorem on the multi queue at two queues, the first of them empty.
use lock_free.Common.{ℕ, true, false, [], ◌∷◌, arith}
use lock_free.Types.{Node}
use lock_free.Command.{Returns}
use lock_free.Arena.{World}
use lock_free.MultiQueue.{MultiQueue, pop}
use lock_free.MultiQueue.RoundRobin.{Queues, none_left, one_more, Popped, pop-RoundRobin}
use lock_free.Tests.LockFree.{
  loose_nodes, loose_queue, loose_queue-Holds, stale_queue, stale_queue-Holds,
}

abbrev two_queues : MultiQueue (World (Node ℕ))
two_queues = record {
  th_map = record { map = []; counter = 0 };
  array = stale_queue ∷ loose_queue ∷ [];
  ndx_pop = 1;
}

both_hold : Queues loose_nodes (stale_queue ∷ loose_queue ∷ []) ([] ∷ (7 ∷ []) ∷ [])
both_hold = one_more stale_queue-Holds (one_more loose_queue-Holds none_left)

pop-RoundRobin_example :
    Returns
      (Popped loose_nodes 0 ([] ∷ (7 ∷ []) ∷ []) two_queues)
      (pop loose_nodes 32 (true ∷ false ∷ []) 0 two_queues)
pop-RoundRobin_example =
    pop-RoundRobin loose_nodes 32 (true ∷ false ∷ []) two_queues ([] ∷ (7 ∷ []) ∷ []) 0
      (omega arith) (omega arith) both_hold
