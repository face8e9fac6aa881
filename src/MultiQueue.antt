-- ===== src/MultiQueue.antt =====
-- `multi_queue` of include/multi_queue.h: an array of lock-free queues, each with the state of its
-- own arena. `tid` is the thread that calls; the calls have no other thread between. An index
-- outside the array fails the assertion.
pub mod RoundRobin
use lock_free.Common.{
  ℕ, zero, suc, ◌+◌, ◌%◌, ◌^◌, Bool, none, some, List, [], ◌∷◌, ltb, if◌then◌else◌, length,
}
use lock_free.Types.{Result, lockfree}
use lock_free.Command.{Command, pure, ◌>>=◌, ◌>>◌}
use lock_free.ThreadMap.{ThreadMap}
use lock_free.ThreadMap
use lock_free.NodeArena.{NodeArena}
use lock_free.Queue.Ops.{Queue, size_imp}
use lock_free.Queue.Ops as QueueOps
use lock_free.Queue.LockFree as QueueLockFree

-- `m_th_map`, `m_array` and `m_ndx_pop`
pub record MultiQueue (S : Type 0) : Type 0 where
  pub th_map : ThreadMap
  pub array : List (Queue S)
  pub ndx_pop : ℕ

module _ {S : Type 0} where
  -- A call on `m_array[id]`.
  unfoldable pub on_queue : {B : Type 0} → ℕ → Command (Queue S) B → Command (List (Queue S)) B
  on_queue id m [] = none
  on_queue zero m (q ∷ qs) = elim (m q) [ none ↦ none | some (b, q') ↦ some (b, q' ∷ qs) ]
  on_queue (suc id) m (q ∷ qs) = elim (on_queue id m qs) [
    | none ↦ none
    | some (b, qs') ↦ some (b, q ∷ qs')
  ]

  abbrev pub in_array : {B : Type 0} → Command (List (Queue S)) B → Command (MultiQueue S) B
  in_array m mq = elim (m mq.array) [
    | none ↦ none
    | some (b, qs) ↦ some (b, record mq { array = qs })
  ]

module _ {V : Type 0} (arena : NodeArena V) (size_bits : ℕ) where
  open arena use {State}

  -- The loop of `clear` over the array.
  unfoldable pub clear_all : Command (List (Queue State)) (Unit {0})
  clear_all [] = some (tt, [])
  clear_all (q ∷ qs) = elim (QueueOps.clear arena q) [
    | none ↦ none
    | some (_, q') ↦ elim (clear_all qs) [ none ↦ none | some (_, qs') ↦ some (tt, q' ∷ qs') ]
  ]

  unfoldable pub clear : Command (MultiQueue State) (Unit {0})
  clear = in_array clear_all

  -- The loop of `size`; the sum wraps.
  unfoldable pub size_all : (total : ℕ) → Command (List (Queue State)) ℕ
  size_all total [] = some (total, [])
  size_all total (q ∷ qs) = elim (size_imp arena lockfree q) [
    | none ↦ none
    | some (n, q') ↦ elim (size_all ((total + n) % 2 ^ size_bits) qs) [
      | none ↦ none
      | some (m, qs') ↦ some (m, q' ∷ qs')
    ]
  ]

  unfoldable pub size : Command (MultiQueue State) ℕ
  size = in_array (size_all 0)

  unfoldable pub size_at : (id : ℕ) → Command (MultiQueue State) ℕ
  size_at id = in_array (on_queue id (size_imp arena lockfree))

  unfoldable pub push_at : (id : ℕ) → List Bool → V → Command (MultiQueue State) Result
  push_at id rounds item = in_array (on_queue id (QueueLockFree.push arena lockfree rounds item))

  unfoldable pub get_id : (tid : ℕ) → Command (MultiQueue State) ℕ
  get_id tid mq =
      let (number, th_map) = ThreadMap.add size_bits tid mq.th_map in
      some (number % length mq.array, record mq { th_map = th_map })

  unfoldable pub push : (tid : ℕ) → List Bool → V → Command (MultiQueue State) Result
  push tid rounds item = get_id tid >>= λ id. push_at id rounds item

  unfoldable pub pop_at : (id : ℕ) → List Bool → V → Command (MultiQueue State) (Result × V)
  pop_at id rounds item = in_array (on_queue id (QueueLockFree.pop arena lockfree rounds item))

  -- `m_ndx_pop` moves on, and the queue it named is asked.
  unfoldable pub pop : List Bool → V → Command (MultiQueue State) (Result × V)
  pop rounds item mq =
      let qid = mq.ndx_pop in
      let next = if ltb (qid + 1) (length mq.array) then qid + 1 else 0 in
      pop_at qid rounds item (record mq { ndx_pop = next })
