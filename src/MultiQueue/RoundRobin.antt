-- ===== src/MultiQueue/RoundRobin.antt =====
-- `pop` and `push` of `multi_queue`, include/multi_queue.h, reach one queue and leave the others.
use lock_free.Common.{
  ℕ, zero, suc, ◌+◌, ◌≤◌, ◌<◌, ◌≡◌, refl, Bool, some, List, [], ◌∷◌, arith, ltb, if◌then◌else◌,
  length, get_or, set, count_calm,
}
use lock_free.Types.{Result, success, empty, lockfree}
use lock_free.Command.{Command, Returns, returns, mono, through}
use lock_free.NodeArena.{NodeArena}
use lock_free.Queue.Ops.{Queue}
use lock_free.Queue.LockFree as QueueLockFree
use lock_free.Queue.Progress.{HoldsLoose}
use lock_free.Queue.PopProgress.{pop_imp_lockfree-DequeuedLoose}
use lock_free.MultiQueue.{MultiQueue, on_queue, pop_at, pop}

module _ {V : Type 0} (arena : NodeArena V) where
  open arena use {State}

  -- The queues hold these sequences.
  pub data Queues : List (Queue State) → List (List V) → Type 0 where
    none_left : Queues [] []
    one_more :
        {q : Queue State} {qs : List (Queue State)} {vs : List V} {vss : List (List V)}
        → HoldsLoose arena q vs
        → Queues qs vss
        → Queues (q ∷ qs) (vs ∷ vss)

  -- A call on one queue, by what it does to the sequence of that queue.
  module _ {B : Type 0} (m : Command (Queue State) B) (P : List V → B → List V → Type 0)
      (law : (q : Queue State) (vs : List V)
        → HoldsLoose arena q vs
        → Returns (λ b q'. (vs' : List V) × HoldsLoose arena q' vs' × P vs b vs') (m q)) where
    Reaches : ℕ → List (List V) → B → List (Queue State) → Type 0
    Reaches id vss b qs' = (vs' : List V) × Queues qs' (set vss id vs') × P (get_or vss id []) b vs'

    on_queue-Queues :
        (id : ℕ) (qs : List (Queue State)) (vss : List (List V))
        → id < length qs
        → Queues qs vss
        → Returns (Reaches id vss) (on_queue id m qs)
    unfolding on_queue Reaches
    on_queue-Queues id [] vss bound none_left = absurd (omega arith)
    on_queue-Queues zero (q ∷ qs) (vs ∷ vss) bound (one_more h rest) =
        through (λ b q'. some (b, q' ∷ qs)) (law q vs h)
          (λ b q' (vs', h', p). returns (vs', one_more h' rest, p))
    on_queue-Queues (suc id) (q ∷ qs) (vs ∷ vss) bound (one_more h rest) =
        through (λ b qs'. some (b, q ∷ qs')) (on_queue-Queues id qs vss (omega arith) rest)
          (λ b qs' (vs', r, p). returns (vs', one_more h r, p))
    on_queue-Queues zero (q ∷ qs) [] bound x = elim x [ ]
    on_queue-Queues (suc id) (q ∷ qs) [] bound x = elim x [ ]

  -- What a `pop` takes from a sequence.
  abbrev pub Taken : V → List V → Result × V → List V → Type 0
  Taken v [] r vs' = (r ≡ (empty, v)) × (vs' ≡ [])
  Taken v (x ∷ vs) r vs' = (r ≡ (success, x)) × (vs' ≡ vs)

  queue_pop-Taken :
      (rounds : List Bool) (v : V)
      → 1 ≤ count_calm rounds
      → (q : Queue State) (vs : List V) → HoldsLoose arena q vs
      → Returns
          (λ r q'. (vs' : List V) × HoldsLoose arena q' vs' × Taken v vs r vs')
          (QueueLockFree.pop arena lockfree rounds v q)
  unfolding QueueLockFree.pop
  queue_pop-Taken rounds v enough q [] h =
      mono (pop_imp_lockfree-DequeuedLoose arena rounds q [] v enough h)
        (λ r q' (e, h'). returns ([], h', (e, refl)))
  queue_pop-Taken rounds v enough q (x ∷ vs) h =
      mono (pop_imp_lockfree-DequeuedLoose arena rounds q (x ∷ vs) v enough h)
        (λ r q' (e, h'). returns (vs, h', (e, refl)))

  -- What `pop` leaves: one queue has given its first item, and the next call asks the next queue.
  pub record Popped (v : V) (vss : List (List V)) (mq : MultiQueue State) (r : Result × V)
      (mq' : MultiQueue State) : Type 0 where
    pub left : List V
    pub queues : Queues mq'.array (set vss mq.ndx_pop left)
    pub taken : Taken v (get_or vss mq.ndx_pop []) r left
    pub next : mq'.ndx_pop ≡ (if ltb (mq.ndx_pop + 1) (length mq.array) then mq.ndx_pop + 1 else 0)
    pub inside : mq'.ndx_pop < length mq.array

  -- Over any arena of nodes that keeps the laws of `NodeArena`, with no other thread between: on
  -- an array of queues that hold the sequences `vss`, with an index of the next queue that lies
  -- inside the array, and when one round of the loop at least does not fail for no reason, `pop`
  -- without an index returns; it gives the first item of the queue that the index names, which
  -- loses it, or empty where there is none; the other queues hold what they held, and the index
  -- moves to the next queue, round the array, and stays inside.
  pub pop-RoundRobin :
      (size_bits : ℕ) (rounds : List Bool) (mq : MultiQueue State) (vss : List (List V)) (v : V)
      → 1 ≤ count_calm rounds
      → mq.ndx_pop < length mq.array
      → Queues mq.array vss
      → Returns (Popped v vss mq) (pop arena size_bits rounds v mq)
  unfolding pop pop_at Reaches
  pop-RoundRobin size_bits rounds mq vss v enough bound qs =
      let next = if ltb (mq.ndx_pop + 1) (length mq.array) then mq.ndx_pop + 1 else 0 in
      through (λ r qs'. some (r, record mq { ndx_pop = next; array = qs' }))
        (on_queue-Queues (QueueLockFree.pop arena lockfree rounds v) (Taken v)
          (queue_pop-Taken rounds v enough) mq.ndx_pop mq.array vss bound qs)
        (λ r qs' (left, queues, taken). returns (record {
          left = left;
          queues = queues;
          taken = taken;
          next = refl;
          inside = ground arith;
        }))
