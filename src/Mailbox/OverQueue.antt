-- ===== src/Mailbox/OverQueue.antt =====
-- The queue of include/queue.h, as `raw`, `mutex` and `spinlock` run it, as the queue of a mailbox.
use lock_free.Common.{◌≡◌, refl, inl, inr, ◌⊎◌, List, [], ◌∷◌}
use lock_free.Types.{Result, success, empty, DsImpl}
use lock_free.Command.{returns, mono}
use lock_free.NodeArena.{NodeArena}
use lock_free.Queue.Ops.{Queue, push_imp_default, pop_imp_default, empty_imp}
use lock_free.Queue.Contents.{Holds}
use lock_free.Queue.Refine.{
  Dequeued, push_imp_default-Enqueued, pop_imp_default-Dequeued, empty_imp-Holds,
}
use lock_free.Mailbox.{Fifo}

module _ {V : Type 0} (arena : NodeArena V) (imp : DsImpl) where
  open arena use {State}

  pub Dequeued-cases :
      (v : V) (vs : List V) (r : Result × V) (q : Queue State)
      → Dequeued arena v vs r q
      → ((vs ≡ []) × (r ≡ (empty, v)) × Holds arena q vs)
        ⊎ ((x : V) × (ws : List V) × (vs ≡ x ∷ ws) × (r ≡ (success, x)) × Holds arena q ws)
  Dequeued-cases v [] r q (e, h) = inl (refl, e, h)
  Dequeued-cases v (x ∷ ws) r q (e, h) = inr (x, ws, refl, e, h)

  abbrev pub queue_fifo : Fifo V
  queue_fifo = record {
    State = Queue State;
    push = push_imp_default arena imp;
    pop = pop_imp_default arena imp;
    is_empty = empty_imp arena imp;
    Holds = Holds arena;
    Ready = λ q. arena.Ready q.nodes;
    push_law = λ v q vs h ready. push_imp_default-Enqueued arena imp q vs v h ready;
    pop_law = λ v q vs h.
        mono (pop_imp_default-Dequeued arena imp q vs v h)
          (λ r q' out. returns (Dequeued-cases v vs r q' out));
    is_empty_law = λ q vs h. empty_imp-Holds arena imp q vs h;
  }
