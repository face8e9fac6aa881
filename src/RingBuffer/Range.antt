-- ===== src/RingBuffer/Range.antt =====
-- Where the threads on the ring buffer, include/ring_buffer.h, access its array.
use lock_free.Common.{
  ℕ, ◌<◌, inl, inr, Bool, not, ◌&&◌, ltb, ◌==◌, List, [], ◌∷◌, update, arith, Bool-cases,
}
use lock_free.RingBuffer.Ops.{is_empty, is_full}
use lock_free.RingBuffer.Threads.{
  Worker, outside, push_wrap, push_claim, push_write, push_publish, push_count, pop_wrap, pop_claim,
  pop_read, pop_release, pop_count, Move, call_push, call_pop, go_on, SharedRing, start_push,
  start_pop, go_step, step, run,
}

module _ {V : Type 0} (items size_bits : ℕ) where
  -- The slot that a thread accesses next is one of the array.
  abbrev pub InRange : Worker V → Type 0
  InRange (push_claim ndx v) = ndx < items
  InRange (push_write ndx v) = ndx < items
  InRange (push_publish ndx v) = ndx < items
  InRange (pop_claim ndx) = ndx < items
  InRange (pop_read ndx) = ndx < items
  InRange (pop_release ndx v) = ndx < items
  InRange outside = Unit {0}
  InRange (push_wrap v) = Unit {0}
  InRange push_count = Unit {0}
  InRange pop_wrap = Unit {0}
  InRange (pop_count v) = Unit {0}

  abbrev pub AllInRange : SharedRing V → Type 0
  AllInRange s = (u : ℕ) → InRange (s.worker u)

  goto-InRange :
      (f : ℕ → Worker V) (t : ℕ) (w : Worker V)
      → ((u : ℕ) → InRange (f u))
      → InRange w
      → (u : ℕ) → InRange (update f t w u)
  goto-InRange f t w all k u = elim (Bool-cases (u == t)) [
    | inl here ↦ rw here k
    | inr there ↦ rw there (all u)
  ]

  module _ (some_items : 0 < items) (s : SharedRing V) (all : AllInRange s) (t : ℕ) where
    start_push-InRange : (v : V) → AllInRange (start_push items size_bits t v s).1
    unfolding start_push
    start_push-InRange v = elim (Bool-cases (ltb items s.ndx_write)) [
      | inl past ↦ rw past all
      | inr near ↦ elim (Bool-cases (s.ndx_write == items)) [
        | inl end ↦ rw (near, end) (goto-InRange s.worker t (push_wrap v) all tt)
        | inr inside ↦
            rw (near, inside)
              (goto-InRange s.worker t (push_claim s.ndx_write v) all
                (ground (arith, near, inside)))
      ]
    ]

    start_pop-InRange : AllInRange (start_pop items size_bits t s).1
    unfolding start_pop
    start_pop-InRange = elim (Bool-cases (ltb items s.ndx_read)) [
      | inl past ↦ rw past all
      | inr near ↦ elim (Bool-cases (s.ndx_read == items)) [
        | inl end ↦ rw (near, end) (goto-InRange s.worker t pop_wrap all tt)
        | inr inside ↦
            rw (near, inside)
              (goto-InRange s.worker t (pop_claim s.ndx_read) all (ground (arith, near, inside)))
      ]
    ]

    go_step-InRange :
        (b : Bool) (w : Worker V) → InRange w → AllInRange (go_step items size_bits b t s w).1
    unfolding go_step
    go_step-InRange b outside k = all
    go_step-InRange b (push_wrap v) k = goto-InRange s.worker t (push_claim 0 v) all some_items
    go_step-InRange b (push_claim ndx v) k =
        elim (Bool-cases (is_empty (s.slot ndx).status && not b)) [
          | inl stored ↦ rw stored (goto-InRange s.worker t (push_write ndx v) all k)
          | inr failed ↦ rw failed (goto-InRange s.worker t outside all tt)
        ]
    go_step-InRange b (push_write ndx v) k = goto-InRange s.worker t (push_publish ndx v) all k
    go_step-InRange b (push_publish ndx v) k = goto-InRange s.worker t push_count all tt
    go_step-InRange b push_count k = goto-InRange s.worker t outside all tt
    go_step-InRange b pop_wrap k = goto-InRange s.worker t (pop_claim 0) all some_items
    go_step-InRange b (pop_claim ndx) k = elim (Bool-cases (is_full (s.slot ndx).status && not b)) [
      | inl stored ↦ rw stored (goto-InRange s.worker t (pop_read ndx) all k)
      | inr failed ↦ rw failed (goto-InRange s.worker t outside all tt)
    ]
    go_step-InRange b (pop_read ndx) k =
        goto-InRange s.worker t (pop_release ndx (s.slot ndx).content) all k
    go_step-InRange b (pop_release ndx v) k = goto-InRange s.worker t (pop_count v) all tt
    go_step-InRange b (pop_count v) k = goto-InRange s.worker t outside all tt

    step-InRange :
        (move : Move V) (w : Worker V) → InRange w → AllInRange (step items size_bits t move w s).1
    unfolding step
    step-InRange (call_push v) outside k = start_push-InRange v
    step-InRange call_pop outside k = start_pop-InRange
    step-InRange (go_on b) w k = go_step-InRange b w k
    step-InRange (call_push v) (push_wrap x) k = all
    step-InRange (call_push v) (push_claim i x) k = all
    step-InRange (call_push v) (push_write i x) k = all
    step-InRange (call_push v) (push_publish i x) k = all
    step-InRange (call_push v) push_count k = all
    step-InRange (call_push v) pop_wrap k = all
    step-InRange (call_push v) (pop_claim i) k = all
    step-InRange (call_push v) (pop_read i) k = all
    step-InRange (call_push v) (pop_release i x) k = all
    step-InRange (call_push v) (pop_count x) k = all
    step-InRange call_pop (push_wrap x) k = all
    step-InRange call_pop (push_claim i x) k = all
    step-InRange call_pop (push_write i x) k = all
    step-InRange call_pop (push_publish i x) k = all
    step-InRange call_pop push_count k = all
    step-InRange call_pop pop_wrap k = all
    step-InRange call_pop (pop_claim i) k = all
    step-InRange call_pop (pop_read i) k = all
    step-InRange call_pop (pop_release i x) k = all
    step-InRange call_pop (pop_count x) k = all

  -- On a buffer with at least one slot, the slots that the threads access next are slots of the
  -- array after every run, if they are at its start.
  pub run-InRange :
      (moves : List (ℕ × Move V)) (s : SharedRing V)
      → 0 < items
      → AllInRange s
      → AllInRange (run items size_bits moves s).1
  unfolding run
  run-InRange [] s some_items all = all
  run-InRange ((t, move) ∷ moves) s some_items all =
      run-InRange moves (step items size_bits t move (s.worker t) s).1 some_items
        (step-InRange some_items s all t move (s.worker t) (all t))
