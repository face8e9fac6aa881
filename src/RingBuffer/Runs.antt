-- ===== src/RingBuffer/Runs.antt =====
-- Runs of the ring buffer by interleaved threads, include/ring_buffer.h.
use lock_free.Common.{
  ℕ, ◌≡◌, refl, inl, inr, Bool, not, ◌&&◌, none, some, List, [], ◌∷◌, ◌==◌, ltb, arith, Bool-cases,
}
use lock_free.RingBuffer.Ops.{is_empty, is_full}
use lock_free.RingBuffer.Threads.{
  Worker, outside, push_wrap, push_claim, push_write, push_publish, push_count, pop_wrap, pop_claim,
  pop_read, pop_release, pop_count, Move, call_push, call_pop, go_on, gave_up, SharedRing,
  start_push, start_pop, go_step, step, run,
}
use lock_free.RingBuffer.Owned.{Owned}
use lock_free.RingBuffer.Replays.{items_of, Replays, Replays-log}
use lock_free.RingBuffer.Linear.{
  Stepped, idle, gave_up-Stepped, push_claim-Stepped, pop_claim-Stepped, push_write-Stepped,
  push_publish-Stepped, pop_read-Stepped, pop_release-Stepped,
}

module _ {V : Type 0} (items size_bits : ℕ) where
  module _ (s : SharedRing V) (o : Owned s.slot s.worker) (t : ℕ) where
    gives_up :
        (s1 : SharedRing V) → s1.slot ≡ s.slot → s1.worker ≡ s.worker → Stepped s (some gave_up, s1)
    gives_up s1 e e' = record { effect = rw e refl; owned = rw (e, e') o }

    start_push-Stepped : (v : V) → Stepped s (start_push items size_bits t v s)
    unfolding start_push
    start_push-Stepped v = elim (Bool-cases (ltb items s.ndx_write)) [
      | inl above ↦ rw above (gives_up _ refl refl)
      | inr within ↦ elim (Bool-cases (s.ndx_write == items)) [
        | inl last ↦ rw (within, last) (idle s o t _ (push_wrap v) refl refl (λ i. refl) tt)
        | inr before ↦
            rw (within, before) (idle s o t _ (push_claim s.ndx_write v) refl refl (λ i. refl) tt)
      ]
    ]

    start_pop-Stepped : Stepped s (start_pop items size_bits t s)
    unfolding start_pop
    start_pop-Stepped = elim (Bool-cases (ltb items s.ndx_read)) [
      | inl above ↦ rw above (gives_up _ refl refl)
      | inr within ↦ elim (Bool-cases (s.ndx_read == items)) [
        | inl last ↦ rw (within, last) (idle s o t _ pop_wrap refl refl (λ i. refl) tt)
        | inr before ↦
            rw (within, before) (idle s o t _ (pop_claim s.ndx_read) refl refl (λ i. refl) tt)
      ]
    ]

    go_step-Stepped :
        (b : Bool) (w : Worker V) → s.worker t ≡ w → Stepped s (go_step items size_bits b t s w)
    unfolding go_step
    go_step-Stepped b outside e = record { effect = refl; owned = o }
    go_step-Stepped b (push_wrap v) e = idle s o t _ (push_claim 0 v) refl refl (λ i. refl) tt
    go_step-Stepped b (push_claim i v) e = elim (Bool-cases (is_empty (s.slot i).status && not b)) [
      | inl taken ↦ rw taken (push_claim-Stepped s o t i v (ground (arith, taken)))
      | inr failed ↦ rw failed (gave_up-Stepped s o t s outside refl refl (λ i. refl) tt)
    ]
    go_step-Stepped b (push_write i v) e = push_write-Stepped s o t i v e
    go_step-Stepped b (push_publish i v) e = push_publish-Stepped s o t i v e
    go_step-Stepped b push_count e = idle s o t _ outside refl refl (λ i. refl) tt
    go_step-Stepped b pop_wrap e = idle s o t _ (pop_claim 0) refl refl (λ i. refl) tt
    go_step-Stepped b (pop_claim i) e = elim (Bool-cases (is_full (s.slot i).status && not b)) [
      | inl taken ↦ rw taken (pop_claim-Stepped s o t i (ground (arith, taken)))
      | inr failed ↦ rw failed (gave_up-Stepped s o t s outside refl refl (λ i. refl) tt)
    ]
    go_step-Stepped b (pop_read i) e = pop_read-Stepped s o t i e
    go_step-Stepped b (pop_release i v) e = pop_release-Stepped s o t i v e
    go_step-Stepped b (pop_count v) e = idle s o t _ outside refl refl (λ i. refl) tt

    nothing : Stepped s (none, s)
    nothing = record { effect = refl; owned = o }

    step-Stepped :
        (move : Move V) (w : Worker V)
        → s.worker t ≡ w
        → Stepped s (step items size_bits t move w s)
    unfolding step
    step-Stepped (call_push v) outside e = start_push-Stepped v
    step-Stepped call_pop outside e = start_pop-Stepped
    step-Stepped (go_on b) w e = go_step-Stepped b w e
    step-Stepped (call_push v) (push_wrap x) e = nothing
    step-Stepped (call_push v) (push_claim i x) e = nothing
    step-Stepped (call_push v) (push_write i x) e = nothing
    step-Stepped (call_push v) (push_publish i x) e = nothing
    step-Stepped (call_push v) push_count e = nothing
    step-Stepped (call_push v) pop_wrap e = nothing
    step-Stepped (call_push v) (pop_claim i) e = nothing
    step-Stepped (call_push v) (pop_read i) e = nothing
    step-Stepped (call_push v) (pop_release i x) e = nothing
    step-Stepped (call_push v) (pop_count x) e = nothing
    step-Stepped call_pop (push_wrap x) e = nothing
    step-Stepped call_pop (push_claim i x) e = nothing
    step-Stepped call_pop (push_write i x) e = nothing
    step-Stepped call_pop (push_publish i x) e = nothing
    step-Stepped call_pop push_count e = nothing
    step-Stepped call_pop pop_wrap e = nothing
    step-Stepped call_pop (pop_claim i) e = nothing
    step-Stepped call_pop (pop_read i) e = nothing
    step-Stepped call_pop (pop_release i x) e = nothing
    step-Stepped call_pop (pop_count x) e = nothing

  -- Every run of threads that each call `push` and `pop` of a ring buffer any number of times,
  -- step by step in any order and with exchanges that fail for no reason anywhere, from a state in
  -- which each busy slot belongs to one thread at most and is as this thread takes it to be: so it
  -- is at the end, too, and the events of the run, in the order of the stores that make a slot
  -- full or empty, are those of an array of places used by one thread, from the items in the slots
  -- at the start to those at the end: an item is stored in an empty place only, and what is
  -- fetched is the item last stored in the place, once.
  pub run-Replays-Owned :
      (moves : List (ℕ × Move V)) (s : SharedRing V)
      → Owned s.slot s.worker
      → let (es, s') = run items size_bits moves s in
        Replays (items_of s.slot) es (items_of s'.slot) × Owned s'.slot s'.worker
  unfolding run
  run-Replays-Owned [] s o = (refl, o)
  run-Replays-Owned ((t, move) ∷ moves) s o =
      let st = step-Stepped s o t move (s.worker t) refl in
      let s1 = (step items size_bits t move (s.worker t) s).1 in
      let (r, o2) = run-Replays-Owned moves s1 st.owned in
      (
        Replays-log (step items size_bits t move (s.worker t) s).0 (items_of s.slot)
            (items_of s1.slot) (items_of (run items size_bits moves s1).1.slot)
            (run items size_bits moves s1).0 st.effect r,
        o2,
      )
