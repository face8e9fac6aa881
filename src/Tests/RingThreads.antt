-- ===== src/Tests/RingThreads.antt =====
-- Runs of threads on the ring buffer: one that keeps the items, and one that makes the counter wrap.
use lock_free.Common.{ℕ, ◌≡◌, refl, ◌-◌, ◌^◌, true, false, List, [], ◌∷◌}
use lock_free.RingBuffer.Threads.{
  Move, call_push, call_pop, go_on, stored, fetched, gave_up, SharedRing, create, start_push,
  start_pop, go_step, step, log, run,
}
use lock_free.RingBuffer.Owned.{Owned}
use lock_free.RingBuffer.Replays.{items_of, Replays}
use lock_free.RingBuffer.Runs.{run-Replays-Owned}

abbrev fresh_ring : SharedRing ℕ
unfolding create
fresh_ring = create 0

-- Threads 1 and 2 push, thread 3 pops; the exchange of thread 2 fails once for no reason, and the
-- item of thread 1 is in the place 0.
abbrev moves : List (ℕ × Move ℕ)
moves =
    (1, call_push 7)
    ∷ (2, call_push 8)
    ∷ (1, go_on false)
    ∷ (2, go_on true)
    ∷ (1, go_on false)
    ∷ (3, call_pop)
    ∷ (1, go_on false)
    ∷ (3, go_on false)
    ∷ (3, go_on false)
    ∷ (3, go_on false)
    ∷ []

moves_test : (run 2 32 moves fresh_ring).0 ≡ gave_up ∷ stored 0 7 ∷ fetched 0 7 ∷ []
unfolding run step start_push start_pop go_step log fresh_ring
moves_test = refl

-- Thread 1 has made the slot full and not yet counted, thread 2 takes the item and counts down: the
-- buffer is empty, and `size` gives the greatest number of 32 bits.
abbrev early_moves : List (ℕ × Move ℕ)
early_moves =
    (1, call_push 7)
    ∷ (1, go_on false)
    ∷ (1, go_on false)
    ∷ (1, go_on false)
    ∷ (2, call_pop)
    ∷ (2, go_on false)
    ∷ (2, go_on false)
    ∷ (2, go_on false)
    ∷ (2, go_on false)
    ∷ []

size_wraps_test : (run 2 32 early_moves fresh_ring).1.counter ≡ 2 ^ 32 - 1
unfolding run step start_push start_pop go_step log fresh_ring
size_wraps_test = refl

fresh_ring-Owned : Owned fresh_ring.slot fresh_ring.worker
unfolding fresh_ring
fresh_ring-Owned = record { knows = λ t. tt; alone = λ t u i h h'. cc }

run-Replays-Owned_example :
    let (es, s') = run 2 32 moves fresh_ring in
    Replays (items_of fresh_ring.slot) es (items_of s'.slot) × Owned s'.slot s'.worker
run-Replays-Owned_example = run-Replays-Owned 2 32 moves fresh_ring fresh_ring-Owned
