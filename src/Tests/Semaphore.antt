-- ===== src/Tests/Semaphore.antt =====
-- The bound on a binary semaphore that is released and acquired.
use lock_free.Common.{◌≡◌, List, [], ◌∷◌, ◌+◌, ◌≤◌, refl, arith}
use lock_free.Semaphore.{Semaphore, create, release, acquire, Calls, begin, released, acquired}
use lock_free.Semaphore.Waiters.{
  create as create_room, pick, wake_up, release as release_room, acquire as acquire_room, resume,
  Part, releases, acquires, resumes, part, run,
}
use lock_free.Semaphore.WakeUps.{IsAwake, run-create-IsAwake}
use lock_free.Semaphore.Bounds.{Calls-bound}

abbrev idle : Semaphore
idle = record { count = 0 }

one_call : Calls 1 0 1 1 idle
unfolding create release acquire
one_call = acquired (released begin) refl

Calls-bound_example : (idle.count ≤ 1) × (idle.count + 1 ≤ 0 + 1)
Calls-bound_example = Calls-bound one_call (omega arith)

-- Threads 1 and 2 wait, a release wakes one up, thread 3 is faster, and the woken one waits again.
abbrev parts : List Part
parts = acquires 1 ∷ acquires 2 ∷ releases 1 ∷ acquires 3 ∷ resumes 0 ∷ releases 0 ∷ releases 0 ∷ []

parts_test : run 1 parts (create_room 0) ≡ record { count = 1; waiting = 2 ∷ []; woken = 1 ∷ [] }
unfolding run part release_room acquire_room wake_up resume pick create_room
parts_test = refl

run-create-IsAwake_example : IsAwake 1 (run 1 parts (create_room 0))
run-create-IsAwake_example = run-create-IsAwake 1 parts 0 (omega arith)
