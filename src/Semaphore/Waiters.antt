-- ===== src/Semaphore/Waiters.antt =====
-- `counting_semaphore` of include/core/semaphore.h with the threads that wait: each part of a call
-- between two points at which it gives up `_mutex` is one step. Which of the waiting threads
-- `notify_one` wakes up, and which thread gets the mutex next, is an argument of the step.
use lock_free.Common.{
  ℕ, zero, suc, ◌+◌, ◌-◌, Option, none, some, List, [], ◌∷◌, ltb, ◌==◌, if◌then◌else◌,
}

-- The threads in `_cv.wait`, and those that have been woken up and wait for `_mutex`.
pub record WaitingRoom : Type 0 where
  pub count : ℕ
  pub waiting : List ℕ
  pub woken : List ℕ

unfoldable pub create : (count : ℕ) → WaitingRoom
create count = record { count = count; waiting = []; woken = [] }

-- The thread at index `k`, or the last one, and the others.
unfoldable pub pick : (k : ℕ) → List ℕ → Option (ℕ × List ℕ)
pick k [] = none
pick k (t ∷ []) = some (t, [])
pick zero (t ∷ u ∷ us) = some (t, u ∷ us)
pick (suc k) (t ∷ u ∷ us) = elim (pick k (u ∷ us)) [ none ↦ none | some (v, vs) ↦ some (v, t ∷ vs) ]

-- `_cv.notify_one`, or a wake-up for no reason.
unfoldable pub wake_up : (k : ℕ) → WaitingRoom → WaitingRoom
wake_up k s = elim (pick k s.waiting) [
  | none ↦ s
  | some (t, rest) ↦ record s { waiting = rest; woken = t ∷ s.woken }
]

unfoldable pub release : (max_count k : ℕ) → WaitingRoom → WaitingRoom
release max_count k s =
    if ltb s.count max_count then wake_up k (record s { count = s.count + 1 }) else s

-- `acquire` of thread `t`, from where it has the mutex to where it waits or returns.
unfoldable pub acquire : (t : ℕ) → WaitingRoom → WaitingRoom
acquire t s =
    if s.count == 0 then record s { waiting = t ∷ s.waiting } else record s { count = s.count - 1 }

-- A thread that has been woken up gets the mutex and looks at the count again.
unfoldable pub resume : (k : ℕ) → WaitingRoom → WaitingRoom
resume k s = elim (pick k s.woken) [
  | none ↦ s
  | some (t, rest) ↦ acquire t (record s { woken = rest })
]

pub data Part : Type 0 where
  releases : (k : ℕ) → Part
  acquires : (t : ℕ) → Part
  wakes_up resumes : (k : ℕ) → Part

unfoldable pub part : (max_count : ℕ) → Part → WaitingRoom → WaitingRoom
part max_count (releases k) s = release max_count k s
part max_count (acquires t) s = acquire t s
part max_count (wakes_up k) s = wake_up k s
part max_count (resumes k) s = resume k s

-- The steps of all threads in their order.
unfoldable pub run : (max_count : ℕ) → List Part → WaitingRoom → WaitingRoom
run max_count [] s = s
run max_count (p ∷ parts) s = run max_count parts (part max_count p s)
