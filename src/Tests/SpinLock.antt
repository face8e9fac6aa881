-- ===== src/Tests/SpinLock.antt =====
-- The theorems on the spin lock after a thread has taken it.
use lock_free.Common.{ℕ, arith, ◌≡◌, refl, true, false}
use lock_free.SpinLock.{
  System, create, holding, lock_round, try_lock, unlock, exchange, Reachable, start, more, lock,
  release,
}
use lock_free.SpinLock.Exclusion.{mutual_exclusion, lock_round_progress, holds}

-- Thread 1 has the lock, and thread 2 waits for it.
abbrev taken : System
taken = lock_round 2 (lock_round 1 create)

taken-Reachable : Reachable taken
unfolding lock_round exchange
taken-Reachable = more (more start (lock 1 refl)) (lock 2 refl)

taken-holding : taken.place 1 ≡ holding
unfolding lock_round exchange
taken-holding = refl

abbrev first : ℕ
first = 1

mutual_exclusion_example : (first ≡ first) × (taken.locked ≡ true)
mutual_exclusion_example = mutual_exclusion taken-Reachable first first taken-holding taken-holding

-- Thread 1 has left.
abbrev left : System
left = unlock 1 taken

left-Reachable : Reachable left
left-Reachable = more taken-Reachable (release 1 taken-holding)

none_holds : (u : ℕ) → holds (left.place u) ≡ false
unfolding lock_round exchange unlock
none_holds u = ground arith

lock_round_progress_example : ((lock_round 2 left).place 2 ≡ holding) × ((try_lock 2 left).0 ≡ true)
lock_round_progress_example = lock_round_progress left-Reachable none_holds 2
