-- ===== src/Semaphore.antt =====
-- `counting_semaphore` of include/core/semaphore.h, from a count that is not negative. Each call
-- holds `_mutex` from its start to its end, save where `acquire` waits.
pub mod Bounds
pub mod Waiters
pub mod WakeUps
use lock_free.Common.{ℕ, ◌+◌, ◌-◌, ◌≡◌, Bool, Option, none, some, ltb, ◌==◌, if◌then◌else◌}

pub record Semaphore : Type 0 where
  pub count : ℕ

unfoldable pub create : (count : ℕ) → Semaphore
create count = record { count = count }

unfoldable pub release : (max_count : ℕ) → Semaphore → Semaphore
release max_count s = if ltb s.count max_count then record { count = s.count + 1 } else s

-- Without a result `acquire` waits, until a release wakes it up.
unfoldable pub acquire : Semaphore → Option Semaphore
acquire s = if s.count == 0 then none else some (record { count = s.count - 1 })

-- The calls of all threads in the order in which they end: so many releases, and so many calls of
-- `acquire` that have returned.
pub data Calls (max_count start : ℕ) : (released acquired : ℕ) → Semaphore → Type 0 where
  begin : Calls max_count start 0 0 (create start)
  released :
      {r a : ℕ} {s : Semaphore}
      → Calls max_count start r a s
      → Calls max_count start (r + 1) a (release max_count s)
  acquired :
      {r a : ℕ} {s s' : Semaphore}
      → Calls max_count start r a s
      → acquire s ≡ some s'
      → Calls max_count start r (a + 1) s'
