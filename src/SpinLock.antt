-- ===== src/SpinLock.antt =====
-- `mutex` of include/core/mutex.h, the spin lock, shared by any number of threads: each exchange and
-- each store of `_lock` is one step of one thread, and the steps of the threads interleave. The
-- memory orders are not modelled: the steps are in one order.
pub mod Exclusion
use lock_free.Common.{ℕ, ◌≡◌, Bool, true, false, not, if◌then◌else◌, update}

-- Where a thread is: it does not hold the lock, it is in the loop of `lock`, it holds the lock.
pub data Place : Type 0 where
  outside spinning holding : Place

pub record System : Type 0 where
  pub locked : Bool
  pub place : ℕ → Place

-- `mutex()`
abbrev pub create : System
create = record { locked = false; place = λ _. outside }

-- `atomic_exchange_explicit(&_lock, true)`: the value before.
unfoldable pub exchange : System → Bool × System
exchange s = (s.locked, record s { locked = true })

-- One round of the loop of `lock`.
unfoldable pub lock_round : ℕ → System → System
lock_round t s =
    let (old, s') = exchange s in
    record s' { place = update s'.place t (if old then spinning else holding) }

-- `try_lock`
unfoldable pub try_lock : ℕ → System → Bool × System
try_lock t s =
    let (old, s') = exchange s in
    (not old, record s' { place = update s'.place t (if old then outside else holding) })

-- `unlock`
unfoldable pub unlock : ℕ → System → System
unlock t s = record s { locked = false; place = update s.place t outside }

-- The steps; only a thread that holds the lock calls `unlock`, and one that holds it does not lock
-- it again.
pub data Step : System → System → Type 0 where
  lock : {s : System} (t : ℕ) → s.place t ≡ outside → Step s (lock_round t s)
  spin : {s : System} (t : ℕ) → s.place t ≡ spinning → Step s (lock_round t s)
  try_ : {s : System} (t : ℕ) → s.place t ≡ outside → Step s (try_lock t s).1
  release : {s : System} (t : ℕ) → s.place t ≡ holding → Step s (unlock t s)

pub data Reachable : System → Type 0 where
  start : Reachable create
  more : {s s' : System} → Reachable s → Step s s' → Reachable s'
