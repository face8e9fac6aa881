-- ===== src/PlugMutex.antt =====
-- `plug_mutex` of include/core/types.h, the base of the queue and the stack: whether a container
-- has a lock, and the loop on `try_lock`.
use lock_free.Common.{ℕ, zero, suc, Bool, true, false, none, some, if◌then◌else◌}
use lock_free.Types.{Result, success, not_implemented, DsImpl, raw, mutex, spinlock, lockfree}
use lock_free.Command.{Command}

-- The first template argument: `imp_type==mutex || imp_type==spinlock`.
unfoldable pub required : DsImpl → Bool
required raw = false
required mutex = true
required spinlock = true
required lockfree = false

-- The first argument and `count`: the specialisation is the one of false and 0.
unfoldable pub has_mutex : Bool → ℕ → Bool
has_mutex false zero = false
has_mutex false (suc n) = true
has_mutex true n = true

-- The containers leave `count` at its default, 1.
unfoldable pub container_has_mutex : DsImpl → Bool
unfolding required has_mutex
container_has_mutex imp = has_mutex (required imp) 1

-- The state of `_mtx[0]`: held or not. `try_lock` says whether it took the lock.
unfoldable pub try_lock : Command Bool Bool
try_lock held = if held then some (false, held) else some (true, true)

-- `lock`: on a lock that is held the loop does not end, as nothing else runs meanwhile.
unfoldable pub lock : DsImpl → Command Bool Result
unfolding container_has_mutex try_lock
lock imp held =
    if container_has_mutex imp
    then elim (try_lock held) [
      | none ↦ none
      | some (taken, held') ↦ if taken then some (success, held') else none
    ]
    else some (not_implemented, held)

unfoldable pub unlock : DsImpl → Command Bool Result
unfolding container_has_mutex
unlock imp held =
    if container_has_mutex imp then some (success, false) else some (not_implemented, held)
