-- ===== src/Queue/Locks.antt =====
-- Calls of the queue, include/queue.h, on its lock and on its arena.
use lock_free.Common.{◌≡◌, refl, true, false, none, some, Option}
use lock_free.Types.{success, DsImpl, raw, mutex, spinlock, lockfree}
use lock_free.Command.{Command, Returns, returns}
use lock_free.PlugMutex
use lock_free.Queue.Ops.{Queue, in_arena, lock, unlock}

module _ {S : Type 0} where
  locked :
      (imp : DsImpl) (q : Queue S)
      → q.mtx ≡ false
      → lock imp q ≡ some (success, record q { mtx = true })
  unfolding lock PlugMutex.lock PlugMutex.container_has_mutex PlugMutex.required PlugMutex.has_mutex
      PlugMutex.try_lock
  locked raw q h = rw h refl
  locked mutex q h = rw h refl
  locked spinlock q h = rw h refl
  locked lockfree q h = rw h refl

  unlocked : (imp : DsImpl) (q : Queue S) → unlock imp q ≡ some (success, record q { mtx = false })
  unfolding unlock PlugMutex.unlock PlugMutex.container_has_mutex PlugMutex.required
      PlugMutex.has_mutex
  unlocked raw q = refl
  unlocked mutex q = refl
  unlocked spinlock q = refl
  unlocked lockfree q = refl

  lift_option :
      {B : Type 0} {P : B → S → Type 0} {r : Option (B × S)} (q : Queue S)
      → Returns P r
      → Returns
          (λ b q'. (s : S) × P b s × (q' ≡ record q { nodes = s }))
          (elim r [ none ↦ none | some (b, s) ↦ some (b, record q { nodes = s }) ])
  lift_option q (returns {s} p) = returns (s, p, refl)

  pub lift :
      {B : Type 0} {P : B → S → Type 0} (m : Command S B) (q : Queue S)
      → Returns P (m q.nodes)
      → Returns (λ b q'. (s : S) × P b s × (q' ≡ record q { nodes = s })) (in_arena m q)
  lift m q h = lift_option q h

  pub take_lock :
      (imp : DsImpl) (q : Queue S)
      → q.mtx ≡ false
      → Returns (λ _ q'. q' ≡ record q { mtx = true }) (lock imp q)
  take_lock imp q h = rw (locked imp q h) (returns refl)

  pub drop_lock :
      (imp : DsImpl) (q : Queue S) → Returns (λ _ q'. q' ≡ record q { mtx = false }) (unlock imp q)
  drop_lock imp q = rw (unlocked imp q) (returns refl)
