-- ===== src/LockFreeArena/Lifecycle.antt =====
-- The constructor, the destructor, the service thread and `is_valid` of
-- `lock_free::arena_allocator`, include/arena_allocator.h. `fails` counts the weak exchanges that
-- fail for no reason in each call of `add_mem_chuck`.
use lock_free.Common.{
  ℕ, Bool, false, length, ◌≤◌, ◌<◌, ◌^◌, ◌≡◌, ◌≢◌, [], ◌==◌, if◌then◌else◌, ◌∈◌, update, refl,
}
use lock_free.MemoryAddress.{null, counter_bits}
use lock_free.Command.{Returns, bind}
use lock_free.Arena.{Config, World, Cmd, Arena, pure, ◌>>=◌, ◌>>◌, get_arena, put_arena}
use lock_free.Arena.Core.{lock, unlock}
use lock_free.Arena.Inv.{Layout}
use lock_free.Arena.Lifecycle.{
  fresh_arena, capture_instance_index, release_instance_index, grow_loop, start_thread, stop_thread,
  join_thread, in_chunks,
}
use lock_free.Arena.Lifecycle
use lock_free.Arena.GrowLoop.{Supply, Started, grow_loop-Started}
use lock_free.Arena.Start.{captured, start_thread-Started}
use lock_free.LockFreeArena.Ops.{max_length, add_mem_chuck, clear}
use lock_free.LockFreeArena.ChunkSame.{add_mem_chuck-same}

module _ {A : Type 0} (c : Config) where
  -- `arena_allocator()`
  unfoldable pub create : (fails rounds this : ℕ) → Cmd A (Unit {0})
  create fails rounds this = do
    put_arena this fresh_arena
    capture_instance_index this
    grow_loop c (max_length c) (add_mem_chuck c fails) rounds this
    start_thread c this

  unfoldable pub service_round : (fails this : ℕ) → Cmd A Bool
  service_round fails this = Lifecycle.service_round c (max_length c) (add_mem_chuck c fails) this

  -- `~arena_allocator()`
  unfoldable pub finish : (this : ℕ) → Cmd A (Unit {0})
  finish this = do release_instance_index this; stop_thread c this; clear c this; join_thread c this

  unfoldable pub is_valid : (this userdata : ℕ) → Cmd A Bool
  is_valid this userdata =
      if userdata == null
      then pure false
      else do lock this; a ← get_arena this; unlock this; pure (in_chunks c userdata a.mem_chunks)

module _ {A : Type 0} (c : Config) (lay : Layout c) (this : ℕ) where
  -- The constructor's loop ends, and leaves a well-formed allocator, as for
  -- `core::arena_allocator`.
  pub lock_free_create-Started :
      (fails rounds : ℕ) (w : World A)
      → this ≢ null
      → null ∈ w.instances_table
      → length w.instances_table ≤ 2 ^ counter_bits c.arch
      → ((a : Arena) → a.mem_chunks ≡ [] → Supply c a w.answers)
      → length w.answers < rounds
      → Returns (λ _. Started c this w.answers) (create c fails rounds this w)
  unfolding create max_length
  lock_free_create-Started fails rounds w placed room fits supply more =
      bind _ (capture_instance_index this) (record w { arena = update w.arena this fresh_arena })
        (captured c this w placed room fits)
        (λ _ w1 (inv, same, bare).
          bind _ (grow_loop c (max_length c) (add_mem_chuck c fails) rounds this) w1
            (grow_loop-Started c lay this (max_length c) (add_mem_chuck c fails) (λ v free. refl)
              (λ v free. (add_mem_chuck-same c fails this v free).0) rounds w1 w.answers same more
              inv (supply (w1.arena this) bare))
            (λ _ w2 st. start_thread-Started c this w2 w.answers st))
