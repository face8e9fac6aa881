-- ===== src/Arena/Lifecycle.antt =====
-- The constructor, the destructor and the service thread of `core::arena_allocator`,
-- include/core/arena_allocator.h, and `is_valid`. The constructor's loop runs on `rounds`.
use lock_free.Common.{
  ℕ, zero, suc, ◌+◌, ◌%◌, ◌^◌, Bool, true, false, ◌&&◌, ◌||◌, none, List, [], ◌∷◌, ltb, leb, ◌==◌,
  if◌then◌else◌,
}
use lock_free.MemoryAddress.{null, base_bits}
use lock_free.LookupTable
use lock_free.Arena.{Config, MemoryChunk, Arena, Cmd, pure, ◌>>=◌, ◌>>◌, get_arena, put_arena}
use lock_free.Arena.Slot.{memory_address_size}
use lock_free.Arena.Core.{lock, unlock, max_length, add_mem_chuck, clear}

module _ {A : Type 0} where
  -- `capture_instance_index`; without room in the table the assertion fails.
  unfoldable pub capture_instance_index : ℕ → Cmd A (Unit {0})
  capture_instance_index this w =
      let a = w.arena this in
      let (ret_val, index, table) = LookupTable.add null a.ndx_instance this w.instances_table in
      if ret_val
      then put_arena this (record a { ndx_instance = index }) (record w { instances_table = table })
      else none

  unfoldable pub release_instance_index : ℕ → Cmd A (Unit {0})
  release_instance_index this w =
      let (ret_val, table) =
        LookupTable.reset_at null (w.arena this).ndx_instance w.instances_table in
      if ret_val then pure tt (record w { instances_table = table }) else none

-- The members before the constructor's body.
abbrev pub fresh_arena : Arena
fresh_arena = record {
  ndx_instance = 0;
  mem_chunks = [];
  next_free = null;
  max_length = 0;
  free_slots = 0;
  capacity = 0;
  mtx_next = false;
  th_alloc = false;
  sem_th_alloc = 0;
  th_alloc_exit = false;
}

-- The loop of `is_valid` over the chunks; the sums wrap in `base_t`.
unfoldable pub in_chunks : Config → (userdata : ℕ) → List MemoryChunk → Bool
in_chunks c userdata [] = false
in_chunks c userdata (mc ∷ mcs) =
    let first = (mc.first_slot + memory_address_size) % 2 ^ base_bits c.arch in
    let last = (mc.last_slot + memory_address_size) % 2 ^ base_bits c.arch in
    (leb first userdata && leb userdata last) || in_chunks c userdata mcs

module _ {A : Type 0} (c : Config) where
  open c use {initial_size, size_limit, alloc_threshold}

  -- The loop of the constructor, for the `max_length` and the `add_mem_chuck` of the allocator.
  unfoldable pub grow_loop :
      (length_of : ℕ → Cmd A ℕ) (add : ℕ → Cmd A Bool) (rounds this : ℕ) → Cmd A (Unit {0})
  grow_loop length_of add zero this = λ w. none
  grow_loop length_of add (suc rounds) this = do
    n ← length_of this
    if ltb n initial_size
        then (add this >>= λ added. if added then grow_loop length_of add rounds this else pure tt)
        else pure tt

  unfoldable pub start_thread : ℕ → Cmd A (Unit {0})
  start_thread this = do
    a ← get_arena this
    if ltb 0 alloc_threshold then put_arena this (record a { th_alloc = true }) else pure tt

  -- `arena_allocator()`
  unfoldable pub create : (rounds this : ℕ) → Cmd A (Unit {0})
  create rounds this = do
    put_arena this fresh_arena
    capture_instance_index this
    grow_loop (max_length c) (add_mem_chuck c) rounds this
    start_thread this

  -- A round of the service thread once `acquire` has returned: whether it goes on.
  unfoldable pub service_round :
      (length_of : ℕ → Cmd A ℕ) (add : ℕ → Cmd A Bool) (this : ℕ) → Cmd A Bool
  service_round length_of add this = do
    a ← get_arena this
    if a.th_alloc_exit then pure false else do
      n ← length_of this
      if ltb n size_limit || size_limit == 0 then (add this >>= λ _. pure true) else pure true

  unfoldable pub stop_thread : ℕ → Cmd A (Unit {0})
  stop_thread this = do
    a ← get_arena this
    if ltb 0 alloc_threshold
        then put_arena this (record a { th_alloc_exit = true; sem_th_alloc = a.sem_th_alloc + 1 })
        else pure tt

  -- `join`, when the thread has ended.
  unfoldable pub join_thread : ℕ → Cmd A (Unit {0})
  join_thread this = do
    a ← get_arena this
    if ltb 0 alloc_threshold && a.th_alloc
        then put_arena this (record a { th_alloc = false })
        else pure tt

  -- `~arena_allocator()`
  unfoldable pub finish : (this : ℕ) → Cmd A (Unit {0})
  finish this = do release_instance_index this; stop_thread this; clear c this; join_thread this

  unfoldable pub unsafe_is_valid : (this userdata : ℕ) → Cmd A Bool
  unsafe_is_valid this userdata = do
    a ← get_arena this
    if userdata == null then pure false else pure (in_chunks c userdata a.mem_chunks)

  unfoldable pub is_valid : (this userdata : ℕ) → Cmd A Bool
  is_valid this userdata = do
    lock this
    answer ← unsafe_is_valid this userdata
    unlock this
    pure answer
