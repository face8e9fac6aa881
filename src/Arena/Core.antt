-- ===== src/Arena/Core.antt =====
-- The operations of `core::arena_allocator`, include/core/arena_allocator.h. `this` is the address
-- of the allocator; `userdata` points at an object in one of its slots.
use lock_free.Common.{
  ℕ, zero, suc, ◌+◌, ◌-◌, ◌*◌, ◌^◌, Bool, true, false, none, some, List, [], ◌∷◌, ◌++◌, ltb, leb,
  ◌==◌, if◌then◌else◌, ◌&&◌,
}
use lock_free.Common.{length as count_of}
use lock_free.Types.{Result, success, null_pointer, double_free}
use lock_free.MemoryAddress.{null}
use lock_free.Arena.{
  Config, MemoryChunk, Arena, World, Cmd, pure, ◌>>=◌, ◌>>◌, get_arena, put_arena, get_slot,
  put_slot, sys_allocate, run_destructor, instance_at, check_instance, wrap,
  memory_required_per_chunk, prt, init_slots,
}
use lock_free.Arena.Slot.{
  MemorySlot, slot_from_user_data, next, in_use, is_free, get_index, set_free, set_in_use,
}

module _ {A : Type 0} where
  -- `lock`, and the loop on `try_lock`: on a lock that is held it does not end.
  unfoldable pub lock : ℕ → Cmd A (Unit {0})
  lock this = do
    a ← get_arena this
    if a.mtx_next then (λ w. none) else put_arena this (record a { mtx_next = true })

  unfoldable pub unlock : ℕ → Cmd A (Unit {0})
  unlock this = do a ← get_arena this; put_arena this (record a { mtx_next = false })

-- `_max_length-_free_slots`, which wraps.
unfoldable pub unsafe_length : Config → Arena → ℕ
unsafe_length c a = wrap c (a.max_length + 2 ^ c.size_bits - a.free_slots)

-- `_first_slot+(chunk_size-1)`
unfoldable pub last_of : Config → ℕ → ℕ
last_of c first_slot = first_slot + (c.chunk_size - 1) * c.memory_slot_size

module _ {A : Type 0} (c : Config) where
  open c use {arch, chunk_size, size_limit, alloc_threshold, memory_slot_size, user_data_offset}

  -- What follows the loop in `add_mem_chuck` and `unsafe_add_mem_chuck`: the new chunk goes in
  -- front of the free list, and the counts follow.
  unfoldable pub link_chunk : (this first_slot last_slot : ℕ) → Cmd A (Unit {0})
  link_chunk this first_slot last_slot = do
    a ← get_arena this
    s ← get_slot last_slot
    put_slot last_slot (set_free arch s a.next_free)
    let chunks = a.mem_chunks ++ (record { first_slot = first_slot; last_slot = last_slot } ∷ [])
    put_arena this (record a {
      mem_chunks = chunks;
      next_free = first_slot;
      max_length = wrap c (chunk_size * count_of chunks);
      free_slots = wrap c (a.free_slots + chunk_size);
      capacity = wrap c (memory_required_per_chunk c * count_of chunks);
    })

  -- The loop that writes the chain of a new chunk.
  unfoldable pub init_chunk : (this first_slot : ℕ) → Cmd A (Unit {0})
  unfolding init_slots
  init_chunk this first_slot w =
      some (
        tt,
        record w { mem = init_slots c (w.arena this).ndx_instance chunk_size first_slot w.mem },
      )

  unfoldable pub unsafe_add_mem_chuck : ℕ → Cmd A Bool
  unsafe_add_mem_chuck this = do
    first_slot ← sys_allocate
    if first_slot == null then pure false else do
      init_chunk this first_slot
      link_chunk this first_slot (last_of c first_slot)
      pure true

  unfoldable pub add_mem_chuck : ℕ → Cmd A Bool
  add_mem_chuck this = do
    first_slot ← sys_allocate
    if first_slot == null then pure false else do
      init_chunk this first_slot
      lock this
      link_chunk this first_slot (last_of c first_slot)
      unlock this
      pure true

  -- The slot at the head of the free list leaves it.
  unfoldable pub take_slot : (this slot : ℕ) → Cmd A (Unit {0})
  take_slot this slot = do
    a ← get_arena this
    s ← get_slot slot
    put_arena this
        (record a { next_free = next s; free_slots = wrap c (a.free_slots + 2 ^ c.size_bits - 1) })

  -- `set_in_use`, and the constructor of the object at `prt`.
  unfoldable pub construct : (slot : ℕ) → A → Cmd A ℕ
  construct slot v = do
    s ← get_slot slot
    put_slot slot (record (set_in_use arch s) { user_data = v })
    pure (prt c slot)

  unfoldable pub unsafe_allocate : ℕ → A → Cmd A ℕ
  unsafe_allocate this v = do
    a ← get_arena this
    _ ←
        (if a.next_free == null && alloc_threshold == 0
          then unsafe_add_mem_chuck this
          else pure true)
    a ← get_arena this
    if a.next_free == null
        then pure null
        else do take_slot this a.next_free; construct a.next_free v

  -- The first part of `allocate`: the service thread is woken, or a chunk is added.
  unfoldable pub refill : ℕ → Cmd A Bool
  refill this = do
    a ← get_arena this
    if ltb 0 alloc_threshold
        then (if leb a.free_slots alloc_threshold
            then put_arena this (record a { sem_th_alloc = a.sem_th_alloc + 1 }) >> pure true
            else pure true)
        else (if a.next_free == null then unsafe_add_mem_chuck this else pure true)

  unfoldable pub allocate : ℕ → A → Cmd A ℕ
  allocate this v = do
    lock this
    _ ← refill this
    a ← get_arena this
    if a.next_free == null
        then unlock this >> pure null
        else do take_slot this a.next_free; unlock this; construct a.next_free v

  -- The freed slot becomes the head of the free list.
  unfoldable pub put_back : (this slot : ℕ) → Cmd A (Unit {0})
  put_back this slot = do
    a ← get_arena this
    s ← get_slot slot
    put_slot slot (set_free arch s a.next_free)
    put_arena this (record a { next_free = slot; free_slots = wrap c (a.free_slots + 1) })

  unfoldable pub deallocate : ℕ → Cmd A Result
  deallocate userdata = if userdata == null then pure null_pointer else do
    run_destructor userdata
    s ← get_slot (slot_from_user_data userdata)
    this ← instance_at (get_index s)
    if is_free s then pure double_free else do
      check_instance this
      lock this
      put_back this (slot_from_user_data userdata)
      unlock this
      pure success

  unfoldable pub unsafe_deallocate : ℕ → Cmd A Result
  unsafe_deallocate userdata = if userdata == null then pure null_pointer else do
    run_destructor userdata
    s ← get_slot (slot_from_user_data userdata)
    this ← instance_at (get_index s)
    if is_free s
        then pure double_free
        else do check_instance this; put_back this (slot_from_user_data userdata); pure success

  unfoldable pub length : ℕ → Cmd A ℕ
  length this = do lock this; a ← get_arena this; unlock this; pure (unsafe_length c a)

  unfoldable pub max_length : ℕ → Cmd A ℕ
  max_length this = do lock this; a ← get_arena this; unlock this; pure a.max_length

  unfoldable pub capacity : ℕ → Cmd A ℕ
  capacity this = do lock this; a ← get_arena this; unlock this; pure a.capacity

  -- The loop of `clear` over the slots of one chunk: the objects in use are destroyed.
  unfoldable pub destroy_slots : (slots_nb mem_curs : ℕ) → (ℕ → MemorySlot A) → List ℕ → List ℕ
  destroy_slots zero mem_curs m destroyed = destroyed
  destroy_slots (suc n) mem_curs m destroyed =
      destroy_slots n (mem_curs + memory_slot_size) m
        (if in_use (m mem_curs) then prt c mem_curs ∷ destroyed else destroyed)

  -- Its loop over the chunks, each of which goes back to the system.
  unfoldable pub release_chunks : List MemoryChunk → World A → World A
  release_chunks [] w = w
  release_chunks (mc ∷ mcs) w = release_chunks mcs (record w {
    destroyed = destroy_slots chunk_size mc.first_slot w.mem w.destroyed;
    released = mc.first_slot ∷ w.released;
  })

  unfoldable pub clear : ℕ → Cmd A (Unit {0})
  clear this = do
    a ← get_arena this
    (λ w. some (tt, release_chunks a.mem_chunks w))
    put_arena this (record a {
      mem_chunks = [];
      max_length = 0;
      free_slots = 0;
      capacity = 0;
      next_free = null;
    })
