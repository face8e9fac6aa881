-- ===== src/LockFreeArena/Ops.antt =====
-- The operations of `lock_free::arena_allocator`, include/arena_allocator.h. A weak exchange may
-- fail although the value is the expected one: `fails` counts how often it does in a loop, before
-- an exchange that does not fail so. A loop has no result where that exchange fails, too, as it does
-- only where another thread comes between.
use lock_free.Common.{
  ℕ, zero, suc, ◌+◌, ◌-◌, ◌*◌, ◌%◌, ◌^◌, Bool, true, false, not, ◌&&◌, none, some, [], ◌∷◌, ◌++◌,
  ltb, leb, ◌==◌, if◌then◌else◌,
}
use lock_free.Common.{length as count_of}
use lock_free.Types.{Result, success, null_pointer, double_free}
use lock_free.MemoryAddress.{null}
use lock_free.Arena.{
  Config, Cmd, pure, ◌>>=◌, ◌>>◌, get_arena, put_arena, get_slot, put_slot, sys_allocate,
  run_destructor, instance_at, check_instance, wrap, memory_required_per_chunk,
}
use lock_free.Arena.Slot.{slot_from_user_data, next, is_free, get_index, set_free}
use lock_free.Arena.Core.{lock, unlock, last_of, init_chunk, construct, release_chunks}

-- `int64_t`, shifted so that its order is the one of ℕ.
abbrev pub signed : ℕ → ℕ
signed n = (n + 2 ^ 63) % 2 ^ 64

abbrev pub distance : ℕ → ℕ → ℕ
distance m n = if leb n m then m - n else n - m

module _ {A : Type 0} where
  -- `_next_free.compare_exchange_weak`: whether it stored `desired`, and the value it found.
  unfoldable pub exchange_next_free :
      (spurious : Bool) (this expected desired : ℕ) → Cmd A (Bool × ℕ)
  exchange_next_free spurious this expected desired = do
    a ← get_arena this
    if a.next_free == expected && not spurious
        then put_arena this (record a { next_free = desired }) >> pure (true, expected)
        else pure (false, a.next_free)

  -- The loop of `allocate`: the slot it took, or null.
  unfoldable pub take_loop : (this : ℕ) → (fails : ℕ) → Cmd A ℕ
  take_loop this zero = do
    a ← get_arena this
    if a.next_free == null then pure null else do
      s ← get_slot a.next_free
      taken ← exchange_next_free false this a.next_free (next s)
      if taken.0 then pure a.next_free else (λ w. none)
  take_loop this (suc fails) = do
    a ← get_arena this
    if a.next_free == null then pure null else do
      s ← get_slot a.next_free
      taken ← exchange_next_free true this a.next_free (next s)
      if taken.0 then pure a.next_free else take_loop this fails

module _ {A : Type 0} (c : Config) where
  open c use {arch, chunk_size, alloc_threshold}

  -- The loops of `deallocate` and `add_mem_chuck`: `last` leads to the head of the free list, and
  -- `first` becomes the head.
  unfoldable pub give_loop : (this first last : ℕ) → (fails expected : ℕ) → Cmd A (Unit {0})
  give_loop this first last zero expected = do
    s ← get_slot last
    put_slot last (set_free arch s expected)
    given ← exchange_next_free false this expected first
    if given.0 then pure tt else (λ w. none)
  give_loop this first last (suc fails) expected = do
    s ← get_slot last
    put_slot last (set_free arch s expected)
    given ← exchange_next_free true this expected first
    if given.0 then pure tt else give_loop this first last fails given.1

  -- `_free_slots.fetch_add` and `_free_slots.fetch_sub`
  unfoldable pub add_free : (this n : ℕ) → Cmd A (Unit {0})
  add_free this n = do
    a ← get_arena this
    put_arena this (record a { free_slots = wrap c (a.free_slots + n) })

  unfoldable pub sub_free : (this n : ℕ) → Cmd A (Unit {0})
  sub_free this n = do
    a ← get_arena this
    put_arena this (record a { free_slots = wrap c (a.free_slots + 2 ^ c.size_bits - n) })

  -- The chunk is stored, and the counts follow.
  unfoldable pub store_chunk : (this first_slot last_slot : ℕ) → Cmd A (Unit {0})
  store_chunk this first_slot last_slot = do
    a ← get_arena this
    let chunks = a.mem_chunks ++ record { first_slot = first_slot; last_slot = last_slot } ∷ []
    put_arena this (record a {
      mem_chunks = chunks;
      max_length = wrap c (chunk_size * count_of chunks);
      free_slots = wrap c (a.free_slots + chunk_size);
      capacity = wrap c (memory_required_per_chunk c * count_of chunks);
    })

  unfoldable pub add_mem_chuck : (fails this : ℕ) → Cmd A Bool
  add_mem_chuck fails this = do
    first_slot ← sys_allocate
    if first_slot == null then pure false else do
      init_chunk c this first_slot
      a ← get_arena this
      give_loop this first_slot (last_of c first_slot) fails a.next_free
      lock this
      store_chunk this first_slot (last_of c first_slot)
      unlock this
      pure true

  unfoldable pub unsafe_add_mem_chuck : ℕ → Cmd A Bool
  unsafe_add_mem_chuck this = do
    first_slot ← sys_allocate
    if first_slot == null then pure false else do
      init_chunk c this first_slot
      a ← get_arena this
      s ← get_slot (last_of c first_slot)
      put_slot (last_of c first_slot) (set_free arch s a.next_free)
      put_arena this (record a { next_free = first_slot })
      store_chunk this first_slot (last_of c first_slot)
      pure true

  -- The first part of `allocate`: the service thread is woken, or a chunk is added.
  unfoldable pub refill : (fails this : ℕ) → Cmd A Bool
  refill fails this = do
    a ← get_arena this
    if ltb 0 alloc_threshold
        then (if leb a.free_slots alloc_threshold
            then put_arena this (record a { sem_th_alloc = a.sem_th_alloc + 1 }) >> pure true
            else pure true)
        else (if a.next_free == null then add_mem_chuck fails this else pure true)

  -- What follows the loop of `allocate`; the slot is marked with the construction of the object.
  unfoldable pub finish : (this slot : ℕ) → A → Cmd A ℕ
  finish this slot v = if slot == null then pure null else do sub_free this 1; construct c slot v

  unfoldable pub allocate : (add_fails take_fails this : ℕ) → A → Cmd A ℕ
  allocate add_fails take_fails this v = do
    _ ← refill add_fails this
    slot ← take_loop this take_fails
    finish this slot v

  unfoldable pub unsafe_allocate : ℕ → A → Cmd A ℕ
  unsafe_allocate this v = do
    a ← get_arena this
    _ ←
        (if a.next_free == null && alloc_threshold == 0
          then unsafe_add_mem_chuck this
          else pure true)
    a ← get_arena this
    if a.next_free == null then pure null else do
      s ← get_slot a.next_free
      put_arena this (record a { next_free = next s })
      sub_free this 1
      construct c a.next_free v

  unfoldable pub deallocate : (fails userdata : ℕ) → Cmd A Result
  deallocate fails userdata = if userdata == null then pure null_pointer else do
    run_destructor userdata
    s ← get_slot (slot_from_user_data userdata)
    this ← instance_at (get_index s)
    check_instance this
    a ← get_arena this
    if is_free s then pure double_free else do
      give_loop this (slot_from_user_data userdata) (slot_from_user_data userdata) fails a.next_free
      add_free this 1
      pure success

  unfoldable pub unsafe_deallocate : ℕ → Cmd A Result
  unsafe_deallocate userdata = if userdata == null then pure null_pointer else do
    run_destructor userdata
    s ← get_slot (slot_from_user_data userdata)
    this ← instance_at (get_index s)
    if is_free s then pure double_free else do
      check_instance this
      a ← get_arena this
      put_slot (slot_from_user_data userdata) (set_free arch s a.next_free)
      put_arena this (record a { next_free = slot_from_user_data userdata })
      add_free this 1
      pure success

  -- The two counts are read one after the other; the difference is taken either way round.
  unfoldable pub length : ℕ → Cmd A ℕ
  length this = do
    a ← get_arena this
    pure (wrap c (distance (signed a.max_length) (signed a.free_slots)))

  unfoldable pub max_length : ℕ → Cmd A ℕ
  max_length this = do a ← get_arena this; pure a.max_length

  unfoldable pub capacity : ℕ → Cmd A ℕ
  capacity this = do a ← get_arena this; pure a.capacity

  unfoldable pub clear : ℕ → Cmd A (Unit {0})
  clear this = do
    a ← get_arena this
    (λ w. some (tt, release_chunks c a.mem_chunks w))
    put_arena this (record a {
      mem_chunks = [];
      max_length = 0;
      free_slots = 0;
      capacity = 0;
      next_free = null;
    })
