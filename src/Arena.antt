-- ===== src/Arena.antt =====
-- The state that include/core/arena_allocator.h and include/arena_allocator.h share: raw memory cut
-- into slots, the table of the live allocators, and one record per allocator object.
-- A pointer is a byte address. A call that spins for ever, fails an assertion or goes through a
-- null pointer has no result.
pub mod Slot
pub mod Core
pub mod FreeList
pub mod Run
pub mod Inv
pub mod Grow
pub mod AddChunk
pub mod Take
pub mod Refill
pub mod Allocate
pub mod Release
pub mod Observe
pub mod Deallocate
pub mod Faults
pub mod Lifecycle
pub mod GrowLoop
pub mod Start
pub mod Service
pub mod Finish
pub mod Valid
pub mod Locked
pub use lock_free.Command.{pure, ◌>>=◌, ◌>>◌}
use lock_free.Command.{Command}
use lock_free.Common.{
  ℕ, zero, suc, ◌+◌, ◌-◌, ◌*◌, ◌%◌, ◌^◌, Bool, true, false, Option, none, some, List, [], ◌∷◌, ◌++◌,
  ltb, ◌==◌, if◌then◌else◌, length, update, ◌&&◌,
}
use lock_free.MemoryAddress.{Arch, null}
use lock_free.LookupTable
use lock_free.Arena.Slot.{MemorySlot, memory_address_size, set_free, set_index}

-- The template parameters, and what the compiler fixes for the types that they name.
pub record Config : Type 0 where
  pub arch : Arch
  pub size_bits : ℕ  -- the width of `data_size_t`
  pub chunk_size : ℕ
  pub initial_size : ℕ
  pub size_limit : ℕ
  pub alloc_threshold : ℕ
  pub memory_slot_size : ℕ
  pub user_data_offset : ℕ  -- the offset of `_user_data` in a `memory_slot`

-- `memory_chunk`
pub record MemoryChunk : Type 0 where
  pub first_slot : ℕ
  pub last_slot : ℕ

pub record Arena : Type 0 where
  pub ndx_instance : ℕ
  pub mem_chunks : List MemoryChunk
  pub next_free : ℕ
  pub max_length : ℕ
  pub free_slots : ℕ
  pub capacity : ℕ
  pub mtx_next : Bool  -- the flag of the spin lock
  pub th_alloc : Bool  -- whether the service thread runs
  pub sem_th_alloc : ℕ  -- a `std::binary_semaphore`, whose `max()` is not reached
  pub th_alloc_exit : Bool

-- `answers` is what the system allocator returns to the calls to come, null when it is empty;
-- `released` and `destroyed` record the chunks given back and the objects whose destructor ran,
-- the latest first.
pub record World (A : Type 0) : Type 0 where
  pub mem : ℕ → MemorySlot A
  pub instances_table : List ℕ
  pub arena : ℕ → Arena
  pub answers : List ℕ
  pub released : List ℕ
  pub destroyed : List ℕ

abbrev pub Cmd : Type 0 → Type 0 → Type 0
Cmd A B = Command (World A) B

module _ {A : Type 0} where
  abbrev pub get_arena : ℕ → Cmd A Arena
  get_arena this w = some (w.arena this, w)

  abbrev pub put_arena : ℕ → Arena → Cmd A (Unit {0})
  put_arena this a w = some (tt, record w { arena = update w.arena this a })

  abbrev pub get_slot : ℕ → Cmd A (MemorySlot A)
  get_slot p w = some (w.mem p, w)

  abbrev pub put_slot : ℕ → MemorySlot A → Cmd A (Unit {0})
  put_slot p s w = some (tt, record w { mem = update w.mem p s })

  -- `_mem_allocator.allocate`
  unfoldable pub sys_allocate : Cmd A ℕ
  sys_allocate w = elim w.answers [
    | [] ↦ some (null, w)
    | p ∷ ps ↦ some (p, record w { answers = ps })
  ]

  -- `userdata->~value_type()`
  abbrev pub run_destructor : ℕ → Cmd A (Unit {0})
  run_destructor u w = some (tt, record w { destroyed = u ∷ w.destroyed })

  -- A call through a null pointer to an allocator crashes.
  abbrev pub check_instance : ℕ → Cmd A (Unit {0})
  check_instance this w = if this == null then none else some (tt, w)

  -- `instances_table[index]`
  abbrev pub instance_at : ℕ → Cmd A ℕ
  instance_at index w = elim (LookupTable.at w.instances_table index) [
    | none ↦ none
    | some this ↦ some (this, w)
  ]

module _ (c : Config) where
  open c use {
    arch, size_bits, chunk_size, initial_size, size_limit, alloc_threshold, memory_slot_size,
    user_data_offset,
  }

  abbrev pub wrap : ℕ → ℕ
  wrap n = n % 2 ^ size_bits

  abbrev pub memory_required_per_chunk : ℕ
  memory_required_per_chunk = wrap (memory_slot_size * chunk_size)

  -- `prt()`
  abbrev pub prt : ℕ → ℕ
  prt p = p + user_data_offset

module _ {A : Type 0} (c : Config) where
  -- The loop over the slots of a new chunk, with `slots_nb` of them left from `mem_curs` on.
  unfoldable pub init_slots : (index slots_nb mem_curs : ℕ) → (ℕ → MemorySlot A) → ℕ → MemorySlot A
  init_slots index zero mem_curs m = m
  init_slots index (suc n) mem_curs m =
      let after = mem_curs + c.memory_slot_size in
      let linked =
        set_free c.arch (set_index c.arch (m mem_curs) index) (if ltb 0 n then after else null) in
      init_slots index n after (update m mem_curs linked)
