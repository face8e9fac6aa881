-- ===== src/LockFreeArena/Threads.antt =====
-- The loops of `allocate` and `deallocate` of include/arena_allocator.h, run by any number of
-- threads that interleave step by step: a load, a store or an exchange at a time. A thread allocates
-- an object, gives it back, and begins again. The slots are there from the start; the objects in
-- them, their constructors and destructors, and memory orders are not modelled.
use lock_free.Common.{
  ℕ, ◌+◌, ◌-◌, ◌%◌, ◌^◌, Bool, not, ◌&&◌, Option, none, some, List, [], ◌∷◌, ◌==◌, if◌then◌else◌,
  update,
}
use lock_free.MemoryAddress.{Arch, null}
use lock_free.Arena.Slot.{MemorySlot, next, is_free, set_free, set_in_use}

-- Where a thread stands, with what it has read.
pub data Client : Type 0 where
  idle alloc_load : Client
  alloc_next : (slot : ℕ) → Client
  alloc_swap : (slot next_slot : ℕ) → Client
  alloc_mark alloc_count holding free_load : (slot : ℕ) → Client
  free_test free_link free_swap : (slot curr_next : ℕ) → Client
  free_count : Client

-- A slot leaves the list of the free slots or comes back to it; a call finds no slot, or it finds the
-- slot free that it is to give back.
pub data SlotEvent : Type 0 where
  taken given refused : (slot : ℕ) → SlotEvent
  found_none : SlotEvent

pub record SharedArena (A : Type 0) : Type 0 where
  pub mem : ℕ → MemorySlot A
  pub next_free : ℕ
  pub free_slots : ℕ
  pub client : ℕ → Client

module _ {A : Type 0} where
  abbrev pub goto : ℕ → Client → SharedArena A → SharedArena A
  goto t c s = record s { client = update s.client t c }

  abbrev pub put_slot : ℕ → MemorySlot A → SharedArena A → SharedArena A
  put_slot p x s = record s { mem = update s.mem p x }

unfoldable pub add_event : Option SlotEvent → List SlotEvent → List SlotEvent
add_event none es = es
add_event (some e) es = e ∷ es

module _ {A : Type 0} (arch : Arch) (size_bits : ℕ) where
  -- The next step of thread `t`, which stands at the last argument; `spurious` says whether a weak
  -- exchange fails although the value is the expected one.
  unfoldable pub client_step :
      (spurious : Bool) (t : ℕ) (s : SharedArena A) → Client → Option SlotEvent × SharedArena A
  client_step spurious t s idle = (none, goto t alloc_load s)
  client_step spurious t s alloc_load =
      if s.next_free == null
      then (some found_none, goto t idle s)
      else (none, goto t (alloc_next s.next_free) s)
  client_step spurious t s (alloc_next slot) =
      (none, goto t (alloc_swap slot (next (s.mem slot))) s)
  client_step spurious t s (alloc_swap slot next_slot) =
      if s.next_free == slot && not spurious
      then (some (taken slot), record (goto t (alloc_mark slot) s) { next_free = next_slot })
      else (none, goto t alloc_load s)
  client_step spurious t s (alloc_mark slot) =
      (none, goto t (alloc_count slot) (put_slot slot (set_in_use arch (s.mem slot)) s))
  client_step spurious t s (alloc_count slot) = (
    none,
    record (goto t (holding slot) s) {
      free_slots = (s.free_slots + 2 ^ size_bits - 1) % 2 ^ size_bits;
    },
  )
  client_step spurious t s (holding slot) = (none, goto t (free_load slot) s)
  client_step spurious t s (free_load slot) = (none, goto t (free_test slot s.next_free) s)
  client_step spurious t s (free_test slot curr_next) =
      if is_free (s.mem slot)
      then (some (refused slot), goto t idle s)
      else (none, goto t (free_link slot curr_next) s)
  client_step spurious t s (free_link slot curr_next) = (
    none,
    goto t (free_swap slot curr_next) (put_slot slot (set_free arch (s.mem slot) curr_next) s),
  )
  client_step spurious t s (free_swap slot curr_next) =
      if s.next_free == curr_next && not spurious
      then (some (given slot), record (goto t free_count s) { next_free = slot })
      else (none, goto t (free_link slot s.next_free) s)
  client_step spurious t s free_count =
      (none, record (goto t idle s) { free_slots = (s.free_slots + 1) % 2 ^ size_bits })

  -- A run: which thread moves next, and whether its exchange fails for no reason.
  unfoldable pub run_clients : List (ℕ × Bool) → SharedArena A → List SlotEvent × SharedArena A
  run_clients [] s = ([], s)
  run_clients ((t, spurious) ∷ moves) s =
      let (e, s1) = client_step spurious t s (s.client t) in
      let (es, s2) = run_clients moves s1 in (add_event e es, s2)
