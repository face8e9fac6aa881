-- ===== src/Arena/Slot.antt =====
-- `memory_slot` of include/core/arena_allocator.h and include/arena_allocator.h: one cell of a
-- chunk. DESTROY in the flags of `_ptr_next` means that the cell is in use, and the counter is the
-- index of the allocator that owns it.
use native.Mathlib.Nat.{mod-eq_of_lt}
use lock_free.Common.{ℕ, ◌-◌, ◌^◌, ◌<◌, ◌≡◌, refl, Bool, true, false, not, arith}
use lock_free.MemoryAddress.{
  Arch, addr_bits, counter_bits, destroy, null, MemoryAddress, set_address, set_flag, unset_flag,
  set_counter, get_address, get_counter, test_flag,
}
use lock_free.MemoryAddress.Laws.{set_flag-destroy, get_address-set_address}

pub record MemorySlot (A : Type 0) : Type 0 where
  pub ptr_next : MemoryAddress
  pub user_data : A

-- `sizeof(memory_address)`: the three fields fill 64 bits on either architecture.
abbrev pub memory_address_size : ℕ
memory_address_size = 8

-- The slot that `userdata` lies in, for an object right behind the `memory_address`.
abbrev pub slot_from_user_data : ℕ → ℕ
slot_from_user_data userdata = userdata - memory_address_size

module _ {A : Type 0} where
  abbrev pub next : MemorySlot A → ℕ
  next s = get_address s.ptr_next

  abbrev pub in_use : MemorySlot A → Bool
  in_use s = test_flag s.ptr_next destroy

  abbrev pub is_free : MemorySlot A → Bool
  is_free s = not (test_flag s.ptr_next destroy)

  abbrev pub get_index : MemorySlot A → ℕ
  get_index s = get_counter s.ptr_next

  module _ (arch : Arch) where
    unfoldable pub set_free : MemorySlot A → ℕ → MemorySlot A
    set_free s next_free = record s {
      ptr_next = unset_flag arch (set_address arch s.ptr_next next_free) destroy;
    }

    unfoldable pub set_in_use : MemorySlot A → MemorySlot A
    set_in_use s = record s { ptr_next = set_flag arch (set_address arch s.ptr_next null) destroy }

    unfoldable pub set_index : MemorySlot A → ℕ → MemorySlot A
    set_index s index = record s { ptr_next = set_counter arch s.ptr_next index }

module _ {A : Type 0} (arch : Arch) (s : MemorySlot A) where
  -- A freed slot is free, keeps its index and its data, and leads to `q` if `q` fits the field.
  pub set_free_lem :
      (q : ℕ)
      → q < 2 ^ addr_bits arch
      → (is_free (set_free arch s q) ≡ true)
        × (in_use (set_free arch s q) ≡ false)
        × (next (set_free arch s q) ≡ q)
        × (get_index (set_free arch s q) ≡ get_index s)
        × ((set_free arch s q).user_data ≡ s.user_data)
  unfolding set_free
  set_free_lem q fits =
      let f = set_flag-destroy arch (set_address arch s.ptr_next q) in
      let g = get_address-set_address arch s.ptr_next q fits in ground arith

  -- A slot put to use is in use, and keeps its index and its data.
  pub set_in_use_lem :
      (in_use (set_in_use arch s) ≡ true)
      × (is_free (set_in_use arch s) ≡ false)
      × (get_index (set_in_use arch s) ≡ get_index s)
      × ((set_in_use arch s).user_data ≡ s.user_data)
  unfolding set_in_use set_address
  set_in_use_lem = let f = set_flag-destroy arch (set_address arch s.ptr_next null) in ground arith

  pub set_index_lem :
      (i : ℕ)
      → i < 2 ^ counter_bits arch
      → (get_index (set_index arch s i) ≡ i) × ((set_index arch s i).user_data ≡ s.user_data)
  unfolding set_index set_counter
  set_index_lem i fits = (mod-eq_of_lt fits, refl)
