-- ===== src/Arena/Finish.antt =====
-- The destructor of `core::arena_allocator`, include/core/arena_allocator.h.
use lock_free.Common.{ℕ, ◌≡◌, ◌≢◌, ◌⊎◌, Bool, true, some, [], ◌∈◌}
use lock_free.MemoryAddress.{null}
use lock_free.LookupTable
use lock_free.Arena.{Config, Arena, World, prt}
use lock_free.Arena.Inv.{Inv}

-- What the destructor leaves.
pub record Finished {A : Type 0} (c : Config) (this : ℕ) (live : ℕ → Bool) (w w' : World A)
    : Type 0 where
  pub freed : LookupTable.at w'.instances_table (w.arena this).ndx_instance ≡ some null
  pub others :
      (i : ℕ)
      → i ≢ (w.arena this).ndx_instance
      → LookupTable.at w'.instances_table i ≡ LookupTable.at w.instances_table i
  pub no_chunks : (w'.arena this).mem_chunks ≡ []
  pub all : (p : ℕ) → live p ≡ true → prt c p ∈ w'.destroyed
  pub only :
      (u : ℕ) → u ∈ w'.destroyed → (u ∈ w.destroyed) ⊎ ((p : ℕ) × (live p ≡ true) × (u ≡ prt c p))

-- A step that leaves the objects, the table and the chunks alone.
record Kept {A : Type 0} (this : ℕ) (w w' : World A) : Type 0 where
  memory : w'.mem ≡ w.mem
  destroyed : w'.destroyed ≡ w.destroyed
  table : w'.instances_table ≡ w.instances_table
  chunks : (w'.arena this).mem_chunks ≡ (w.arena this).mem_chunks

-- What `clear` does to the objects, when the allocator stands in the table no more.
record Emptied {A : Type 0} (c : Config) (this : ℕ) (live : ℕ → Bool) (w w' : World A)
    : Type 0 where
  no_chunks : (w'.arena this).mem_chunks ≡ []
  table : w'.instances_table ≡ w.instances_table
  all : (p : ℕ) → live p ≡ true → prt c p ∈ w'.destroyed
  only :
      (u : ℕ) → u ∈ w'.destroyed → (u ∈ w.destroyed) ⊎ ((p : ℕ) × (live p ≡ true) × (u ≡ prt c p))
