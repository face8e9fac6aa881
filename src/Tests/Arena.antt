-- ===== src/Tests/Arena.antt =====
-- The theorems on the allocator, its table and its address words at concrete states.
use lock_free.Common.{ℕ, ◌≡◌, refl, true, false, some, List, [], ◌∷◌, arith, update}
use lock_free.Types.{Node, double_free}
use lock_free.Command.{◌>>=◌, Returns}
use lock_free.MemoryAddress.{ptr64, fresh, add_counter, sub_counter}
use lock_free.MemoryAddress.Laws.{sub_counter-add_counter}
use lock_free.LookupTable
use lock_free.LookupTable.Laws.{Added, add-Added}
use lock_free.Arena.{prt}
use lock_free.Arena.Core.{unsafe_add_mem_chuck, allocate, deallocate, unsafe_deallocate, clear}
use lock_free.Arena.Inv.{Inv}
use lock_free.Arena.AddChunk.{Grown, unsafe_add_mem_chuck-Grown}
use lock_free.Arena.Allocate.{Allocated, allocate-Allocated}
use lock_free.Arena.Deallocate.{Deallocated, deallocate-Deallocated}
use lock_free.Arena.Observe.{Cleared, clear-Cleared}
use lock_free.Arena.Faults.{deallocate-double_free, deallocate-deallocate}
use lock_free.Tests.Common.{
  config, config-Layout, this, empty_world, empty-Inv, empty-Ready, busy_world, busy_live, busy-Inv,
}

abbrev item : Node ℕ
item = record { value = 5; next = 0 }

unsafe_add_mem_chuck-Grown_example :
    Returns
      (Grown (config 0) this false (λ _. false) 0 empty_world)
      (unsafe_add_mem_chuck (config 0) this empty_world)
unsafe_add_mem_chuck-Grown_example =
    unsafe_add_mem_chuck-Grown (config 0) (config-Layout 0) this empty_world (empty-Inv 0)
      (empty-Ready 0)

allocate-Allocated_example :
    Returns
      (Allocated (config 0) this false (λ _. false) 0 item empty_world)
      (allocate (config 0) this item empty_world)
allocate-Allocated_example =
    allocate-Allocated (config 0) (config-Layout 0) this item (empty-Inv 0) (empty-Ready 0)

deallocate-Deallocated_example :
    Returns
      (Deallocated (config 0) this false busy_live 0 4096 busy_world)
      (deallocate (config 0) (prt (config 0) 4096) busy_world)
deallocate-Deallocated_example =
    deallocate-Deallocated (config 0) (config-Layout 0) this busy-Inv 4096 refl

clear-Cleared_example :
    Returns
      (λ _ w'. Cleared (config 0) this false busy_live busy_world w')
      (clear (config 0) this busy_world)
clear-Cleared_example = clear-Cleared (config 0) (config-Layout 0) this busy-Inv

double_free_example :
    (deallocate (config 0) (prt (config 0) 4120) busy_world
      ≡ some (double_free, record busy_world { destroyed = 4128 ∷ [] }))
    × (unsafe_deallocate (config 0) (prt (config 0) 4120) busy_world
        ≡ some (double_free, record busy_world { destroyed = 4128 ∷ [] }))
double_free_example =
    deallocate-double_free (config 0) (config-Layout 0) this busy-Inv 4120 refl refl

deallocate-deallocate_example :
    Returns
      (λ code w'.
        (code ≡ double_free)
        × (w'.destroyed ≡ 4104 ∷ 4104 ∷ [])
        × Inv (config 0) this false (update busy_live 4096 false) 0 w')
      ((deallocate (config 0) 4104 >>= λ _. deallocate (config 0) 4104) busy_world)
deallocate-deallocate_example =
    deallocate-deallocate (config 0) (config-Layout 0) this busy-Inv 4096 refl

abbrev table : List ℕ
table = 7 ∷ 0 ∷ 9 ∷ 0 ∷ []

abbrev full_table : List ℕ
full_table = 7 ∷ 8 ∷ 7 ∷ []

add-Added_example :
    (pos : ℕ) × (out : List ℕ) × (LookupTable.add 0 0 5 table ≡ (true, pos, out))
    × Added 0 5 table out pos
add-Added_example = add-Added 0 0 5 table refl

sub_counter-add_counter_example : sub_counter ptr64 (add_counter ptr64 fresh 5000) 5000 ≡ fresh
sub_counter-add_counter_example =
    sub_counter-add_counter ptr64 fresh 5000 (omega arith) (omega arith)
