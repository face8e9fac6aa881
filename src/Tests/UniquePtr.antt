-- ===== src/Tests/UniquePtr.antt =====
-- The theorems on `unique_ptr` at pointers that own and pointers that do not.
use lock_free.Common.{◌≡◌, refl, [], ◌∷◌, arith}
use lock_free.MemoryAddress.{ptr64, test_flag}
use lock_free.UniquePtr.{UniquePtr, auto_delete, finish, get, assign_pointer, assign_move}
use lock_free.UniquePtr.Ownership.{deletes, assign-deletes}

abbrev owner : UniquePtr
owner = record { ptr = record { addr = 4096; flags = 1; counter = 0 } }

abbrev observer : UniquePtr
observer = record { ptr = record { addr = 8192; flags = 0; counter = 0 } }

owner-deletes_test : deletes ptr64 owner [] ≡ 4096 ∷ []
unfolding finish auto_delete test_flag
owner-deletes_test = refl

assign-deletes_example :
    (deletes ptr64 (assign_pointer ptr64 owner 12288) [] ≡ 12288 ∷ [])
    × (deletes ptr64 (assign_move ptr64 owner observer).0 [] ≡ deletes ptr64 observer [])
    × (deletes ptr64 (assign_move ptr64 owner observer).1 [] ≡ [])
unfolding get
assign-deletes_example =
    assign-deletes ptr64 owner observer 12288 [] (omega arith) (omega arith) (omega arith)
