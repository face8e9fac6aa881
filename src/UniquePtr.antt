-- ===== src/UniquePtr.antt =====
-- `unique_ptr` of include/core/unique_ptr.h: an address word, whose flag DESTROY says that the
-- object is deleted with the pointer. `deleted` records the objects that `delete` was called for,
-- the latest first. A `std::unique_ptr` that is moved in is its pointer.
pub mod Ownership
use lock_free.Common.{ℕ, Bool, true, false, not, ◌&&◌, List, ◌∷◌, ◌==◌, if◌then◌else◌}
use lock_free.MemoryAddress.{
  Arch, MemoryAddress, destroy, null, make, fresh, get_address, set_address, set_flag, unset_flag,
  unset_all, test_flag,
}

-- `_ptr`
pub record UniquePtr : Type 0 where
  pub ptr : MemoryAddress

-- `unique_ptr()` and `unique_ptr( nullptr )`
unfoldable pub create : UniquePtr
create = record { ptr = fresh }

unfoldable pub get : UniquePtr → ℕ
get u = get_address u.ptr

unfoldable pub auto_delete : UniquePtr → Bool
auto_delete u = test_flag u.ptr destroy

unfoldable pub is_set : UniquePtr → Bool
unfolding get
is_set u = if get u == null then false else true

unfoldable pub equals : UniquePtr → UniquePtr → Bool
unfolding get
equals lhs rhs = get lhs == get rhs

unfoldable pub equals_null : UniquePtr → Bool
unfolding is_set
equals_null lhs = not (is_set lhs)

module _ (arch : Arch) where
  unfoldable pub from_pointer : ℕ → (autodelete : Bool) → UniquePtr
  from_pointer p autodelete = record { ptr = make arch p (if autodelete then destroy else 0) 0 }

  -- The pointer, and what is left.
  unfoldable pub release : UniquePtr → ℕ × UniquePtr
  release u = (get_address u.ptr, record { ptr = unset_all (set_address arch u.ptr null) })

  -- The constructor from an rvalue: the new pointer, and what is left of the old one.
  unfoldable pub move_from : UniquePtr → UniquePtr × UniquePtr
  unfolding get auto_delete release
  move_from u =
      (record { ptr = make arch (get u) (if auto_delete u then destroy else 0) 0 }, (release u).1)

  -- `~unique_ptr()`
  unfoldable pub finish : UniquePtr → List ℕ → UniquePtr × List ℕ
  unfolding auto_delete
  finish u deleted =
      if auto_delete u && not (get_address u.ptr == null)
      then (record { ptr = set_address arch u.ptr null }, get_address u.ptr ∷ deleted)
      else (u, deleted)

  -- `operator=` from a pointer or a `std::unique_ptr`.
  unfoldable pub assign_pointer : UniquePtr → ℕ → UniquePtr
  assign_pointer u p = record { ptr = set_address arch (set_flag arch u.ptr destroy) p }

  -- `auto_delete( bool )`
  unfoldable pub set_auto_delete : UniquePtr → Bool → UniquePtr
  set_auto_delete u autodelete =
      if autodelete
      then record { ptr = set_flag arch u.ptr destroy }
      else record { ptr = unset_flag arch u.ptr destroy }

  -- `operator=` from a `unique_ptr`: the pointer assigned to, and what is left of the other.
  unfoldable pub assign_move : UniquePtr → UniquePtr → UniquePtr × UniquePtr
  unfolding auto_delete release set_auto_delete
  assign_move u other =
      let (p, rest) = release other in
      (record { ptr = set_address arch (set_auto_delete u (auto_delete other)).ptr p }, rest)
