-- ===== src/Arena/Faults.antt =====
-- `deallocate` of `core::arena_allocator` on a null pointer and on a slot that is free.
use lock_free.Common.{
  ℕ, suc, ◌≡◌, refl, ◌≢◌, Bool, true, false, some, arith, ◌==◌, ◌∈◌, ne→==, ◌∷◌, update,
}
use lock_free.Types.{null_pointer, double_free}
use lock_free.MemoryAddress.{null}
use lock_free.LookupTable
use lock_free.Arena.{Config, World, ◌>>=◌, prt, instance_at}
use lock_free.Arena.Slot.{is_free, get_index, slot_from_user_data, memory_address_size}
use lock_free.Arena.Core.{unsafe_deallocate, deallocate}
use lock_free.Arena.FreeList.{all_free}
use lock_free.Arena.Deallocate.{instance_at-some, deallocate-Deallocated}
use lock_free.Arena.Inv.{Layout, Inv, slots, Returns, returns, bind}

-- `deallocate` and `unsafe_deallocate` refuse a null pointer and change nothing.
pub deallocate-null :
    {A : Type 0} (c : Config) (w : World A)
    → (deallocate c null w ≡ some (null_pointer, w))
      × (unsafe_deallocate c null w ≡ some (null_pointer, w))
unfolding deallocate unsafe_deallocate
deallocate-null c w = (refl, refl)

module _ {A : Type 0} (c : Config) (lay : Layout c) (this : ℕ) {held : Bool} {live : ℕ → Bool}
    {used : ℕ} {w : World A} (inv : Inv c this held live used w) (p : ℕ)
    (owned : p ∈ slots c (w.arena this)) (idle : live p ≡ false) where
  guards :
      ((prt c p == null) ≡ false)
      × (slot_from_user_data (prt c p) ≡ p)
      × (is_free (w.mem p) ≡ true)
      × (LookupTable.at w.instances_table (get_index (w.mem p)) ≡ some this)
  guards =
      let o = inv.good.owned p owned in
      let (b, n) : (c.user_data_offset ≡ memory_address_size) × (p ≢ null) =
        (lay.behind, o.ne_null) in
      (
        ne→== _ _ (omega arith),
        omega arith,
        all_free p inv.good.chain (ground (arith, inv.good.cover p)),
        rw o.named inv.registered,
      )

  abbrev destroyed_world : World A
  destroyed_world = record w { destroyed = prt c p ∷ w.destroyed }

  found : instance_at (get_index (w.mem p)) destroyed_world ≡ some (this, destroyed_world)
  found = instance_at-some destroyed_world (get_index (w.mem p)) this guards.3

  -- On a well-formed allocator whose object lies right behind the address word of its slot,
  -- `deallocate` and `unsafe_deallocate` of the object of a slot of the allocator that is not in
  -- use report a double free, and change nothing except that the destructor has run on the object.
  pub deallocate-double_free :
      (deallocate c (prt c p) w
        ≡ some (double_free, record w { destroyed = prt c p ∷ w.destroyed }))
      × (unsafe_deallocate c (prt c p) w
          ≡ some (double_free, record w { destroyed = prt c p ∷ w.destroyed }))
  unfolding deallocate unsafe_deallocate
  deallocate-double_free =
      let (g0, g1, g2, g3) = guards in
      (rw (g0, g1, found, ◌>>=◌, g1, g2), rw (g0, g1, found, ◌>>=◌, g1, g2))

-- On a well-formed allocator whose object lies right behind the address word of its slot, with a
-- lock that is free, two calls of `deallocate` in a row on the object of a slot in use return: the
-- second one reports a double free, the allocator is well-formed with that slot free, and the
-- destructor has run on the object twice.
pub deallocate-deallocate :
    {A : Type 0} (c : Config) (lay : Layout c) (this : ℕ) {live : ℕ → Bool} {used : ℕ} {w : World A}
    (inv : Inv c this false live (suc used) w) (p : ℕ)
    → live p ≡ true
    → Returns
        (λ code w'.
          (code ≡ double_free)
          × (w'.destroyed ≡ prt c p ∷ prt c p ∷ w.destroyed)
          × Inv c this false (update live p false) used w')
        ((deallocate c (prt c p) >>= λ _. deallocate c (prt c p)) w)
deallocate-deallocate c lay this {w} inv p busy =
    bind (λ _. deallocate c (prt c p)) (deallocate c (prt c p)) w
      (deallocate-Deallocated c lay this inv p busy)
      λ _ w1 d.
        let owned : p ∈ slots c (w1.arena this) =
          d.frame.grows p (ground (arith, inv.good.cover p)) in
        let again = deallocate-double_free c lay this d.inv p owned (ground arith) in
        rw again.0 (
          returns (
            refl,
            rw d.destroyed,
            record {
              mutex = d.inv.mutex;
              good = d.inv.good;
              placed = d.inv.placed;
              registered = d.inv.registered;
            },
          ))
