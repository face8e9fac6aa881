-- ===== src/NodeArena/FromLockFree.antt =====
-- `lock_free::arena_allocator`, include/arena_allocator.h, called with no other thread between, as
-- the arena of a queue or a stack: the objects are nodes. Each call of `allocate` and `deallocate`
-- may meet as many weak exchanges that fail for no reason as the parameters say.
use lock_free.Common.{
  ℕ, suc, ◌≤◌, ◌^◌, ◌≡◌, ◌≢◌, ◌⊎◌, refl, Bool, true, false, arith, update, subst,
}
use lock_free.Types.{success, Node}
use lock_free.Command.{Returns, returns, mono}
use lock_free.MemoryAddress.{null}
use lock_free.Arena.{Config, World}
use lock_free.Arena.Slot.{slot_from_user_data}
use lock_free.Arena.Core
use lock_free.Arena.Inv.{Layout}
use lock_free.Arena.Inv.{Ready as ArenaReady}
use lock_free.Arena.Deallocate.{Deallocated}
use lock_free.Arena.Observe.{clear-Cleared}
use lock_free.LockFreeArena.Ops.{allocate, deallocate, clear}
use lock_free.LockFreeArena.Ops.{length as arena_length}
use lock_free.LockFreeArena.Refine.{
  lock_free_allocate-Allocated, lock_free_deallocate-Deallocated, lock_free_length_lem,
}
use lock_free.NodeArena.{NodeArena, SameNodes}
use lock_free.NodeArena.Nodes.{
  node, set_next, Valid, slots_live, prt-slot, slot-live, Allocated-nodes, Deallocated-nodes,
  set_next_law,
}

-- The counts fit a signed number: `data_size_t` is `uint32_t`.
module _ {V : Type 0} (c : Config) (lay : Layout c) (narrow : 2 ^ c.size_bits ≤ 2 ^ 63)
    (add_fails take_fails give_fails : ℕ) (this : ℕ) where
  pub lock_free_allocate_law :
      (v : V) (w : World (Node V)) (live : ℕ → Bool) (used : ℕ)
      → Valid c this w live used
      → ArenaReady c this w
      → Returns
          (λ a w'.
            ((a ≡ null) × Valid c this w' live used × SameNodes node live w w')
            ⊎ ((a ≢ null)
                × (live a ≡ false)
                × Valid c this w' (update live a true) (suc used)
                × (node w' a ≡ record { value = v; next = null })
                × SameNodes node live w w'))
          (allocate c add_fails take_fails this (record { value = v; next = null }) w)
  unfolding Valid
  lock_free_allocate_law v w live used (inv, far) ready =
      Allocated-nodes c lay this v w live used far (
        lock_free_allocate-Allocated c lay this add_fails take_fails
          (record { value = v; next = null }) inv ready)

  pub lock_free_deallocate_law :
      (a : ℕ) (w : World (Node V)) (live : ℕ → Bool) (used : ℕ)
      → Valid c this w live (suc used)
      → live a ≡ true
      → Returns
          (λ code w'.
            (code ≡ success)
            × Valid c this w' (update live a false) used
            × SameNodes node (update live a false) w w')
          (deallocate c give_fails a w)
  unfolding Valid
  lock_free_deallocate_law a w live used (inv, far) l =
      let p = slot_from_user_data a in
      Deallocated-nodes c lay this a w live used far l (
        subst
          (λ x.
            Returns (Deallocated c this false (slots_live c live) used p w)
              (deallocate c give_fails x w))
          (prt-slot c lay a (far a l))
          (lock_free_deallocate-Deallocated c lay this give_fails p inv
            (slot-live c lay live a (far a l) l)))

  pub lock_free_length_law :
      (w : World (Node V)) (live : ℕ → Bool) (used : ℕ)
      → Valid c this w live used
      → Returns
          (λ n w'. (n ≡ used) × Valid c this w' live used × SameNodes node live w w')
          (arena_length c this w)
  unfolding Valid
  lock_free_length_law w live used (inv, far) =
      rw (lock_free_length_lem c lay this inv (let b = inv.good.bound in omega arith))
        (returns (refl, (inv, far), λ a l. refl))

  pub lock_free_clear_law :
      (w : World (Node V)) (live : ℕ → Bool) (used : ℕ)
      → Valid c this w live used
      → Returns (λ _ w'. Valid c this w' (λ _. false) 0) (clear c this w)
  unfolding Valid clear Core.clear
  lock_free_clear_law w live used (inv, far) =
      mono (clear-Cleared c lay this inv) (λ u w' k. returns (k.inv, λ x n. cc))

  -- The arena with these operations keeps the laws.
  abbrev pub lock_free_arena : NodeArena V
  lock_free_arena = record {
    State = World (Node V);
    node = node;
    set_next = set_next;
    allocate = λ v. allocate c add_fails take_fails this (record { value = v; next = null });
    deallocate = deallocate c give_fails;
    length = arena_length c this;
    clear = clear c this;
    Valid = Valid c this;
    Ready = ArenaReady c this;
    set_next_law = set_next_law c lay this;
    allocate_law = lock_free_allocate_law;
    deallocate_law = lock_free_deallocate_law;
    length_law = lock_free_length_law;
    clear_law = lock_free_clear_law;
  }
