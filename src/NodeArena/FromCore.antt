-- ===== src/NodeArena/FromCore.antt =====
-- `core::arena_allocator`, include/core/arena_allocator.h, as the arena of a queue or a stack: the
-- objects are nodes.
use lock_free.Common.{ℕ, suc, ◌≡◌, ◌≢◌, ◌⊎◌, Bool, true, false, update, ap, subst}
use lock_free.Types.{success, Node}
use lock_free.Command.{Returns, returns, mono}
use lock_free.MemoryAddress.{null}
use lock_free.Arena.{Config, World}
use lock_free.Arena.Slot.{MemorySlot, slot_from_user_data}
use lock_free.Arena.Core.{allocate, deallocate, clear}
use lock_free.Arena.Core.{length as arena_length}
use lock_free.Arena.Inv.{Layout}
use lock_free.Arena.Inv.{Ready as ArenaReady}
use lock_free.Arena.Allocate.{allocate-Allocated}
use lock_free.Arena.Deallocate.{Deallocated, deallocate-Deallocated}
use lock_free.Arena.Observe.{clear-Cleared, length_lem}
use lock_free.NodeArena.{NodeArena, SameNodes}
use lock_free.NodeArena.Nodes.{
  node, set_next, Valid, slots_live, prt-slot, slot-live, data_kept, Allocated-nodes,
  Deallocated-nodes, set_next_law,
}

module _ {V : Type 0} (c : Config) (lay : Layout c) (this : ℕ) where
  pub allocate_law :
      (v : V) (w : World (Node V)) (live : ℕ → Bool) (used : ℕ)
      → Valid c this w live used
      → ArenaReady c this w
      → Returns
          (λ a w'.
            ((a ≡ null) × Valid c this w' live used × SameNodes node live w w')
            ⊎ ((a ≢ null)
                × (live a ≡ false)
                × Valid c this w' (update live a true) (suc used)
                × (node w' a ≡ record { value = v; next = null })
                × SameNodes node live w w'))
          (allocate c this (record { value = v; next = null }) w)
  unfolding Valid
  allocate_law v w live used (inv, far) ready =
      Allocated-nodes c lay this v w live used far
        (allocate-Allocated c lay this (record { value = v; next = null }) inv ready)

  pub deallocate_law :
      (a : ℕ) (w : World (Node V)) (live : ℕ → Bool) (used : ℕ)
      → Valid c this w live (suc used)
      → live a ≡ true
      → Returns
          (λ code w'.
            (code ≡ success)
            × Valid c this w' (update live a false) used
            × SameNodes node (update live a false) w w')
          (deallocate c a w)
  unfolding Valid
  deallocate_law a w live used (inv, far) l =
      let p = slot_from_user_data a in
      Deallocated-nodes c lay this a w live used far l (
        subst
          (λ x. Returns (Deallocated c this false (slots_live c live) used p w) (deallocate c x w))
          (prt-slot c lay a (far a l))
          (deallocate-Deallocated c lay this inv p (slot-live c lay live a (far a l) l)))

  pub length_law :
      (w : World (Node V)) (live : ℕ → Bool) (used : ℕ)
      → Valid c this w live used
      → Returns
          (λ n w'. (n ≡ used) × Valid c this w' live used × SameNodes node live w w')
          (arena_length c this w)
  unfolding Valid
  length_law w live used (inv, far) = mono (length_lem c this inv) (λ n w' (e, inv', same, _).
      returns (
        e,
        (inv', far),
        data_kept c lay live w w' far
            (λ x k. ap (λ (m : ℕ → MemorySlot (Node V)). (m x).user_data) same),
      ))

  pub clear_law :
      (w : World (Node V)) (live : ℕ → Bool) (used : ℕ)
      → Valid c this w live used
      → Returns (λ _ w'. Valid c this w' (λ _. false) 0) (clear c this w)
  unfolding Valid
  clear_law w live used (inv, far) =
      mono (clear-Cleared c lay this inv) (λ u w' k. returns (k.inv, λ x n. cc))

  -- The arena with these operations keeps the laws.
  abbrev pub core_arena : NodeArena V
  core_arena = record {
    State = World (Node V);
    node = node;
    set_next = set_next;
    allocate = λ v. allocate c this (record { value = v; next = null });
    deallocate = deallocate c;
    length = arena_length c this;
    clear = clear c this;
    Valid = Valid c this;
    Ready = ArenaReady c this;
    set_next_law = set_next_law c lay this;
    allocate_law = allocate_law;
    deallocate_law = deallocate_law;
    length_law = length_law;
    clear_law = clear_law;
  }
