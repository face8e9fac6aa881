-- ===== src/Arena/Deallocate.antt =====
-- `unsafe_deallocate` and `deallocate` of `core::arena_allocator`.
use native.Mathlib.Nat.{mod-eq_of_lt}
use lock_free.Common.{
  ℕ, suc, ◌+◌, ◌^◌, ◌≡◌, refl, ◌≢◌, Bool, true, false, some, arith, Bool-cases, inl, inr, ◌==◌,
  update, has, ◌∈◌, ◌∉◌, subst, sym, ◌∙◌, ap, length, ◌<◌, ne→==, ◌∷◌,
}
use lock_free.Types.{Result, success}
use lock_free.MemoryAddress.{null}
use lock_free.LookupTable
use lock_free.Arena.{Config, Arena, World, ◌>>=◌, wrap, prt, instance_at}
use lock_free.Arena.Slot.{
  MemorySlot, next, in_use, is_free, get_index, set_free, set_free_lem, slot_from_user_data,
  memory_address_size,
}
use lock_free.Arena.Core.{put_back, unsafe_deallocate, deallocate, lock, unlock}
use lock_free.Arena.FreeList.{cons, frame, all_free}
use lock_free.Arena.Grow.{next_free_fits}
use lock_free.Arena.Inv.{
  Layout, Good, Inv, Owned, Frame, SameData, slots, Returns, returns, update_self, update_ne,
}

-- The allocator when the slot `p` has come back.
abbrev returned_arena : Config → Arena → (p : ℕ) (held : Bool) → Arena
returned_arena c a p held = record a {
  next_free = p;
  free_slots = wrap c (a.free_slots + 1);
  mtx_next = held;
}

module _ {A : Type 0} (c : Config) {live : ℕ → Bool} {used : ℕ} {m : ℕ → MemorySlot A} {a : Arena}
    (good : Good c live (suc used) m a) (p : ℕ) (busy : live p ≡ true) where
  returned : MemorySlot A
  returned = set_free c.arch (m p) a.next_free

  returned_lem :
      (is_free returned ≡ true)
      × (in_use returned ≡ false)
      × (next returned ≡ a.next_free)
      × (get_index returned ≡ get_index (m p))
      × (returned.user_data ≡ (m p).user_data)
  unfolding returned
  returned_lem = set_free_lem c.arch (m p) a.next_free (next_free_fits c good)

  own : Owned c a.ndx_instance m p
  own = good.owned p (ground (arith, good.cover p))

  not_free : p ∉ good.free
  not_free = elim (Bool-cases (has p good.free)) [
    | inl i ↦ ground (arith, all_free p good.chain i, good.busy p)
    | inr o ↦ o
  ]

  put_back-Good :
      (held : Bool)
      → Good c
          (update live p false)
          used
          (update m p (set_free c.arch (m p) a.next_free))
          (returned_arena c a p held)
  unfolding returned
  put_back-Good held = record {
    free = p ∷ good.free;
    chain =
        cons own.ne_null (ground (arith, returned_lem)) (ground (arith, returned_lem)) not_free
          (frame good.chain (λ x i. ground (arith, not_free)));
    free_count =
        let (f, n, b) : (a.free_slots ≡ length good.free)
            × (a.max_length ≡ length good.free + suc used)
            × (a.max_length < 2 ^ c.size_bits) =
          (good.free_count, good.max_count, good.bound) in
        mod-eq_of_lt (omega arith) ∙ omega arith;
    max_count = let g = good.max_count in omega arith;
    chunk_count = good.chunk_count;
    bound = good.bound;
    cover = λ x. ground (arith, good.cover x);
    busy = λ x b. ground (arith, good.busy x);
    owned = λ x i.
        let o = good.owned x i in
        record {
          named = let h = o.named in ground (arith, returned_lem);
          fits = o.fits;
          ne_null = o.ne_null;
        };
    index_fits = good.index_fits;
  }

-- The slot `slot` is free, its object has been destroyed once, and nothing else has changed.
pub record Deallocated {A : Type 0} (c : Config) (this : ℕ) (held : Bool) (live : ℕ → Bool)
    (used slot : ℕ) (w : World A) (code : Result) (w' : World A) : Type 0 where
  pub succeeded : code ≡ success
  pub inv : Inv c this held (update live slot false) used w'
  pub frame : Frame c this w w'
  pub same : SameData live w.mem w'.mem
  pub destroyed : w'.destroyed ≡ prt c slot ∷ w.destroyed

pub instance_at-some :
    {A : Type 0} (w : World A) (index this : ℕ)
    → LookupTable.at w.instances_table index ≡ some this
    → instance_at index w ≡ some (this, w)
instance_at-some w index this e = rw (e, instance_at)

module _ {A : Type 0} (c : Config) (lay : Layout c) (this : ℕ) {held : Bool} {live : ℕ → Bool}
    {used : ℕ} {w : World A} (inv : Inv c this held live (suc used) w) (p : ℕ)
    (busy : live p ≡ true) where
  pub Deallocated-world :
      (held' : Bool) (arenas : ℕ → Arena) (head : ℕ)
      → head ≡ (w.arena this).next_free
      → arenas this ≡ returned_arena c (w.arena this) p held'
      → ((q : ℕ) → q ≢ this → arenas q ≡ w.arena q)
      → Deallocated c this held' live used p w success (record w {
        mem = update w.mem p (set_free c.arch (w.mem p) head);
        arena = arenas;
        destroyed = prt c p ∷ w.destroyed;
      })
  Deallocated-world held' arenas head first here others = rw first (record {
    succeeded = refl;
    inv = record {
      mutex = rw here refl;
      good = rw here (put_back-Good c inv.good p busy held');
      placed = inv.placed;
      registered = rw here inv.registered;
    };
    frame = record {
      table = refl;
      index = rw here refl;
      others = others;
      outside =
          λ x o. let o' = subst (λ b. x ∉ slots c b) here o in ground (arith, inv.good.cover p);
      grows = λ x o. subst (λ b. x ∈ slots c b) (sym here) o;
    };
    same = λ x b.
        ground (
          arith,
          set_free_lem c.arch (w.mem p) (w.arena this).next_free (next_free_fits c inv.good),
        );
    destroyed = refl;
  })

  -- What the guards of a call find.
  pub guards :
      ((prt c p == null) ≡ false)
      × (slot_from_user_data (prt c p) ≡ p)
      × (is_free (w.mem p) ≡ false)
      × (LookupTable.at w.instances_table (get_index (w.mem p)) ≡ some this)
  guards =
      let o = own c inv.good p busy in
      let (b, n) : (c.user_data_offset ≡ memory_address_size) × (p ≢ null) =
        (lay.behind, o.ne_null) in
      (
        ne→== _ _ (omega arith),
        omega arith,
        ground (arith, inv.good.busy p),
        rw o.named inv.registered,
      )

  -- The state in which the allocator of the slot is looked up.
  abbrev pub destroyed_world : World A
  destroyed_world = record w { destroyed = prt c p ∷ w.destroyed }

  pub found : instance_at (get_index (w.mem p)) destroyed_world ≡ some (this, destroyed_world)
  found = instance_at-some destroyed_world (get_index (w.mem p)) this guards.3

  -- On a well-formed allocator whose object lies right behind the address word of its slot,
  -- `unsafe_deallocate` of the object of a slot in use returns success and leaves the lock as it
  -- was: the slot is not in use, the destructor has run on the object once, the allocator stays
  -- well-formed, the objects that were in use keep their contents, and nothing outside its slots
  -- changes.
  pub unsafe_deallocate-Deallocated :
      Returns (Deallocated c this held live used p w) (unsafe_deallocate c (prt c p) w)
  unfolding unsafe_deallocate put_back
  unsafe_deallocate-Deallocated =
      let (g0, g1, g2, g3) = guards in
      rw (g0, g1, found, ◌>>=◌, g1, g2, ne→== this null inv.placed, g1)
        (returns (
          Deallocated-world held _ _ refl
            (update_self w.arena this _ ∙ ap (returned_arena c (w.arena this) p) inv.mutex)
            (λ q n. update_ne w.arena this q _ n)))

module _ {A : Type 0} (c : Config) (lay : Layout c) (this : ℕ) {live : ℕ → Bool} {used : ℕ}
    {w : World A} (inv : Inv c this false live (suc used) w) (p : ℕ) (busy : live p ≡ true) where
  -- On a well-formed allocator whose object lies right behind the address word of its slot, with a
  -- lock that is free, `deallocate` of the object of a slot in use returns success, with the lock
  -- free again: the slot is not in use, the destructor has run on the object once, the allocator
  -- stays well-formed, the objects that were in use keep their contents, and nothing outside its
  -- slots changes.
  pub deallocate-Deallocated :
      Returns (Deallocated c this false live used p w) (deallocate c (prt c p) w)
  unfolding deallocate put_back lock unlock
  deallocate-Deallocated =
      let (g0, g1, g2, g3) = guards c lay this inv p busy in
      let a = w.arena this in
      let a1 : Arena = record a { mtx_next = true } in
      let f1 = update w.arena this a1 in
      let back : Arena → Arena =
        λ b. record b { next_free = p; free_slots = wrap c (b.free_slots + 1) } in
      let f2 = update f1 this (back (f1 this)) in
      let release : Arena → Arena = λ b. record b { mtx_next = false } in
      let f3 = update f2 this (release (f2 this)) in
      let first : f1 this ≡ a1 = update_self w.arena this a1 in
      let second = update_self f1 this (back (f1 this)) ∙ ap back first in
      let third = update_self f2 this (release (f2 this)) ∙ ap release second in
      rw
        (
          g0,
          g1,
          found c lay this inv p busy,
          ◌>>=◌,
          g1,
          g2,
          ne→== this null inv.placed,
          inv.mutex,
          g1,
        )
        (returns (
          Deallocated-world c lay this inv p busy false f3 (f1 this).next_free
            (ap (λ (b : Arena). b.next_free) first) third
            (λ q n.
              update_ne f2 this q _ n ∙ update_ne f1 this q _ n ∙ update_ne w.arena this q _ n)))
