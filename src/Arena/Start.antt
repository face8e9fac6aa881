-- ===== src/Arena/Start.antt =====
-- The constructor of an allocator, include/core/arena_allocator.h and
-- include/arena_allocator.h: it adds chunks by `add_mem_chuck`.
use lock_free.Common.{
  pos_pow, ℕ, zero, suc, ◌^◌, ◌≤◌, ◌<◌, ◌≡◌, ◌≢◌, refl, inl, inr, true, false, some, List, [], ◌∷◌,
  arith, Bool-cases, ltb, update, length, ◌∈◌,
}
use lock_free.MemoryAddress.{null, counter_bits}
use lock_free.LookupTable
use lock_free.LookupTable.Laws.{add-Added}
use lock_free.Arena.{Config, Arena, World}
use lock_free.Arena.Core.{add_mem_chuck, max_length}
use lock_free.Arena.FreeList.{nil}
use lock_free.Arena.Locked.{max_length-same, add_mem_chuck-unsafe}
use lock_free.Arena.Lifecycle.{grow_loop, fresh_arena, capture_instance_index, start_thread, create}
use lock_free.Arena.Inv.{Layout, Inv, Returns, returns, bind, update_self}
use lock_free.Arena.GrowLoop.{Supply, Started, grow_loop-Started}

pub at-bound : (i : ℕ) (t : List ℕ) (v : ℕ) → LookupTable.at t i ≡ some v → i < length t
unfolding LookupTable.at
at-bound i [] v e = cc
at-bound zero (x ∷ xs) v e = omega arith
at-bound (suc i) (x ∷ xs) v e = let rest = at-bound i xs v e in omega arith

module _ {A : Type 0} (c : Config) (this : ℕ) where
  -- A store of other members than the lock keeps the allocator well-formed.
  pub start_thread-Started :
      (w : World A) (answers : List ℕ)
      → Started c this answers w
      → Returns (λ _. Started c this answers) (start_thread c this w)
  unfolding start_thread
  start_thread-Started w answers st = elim (Bool-cases (ltb 0 c.alloc_threshold)) [
    | inl th ↦
        let a' : Arena = record (w.arena this) { th_alloc = true } in
        let here : update w.arena this a' this ≡ a' = update_self w.arena this a' in
        let i = st.inv in
        let g = st.inv.good in
        rw th (
          returns (record {
            inv = record {
              mutex = rw here i.mutex;
              good = rw here (record {
                free = g.free;
                chain = g.chain;
                free_count = g.free_count;
                max_count = g.max_count;
                chunk_count = g.chunk_count;
                bound = g.bound;
                cover = g.cover;
                busy = g.busy;
                owned = g.owned;
                index_fits = g.index_fits;
              });
              placed = i.placed;
              registered = rw here i.registered;
            };
            sized = rw here st.sized;
          }))
    | inr no_th ↦ rw no_th (returns st)
  ]

  pub captured :
      (w : World A)
      → this ≢ null
      → null ∈ w.instances_table
      → length w.instances_table ≤ 2 ^ counter_bits c.arch
      → Returns
          (λ _ w'.
            Inv c this false (λ _. false) 0 w'
            × (w'.answers ≡ w.answers)
            × ((w'.arena this).mem_chunks ≡ []))
          (capture_instance_index this (record w { arena = update w.arena this fresh_arena }))
  unfolding capture_instance_index
  captured w placed room fits =
      let (pos, out, e, a) = add-Added null 0 this w.instances_table room in
      let here : update w.arena this fresh_arena this ≡ fresh_arena =
        update_self w.arena this fresh_arena in
      let a' : Arena = record fresh_arena { ndx_instance = pos } in
      let f1 = update w.arena this fresh_arena in
      let there : update f1 this a' this ≡ a' = update_self f1 this a' in
      rw (here, e)
        (returns (
          record {
            mutex = rw there refl;
            good = rw there (record {
              free = [];
              chain = nil;
              free_count = refl;
              max_count = refl;
              chunk_count = omega arith;
              bound = pos_pow c.size_bits;
              cover = λ p. refl;
              busy = λ p b. cc;
              owned = λ p i. cc;
              index_fits = let b = at-bound pos w.instances_table null a.was_null in omega arith;
            });
            placed = placed;
            registered = rw there a.stored;
          },
          refl,
          rw there refl,
        ))

module _ {A : Type 0} (c : Config) (lay : Layout c) (this : ℕ) where
  -- If the allocator does not lie at null, the table of the instances has a null entry and its
  -- indices fit the counter of an address word, and each block that the system hands out is fresh
  -- when it comes, the constructor's loop ends within one round more than the system has answers,
  -- and the constructor returns a well-formed allocator without an object and with its lock free;
  -- it has `initial_size` slots at least, or the last answer that the system has given it was
  -- null, or the system has given it all its answers and none was null.
  pub create-Started :
      (rounds : ℕ) (w : World A)
      → this ≢ null
      → null ∈ w.instances_table
      → length w.instances_table ≤ 2 ^ counter_bits c.arch
      → ((a : Arena) → a.mem_chunks ≡ [] → Supply c a w.answers)
      → length w.answers < rounds
      → Returns (λ _. Started c this w.answers) (create c rounds this w)
  unfolding create
  create-Started rounds w placed room fits supply more =
      bind _ (capture_instance_index this) (record w { arena = update w.arena this fresh_arena })
        (captured c this w placed room fits)
        (λ _ w1 (inv, same, bare).
          bind _ (grow_loop c (max_length c) (add_mem_chuck c) rounds this) w1
            (grow_loop-Started c lay this (max_length c) (add_mem_chuck c)
              (λ v free. max_length-same this v free c) (add_mem_chuck-unsafe c this) rounds w1
              w.answers same more inv (supply (w1.arena this) bare))
            (λ _ w2 st. start_thread-Started c this w2 w.answers st))
