-- ===== src/Tests/Common.antt =====
-- An allocator of nodes at address 1000 with chunks of two slots, on a 64-bit machine: without
-- chunks, and with one chunk at 4096 whose first slot is in use.
use lock_free.Common.{
  ℕ, ◌≡◌, refl, Bool, true, false, List, [], ◌∷◌, arith, update, ◌⊎◌, inl, inr, subst, sym,
}
use lock_free.Types.{Node}
use lock_free.MemoryAddress.{ptr64, null}
use lock_free.MemoryAddress.{fresh, set_address, set_flag, unset_flag, set_counter, test_flag}
use lock_free.LookupTable
use lock_free.Arena.{Config, Arena, World, init_slots, prt}
use lock_free.Arena.Slot.{MemorySlot, set_in_use, set_free, set_index, in_use, get_index}
use lock_free.Arena.FreeList.{nil, cons}
use lock_free.Arena.Inv.{Layout, Inv, Ready}
use lock_free.NodeArena.Chain.{live_of}

abbrev pub config : ℕ → Config
config threshold = record {
  arch = ptr64;
  size_bits = 32;
  chunk_size = 2;
  initial_size = 2;
  size_limit = 0;
  alloc_threshold = threshold;
  memory_slot_size = 24;
  user_data_offset = 8;
}

pub config-Layout : (n : ℕ) → Layout (config n)
config-Layout n = record { some_slots = omega arith; some_bytes = omega arith; behind = refl }

abbrev pub this : ℕ
this = 1000

abbrev pub blank : MemorySlot (Node ℕ)
blank = record { ptr_next = fresh; user_data = record { value = 0; next = 0 } }

abbrev pub no_chunks : Arena
no_chunks = record {
  ndx_instance = 0;
  mem_chunks = [];
  next_free = null;
  max_length = 0;
  free_slots = 0;
  capacity = 0;
  mtx_next = false;
  th_alloc = false;
  sem_th_alloc = 0;
  th_alloc_exit = false;
}

abbrev pub empty_world : World (Node ℕ)
empty_world = record {
  mem = λ _. blank;
  instances_table = 1000 ∷ [];
  arena = λ _. no_chunks;
  answers = 4096 ∷ [];
  released = [];
  destroyed = [];
}

pub empty-Inv : (n : ℕ) → Inv (config n) this false (λ _. false) 0 empty_world
unfolding LookupTable.at
empty-Inv n = record {
  mutex = refl;
  good = record {
    free = [];
    chain = nil;
    free_count = refl;
    max_count = refl;
    chunk_count = refl;
    bound = omega arith;
    cover = λ p. refl;
    busy = λ p b. cc;
    owned = λ p i. cc;
    index_fits = omega arith;
  };
  placed = omega arith;
  registered = refl;
}

pub empty-Ready : (n : ℕ) → Ready (config n) this empty_world
empty-Ready n = λ _. record { fits = omega arith; apart = λ x i. refl; countable = omega arith }

-- One chunk; the node in its first slot holds 7.
abbrev pub one_chunk : Arena
one_chunk = record no_chunks {
  mem_chunks = record { first_slot = 4096; last_slot = 4120 } ∷ [];
  next_free = 4120;
  max_length = 2;
  free_slots = 1;
  capacity = 48;
}

abbrev pub one_node : ℕ → MemorySlot (Node ℕ)
one_node =
    let m = init_slots (config 0) 0 2 4096 (λ _. blank) in
    update m 4096
      (record (set_in_use ptr64 (m 4096)) { user_data = record { value = 7; next = null } })

abbrev pub busy_world : World (Node ℕ)
busy_world = record empty_world { mem = one_node; arena = λ _. one_chunk; answers = [] }

abbrev pub cells : List (ℕ × ℕ)
cells = (4104, 7) ∷ []

abbrev pub busy_live : ℕ → Bool
busy_live p = live_of cells (prt (config 0) p)

pub busy-Inv : Inv (config 0) this false busy_live 1 busy_world
unfolding init_slots LookupTable.at set_in_use set_free set_index set_address set_flag unset_flag
    set_counter test_flag
busy-Inv = record {
  mutex = refl;
  good = record {
    free = 4120 ∷ [];
    chain = cons (omega arith) refl refl refl nil;
    free_count = refl;
    max_count = refl;
    chunk_count = refl;
    bound = omega arith;
    cover = λ p. ground arith;
    busy = λ p b.
        let e : p ≡ 4096 = ground arith in subst (λ x. in_use (one_node x) ≡ true) (sym e) refl;
    owned = λ p i.
        let named : (x : ℕ) → ((x ≡ 4096) ⊎ (x ≡ 4120)) → get_index (one_node x) ≡ 0 = λ x e.
          elim e [
            | inl a ↦ subst (λ y. get_index (one_node y) ≡ 0) (sym a) refl
            | inr b ↦ subst (λ y. get_index (one_node y) ≡ 0) (sym b) refl
          ] in
        let e : ((p ≡ 4096) ⊎ (p ≡ 4120)) = ground (arith, i) in
        record { named = named p e; fits = grind (arith, e); ne_null = grind (arith, e) };
    index_fits = omega arith;
  };
  placed = omega arith;
  registered = refl;
}
