-- ===== src/Arena/Grow.antt =====
-- A new chunk keeps the allocator well-formed.
use lock_free.Common.{
  ℕ, suc, ◌+◌, ◌-◌, ◌*◌, ◌^◌, ◌<◌, ◌≡◌, refl, ◌≢◌, Bool, true, false, ◌||◌, List, [], ◌∷◌, ◌++◌,
  arith, length, has, ◌∈◌, ◌∉◌, has-append, append-nil, Bool-cases, update, length-append, ltb,
  subst, sym, inl, inr,
}
use native.Mathlib.Nat.{mod-eq_of_lt}
use lock_free.MemoryAddress.{ptr32, ptr64, addr_bits, null}
use lock_free.Arena.{Config, MemoryChunk, Arena, wrap, memory_required_per_chunk, init_slots}
use lock_free.Arena.Slot.{MemorySlot, in_use, get_index, set_free, set_free_lem, next, is_free}
use lock_free.Arena.FreeList.{FreeSeg, frame, append, relink, head_cases}
use lock_free.Arena.Run.{
  run, run-suc, length-run, Chained, init_slots-Chained, not-mem-run, run_bounds,
}
use lock_free.Arena.Inv.{Layout, Good, Owned, Fresh, SameData, slots, slots_of-append}

module _ (c : Config) (lay : Layout c) where
  open c use {memory_slot_size}

  last_mem :
      (n k p l : ℕ)
      → k ≡ suc n
      → l ≡ p + n * memory_slot_size
      → (run memory_slot_size p k ≡ run memory_slot_size p n ++ l ∷ [])
        × (l ∈ run memory_slot_size p k)
        × (l ∉ run memory_slot_size p n)
  last_mem n k p l ek e = (
    same,
    subst (λ xs. l ∈ xs) (sym same) (rw has-append (ground arith)),
    not-mem-run memory_slot_size p n l lay.some_bytes (omega arith),
  )
    where
      same : run memory_slot_size p k ≡ run memory_slot_size p n ++ l ∷ []
      same = rw (ek, e) (run-suc memory_slot_size p n)

module _ {A : Type 0} (c : Config) (lay : Layout c) where
  open c use {memory_slot_size}

  -- The free list of a new chunk, led on to the old one.
  Chained-link :
      (n k index p q l : ℕ) (ys : List ℕ) {m m' : ℕ → MemorySlot A}
      → k ≡ suc n
      → l ≡ p + n * memory_slot_size
      → Chained c index (run memory_slot_size p k) p m m'
      → FreeSeg m null q ys
      → ((a : ℕ) → a ∈ run memory_slot_size p k → a ∉ ys)
      → q < 2 ^ addr_bits c.arch
      → FreeSeg (update m' l (set_free c.arch (m' l) q)) null p (run memory_slot_size p k ++ ys)
  Chained-link n k index p q l ys {m} {m'} ek e ch s apart fits =
      let (same, l_in, l_out) = last_mem c lay n k p l ek e in
      append
        (subst (λ xs. FreeSeg (update m' l (set_free c.arch (m' l) q)) q p xs) (sym same)
          (relink c.arch (run memory_slot_size p n) l q
            (subst (λ xs. FreeSeg m' null p xs) same ch.chain) l_out fits))
        (frame s (λ a i. ground (arith, apart a, apart l l_in, ch.same a))) apart

null_fits : (c : Config) → null < 2 ^ addr_bits c.arch
null_fits c = elim c.arch as (λ a. null < 2 ^ addr_bits a) [
  | ptr32 ↦ omega arith
  | ptr64 ↦ omega arith
]

module _ {A : Type 0} (c : Config) {live : ℕ → Bool} {used : ℕ} {m : ℕ → MemorySlot A} {a : Arena}
    (good : Good c live used m a) where
  pub next_free_fits : a.next_free < 2 ^ addr_bits c.arch
  next_free_fits = elim (head_cases good.chain) [
    | inl (e, _) ↦ rw e (null_fits c)
    | inr (ne, ys, e, out, rest) ↦
        (good.owned a.next_free (ground (arith, good.cover a.next_free))).fits
  ]

-- The slots of a chunk at `p`, its last slot, and memory after the loop and after the link.
abbrev pub block : Config → ℕ → List ℕ
block c p = run c.memory_slot_size p c.chunk_size

abbrev pub last : Config → ℕ → ℕ
last c p = p + (c.chunk_size - 1) * c.memory_slot_size

abbrev pub chained_mem : {A : Type 0} → Config → Arena → (ℕ → MemorySlot A) → ℕ → ℕ → MemorySlot A
chained_mem c a m p = init_slots c a.ndx_instance c.chunk_size p m

abbrev pub linked_mem : {A : Type 0} → Config → Arena → (ℕ → MemorySlot A) → ℕ → ℕ → MemorySlot A
linked_mem c a m p =
    update (chained_mem c a m p) (last c p)
      (set_free c.arch (chained_mem c a m p (last c p)) a.next_free)

-- The allocator with one chunk more, at `p`.
abbrev pub linked_arena : Config → Arena → (p : ℕ) → Arena
linked_arena c a p =
    let chunks = a.mem_chunks ++ (record { first_slot = p; last_slot = last c p } ∷ []) in
    record a {
      mem_chunks = chunks;
      next_free = p;
      max_length = wrap c (c.chunk_size * length chunks);
      free_slots = wrap c (a.free_slots + c.chunk_size);
      capacity = wrap c (memory_required_per_chunk c * length chunks);
    }

module _ {A : Type 0} (c : Config) (lay : Layout c) {live : ℕ → Bool} {used : ℕ}
    {m : ℕ → MemorySlot A} {a : Arena} (good : Good c live used m a) (p : ℕ) (ne : p ≢ null)
    (fresh : Fresh c a p) where
  open c use {chunk_size, memory_slot_size}

  pub chained : Chained c a.ndx_instance (block c p) p m (chained_mem c a m p)
  chained =
      let pos : ltb 0 chunk_size ≡ true = let h = lay.some_slots in ground arith in
      rw pos at (
        init_slots-Chained c a.ndx_instance good.index_fits lay.some_bytes chunk_size p m ne
          fresh.fits)

  pub l_in : (last c p) ∈ (block c p)
  l_in =
      (last_mem c lay (chunk_size - 1) chunk_size p (last c p)
        (let h = lay.some_slots in omega arith) refl).1

  l_free :
      (is_free (set_free c.arch ((chained_mem c a m p) (last c p)) a.next_free) ≡ true)
      × (in_use (set_free c.arch ((chained_mem c a m p) (last c p)) a.next_free) ≡ false)
      × (next (set_free c.arch ((chained_mem c a m p) (last c p)) a.next_free) ≡ a.next_free)
      × (get_index (set_free c.arch ((chained_mem c a m p) (last c p)) a.next_free)
          ≡ get_index ((chained_mem c a m p) (last c p)))
      × ((set_free c.arch ((chained_mem c a m p) (last c p)) a.next_free).user_data
          ≡ ((chained_mem c a m p) (last c p)).user_data)
  l_free =
      set_free_lem c.arch ((chained_mem c a m p) (last c p)) a.next_free (next_free_fits c good)

  pub slots-linked :
      (x : ℕ) → has x (slots c (linked_arena c a p)) ≡ (has x (slots c a) || has x (block c p))
  slots-linked x = rw (slots_of-append, has-append, append-nil)

  block-not-free : (x : ℕ) → x ∈ (block c p) → x ∉ good.free
  block-not-free x i = ground (arith, fresh.apart x, good.cover x)

  pub old_same : (x : ℕ) → x ∉ (block c p) → (linked_mem c a m p) x ≡ m x
  old_same x o = ground (arith, chained.same x, l_in)

  Owned-block : (x : ℕ) → x ∈ (block c p) → Owned c a.ndx_instance (linked_mem c a m p) x
  Owned-block x i = record {
    named = ground (arith, l_free, chained.named x, chained.named (last c p), l_in);
    fits = let h = fresh.fits in omega (arith, run_bounds memory_slot_size p chunk_size x i);
    ne_null = λ e. ne (omega (arith, run_bounds memory_slot_size p chunk_size x i));
  }

  Owned-old : (x : ℕ) → x ∈ slots c a → Owned c a.ndx_instance (linked_mem c a m p) x
  Owned-old x i =
      let o = good.owned x i in
      let same : (linked_mem c a m p) x ≡ m x = old_same x (ground (arith, fresh.apart x)) in
      record { named = rw same o.named; fits = o.fits; ne_null = o.ne_null }

  counts :
      ((linked_arena c a p).free_slots ≡ length ((block c p) ++ good.free))
      × ((linked_arena c a p).max_length ≡ length ((block c p) ++ good.free) + used)
      × ((linked_arena c a p).max_length ≡ chunk_size * length (linked_arena c a p).mem_chunks)
      × ((linked_arena c a p).max_length < 2 ^ c.size_bits)
  counts =
      let new : MemoryChunk = record { first_slot = p; last_slot = (last c p) } in
      let lens = length-append a.mem_chunks (new ∷ []) in
      let frees = length-append (block c p) good.free in
      let size = length-run memory_slot_size p chunk_size in
      let total : chunk_size * suc (length a.mem_chunks)
          ≡ chunk_size * length a.mem_chunks + chunk_size =
        omega arith in
      let (room, g0, g1, g2) : (chunk_size * suc (length a.mem_chunks) < 2 ^ c.size_bits)
          × (a.free_slots ≡ length good.free)
          × (a.max_length ≡ length good.free + used)
          × (a.max_length ≡ chunk_size * length a.mem_chunks) =
        (fresh.countable, good.free_count, good.max_count, good.chunk_count) in
      let sum : length (a.mem_chunks ++ new ∷ []) ≡ suc (length a.mem_chunks) =
        omega (arith, lens) in
      let first : wrap c (a.free_slots + chunk_size) ≡ a.free_slots + chunk_size =
        mod-eq_of_lt (omega arith) in
      let second : wrap c (chunk_size * suc (length a.mem_chunks))
          ≡ chunk_size * suc (length a.mem_chunks) =
        mod-eq_of_lt room in
      (
        rw first (omega (arith, frees, size)),
        rw (sum, second) (omega (arith, frees, size)),
        rw (sum, second),
        rw (sum, second) room,
      )

  pub link-Good : Good c live used (linked_mem c a m p) (linked_arena c a p)
  link-Good = record {
    free = (block c p) ++ good.free;
    chain =
        Chained-link c lay (chunk_size - 1) chunk_size a.ndx_instance p a.next_free (last c p)
          good.free (let h = lay.some_slots in omega arith) refl chained good.chain block-not-free
          (next_free_fits c good);
    free_count = counts.0;
    max_count = counts.1;
    chunk_count = counts.2;
    bound = counts.3;
    cover = λ x. ground (arith, slots-linked x, has-append x (block c p) good.free, good.cover x);
    busy = λ x b. rw (old_same x (ground (arith, fresh.apart x, good.cover x))) (good.busy x b);
    owned = λ x i. elim (Bool-cases (has x (block c p))) [
      | inl new ↦ Owned-block x new
      | inr old ↦ Owned-old x (ground (arith, slots-linked x))
    ];
    index_fits = good.index_fits;
  }

  pub link-SameData : SameData live m (linked_mem c a m p)
  link-SameData x b = ground (arith, l_free, chained.kept x, chained.kept (last c p))
