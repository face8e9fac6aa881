-- ===== src/Arena/Run.antt =====
-- The slots of a chunk, and the loop that chains them.

use lock_free.Common.{
  ℕ, zero, suc, ◌+◌, ◌*◌, ◌^◌, ◌≤◌, ◌<◌, ◌≡◌, refl, ◌≢◌, true, List, [], ◌∷◌, ◌++◌, arith, ltb,
  if◌then◌else◌, update, ◌∈◌, ◌∉◌, length, ap, ◌∙◌,
}
use lock_free.MemoryAddress.{addr_bits, counter_bits, null}
use lock_free.Arena.{Config, init_slots}
use lock_free.Arena.Slot.{
  MemorySlot, next, is_free, get_index, set_free, set_index, set_free_lem, set_index_lem,
}
use lock_free.Arena.FreeList.{FreeSeg, nil, cons}

-- The addresses of `n` slots of `size` bytes from `p` on.
abbrev pub run : (size p n : ℕ) → List ℕ
run size p zero = []
run size p (suc n) = p ∷ run size (p + size) n

pub run_bounds : (size p n a : ℕ) → a ∈ run size p n → (p ≤ a) × (a + size ≤ p + n * size)
run_bounds size p zero a i = cc
run_bounds size p (suc n) a i = ground (arith, run_bounds size (p + size) n a)

pub length-run : (size p n : ℕ) → length (run size p n) ≡ n
length-run size p zero = refl
length-run size p (suc n) = ap suc (length-run size (p + size) n)

pub run-suc : (size p n : ℕ) → run size p (suc n) ≡ run size p n ++ (p + n * size) ∷ []
run-suc size p zero = ap (λ a. a ∷ []) (omega arith)
run-suc size p (suc n) =
    ap (λ xs. p ∷ xs)
      (run-suc size (p + size) n ∙ ap (λ a. run size (p + size) n ++ a ∷ []) (omega arith))

pub not-mem-run : (size p n a : ℕ) → 0 < size → p + n * size ≤ a → a ∉ run size p n
not-mem-run size p n a pos h = ground (arith, run_bounds size p n a)

pub not-mem-run_after : (size p n : ℕ) → 0 < size → p ∉ run size (p + size) n
not-mem-run_after size p n pos = ground (arith, run_bounds size (p + size) n p)

-- What the loop of `add_mem_chuck` leaves in memory.
pub record Chained {A : Type 0} (c : Config) (index : ℕ) (xs : List ℕ) (head : ℕ)
    (m m' : ℕ → MemorySlot A) : Type 0 where
  pub chain : FreeSeg m' null head xs
  pub named : (a : ℕ) → a ∈ xs → get_index (m' a) ≡ index
  pub same : (a : ℕ) → a ∉ xs → m' a ≡ m a
  pub kept : (a : ℕ) → (m' a).user_data ≡ (m a).user_data

-- A slot after its round of the loop.
abbrev linked : {A : Type 0} → Config → ℕ → MemorySlot A → ℕ → MemorySlot A
linked c index s q = set_free c.arch (set_index c.arch s index) q

module _ {A : Type 0} (c : Config) (index : ℕ) (fits : index < 2 ^ counter_bits c.arch)
    (m : ℕ → MemorySlot A) (p : ℕ) where
  Chained-cons :
      (q : ℕ) (xs : List ℕ) {m' : ℕ → MemorySlot A}
      → p ≢ null
      → q < 2 ^ addr_bits c.arch
      → p ∉ xs
      → Chained c index xs q (update m p (linked c index (m p) q)) m'
      → Chained c index (p ∷ xs) p m m'
  Chained-cons q xs {m'} ne room out r = record {
    chain = cons ne (ground (arith, free_here, here)) (ground (arith, free_here, here)) out r.chain;
    named = λ a i. ground (arith, free_here, here, r.named a);
    same = λ a o. ground (arith, free_here, here, r.same a);
    kept = λ a. ground (arith, free_here, here, r.kept a);
  }
    where
      free_here :
          (is_free (linked c index (m p) q) ≡ true)
          × (next (linked c index (m p) q) ≡ q)
          × (get_index (linked c index (m p) q) ≡ index)
          × ((linked c index (m p) q).user_data ≡ (m p).user_data)
      free_here =
          let f = set_free_lem c.arch (set_index c.arch (m p) index) q room in
          let g = set_index_lem c.arch (m p) index fits in ground arith

      here : m' p ≡ linked c index (m p) q
      here = ground (arith, r.same p)

module _ {A : Type 0} (c : Config) (index : ℕ) (fits : index < 2 ^ counter_bits c.arch)
    (pos : 0 < c.memory_slot_size) where
  pub init_slots-Chained :
      (n p : ℕ) (m : ℕ → MemorySlot A)
      → p ≢ null
      → p + n * c.memory_slot_size < 2 ^ addr_bits c.arch
      → Chained c index
          (run c.memory_slot_size p n)
          (if ltb 0 n then p else null)
          m
          (init_slots c index n p m)
  unfolding init_slots
  init_slots-Chained zero p m ne room = record {
    chain = nil;
    named = λ a i. cc;
    same = λ a o. refl;
    kept = λ a. refl;
  }
  init_slots-Chained (suc n) p m ne room =
      let after = p + c.memory_slot_size in
      let q : ℕ = if ltb 0 n then after else null in
      let fit : q < 2 ^ addr_bits c.arch = ground arith in
      let more : ltb 0 (suc n) ≡ true = ground arith in
      rw more (
        Chained-cons c index fits m p q (run c.memory_slot_size after n) ne fit
          (not-mem-run_after c.memory_slot_size p n pos)
          (init_slots-Chained n after (update m p (linked c index (m p) q)) (omega arith)
            (omega arith)))
