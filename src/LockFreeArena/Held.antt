-- ===== src/LockFreeArena/Held.antt =====
-- Which thread holds a slot of the lock-free allocator, include/arena_allocator.h.
use lock_free.Common.{
  ℕ, ◌^◌, ◌<◌, ◌≡◌, ◌≢◌, inl, inr, Bool, true, false, List, ◌==◌, update, arith, Bool-cases,
  ==_self, ◌∈◌, ◌∉◌,
}
use lock_free.MemoryAddress.{Arch, addr_bits, null}
use lock_free.Arena.Slot.{MemorySlot, next, is_free}
use lock_free.Arena.FreeList.{FreeSeg}
use lock_free.LockFreeArena.Threads.{
  Client, idle, alloc_load, alloc_next, alloc_swap, alloc_mark, alloc_count, holding, free_load,
  free_test, free_link, free_swap, free_count,
}

-- Has the thread taken the slot and not given it back?
abbrev pub has_slot : Client → ℕ → Bool
has_slot idle i = false
has_slot alloc_load i = false
has_slot (alloc_next p) i = false
has_slot (alloc_swap p n) i = false
has_slot (alloc_mark p) i = i == p
has_slot (alloc_count p) i = i == p
has_slot (holding p) i = i == p
has_slot (free_load p) i = i == p
has_slot (free_test p n) i = i == p
has_slot (free_link p n) i = i == p
has_slot (free_swap p n) i = i == p
has_slot free_count i = false

-- A pointer to a slot: it is not null and fits the bit field.
abbrev pub IsSlot : Arch → ℕ → Type 0
IsSlot arch p = (p ≢ null) × (p < 2 ^ addr_bits arch)

module _ {A : Type 0} (arch : Arch) where
  -- What a thread knows.
  abbrev pub Knows : (ℕ → MemorySlot A) → Client → Type 0
  Knows m idle = Unit {0}
  Knows m alloc_load = Unit {0}
  Knows m (alloc_next p) = IsSlot arch p
  Knows m (alloc_swap p n) = IsSlot arch p
  Knows m (alloc_mark p) = IsSlot arch p
  Knows m (alloc_count p) = IsSlot arch p × (is_free (m p) ≡ false)
  Knows m (holding p) = IsSlot arch p × (is_free (m p) ≡ false)
  Knows m (free_load p) = IsSlot arch p × (is_free (m p) ≡ false)
  Knows m (free_test p n) = IsSlot arch p × (is_free (m p) ≡ false) × (n < 2 ^ addr_bits arch)
  Knows m (free_link p n) = IsSlot arch p × (n < 2 ^ addr_bits arch)
  Knows m (free_swap p n) = IsSlot arch p × (is_free (m p) ≡ true) × (next (m p) ≡ n)
  Knows m free_count = Unit {0}

  Knows-same :
      (m m' : ℕ → MemorySlot A) (c : Client)
      → ((i : ℕ) → has_slot c i ≡ true → m' i ≡ m i)
      → Knows m c
      → Knows m' c
  Knows-same m m' idle same k = tt
  Knows-same m m' alloc_load same k = tt
  Knows-same m m' (alloc_next p) same k = k
  Knows-same m m' (alloc_swap p n) same k = k
  Knows-same m m' (alloc_mark p) same k = k
  Knows-same m m' (alloc_count p) same k = rw (same p (==_self p)) k
  Knows-same m m' (holding p) same k = rw (same p (==_self p)) k
  Knows-same m m' (free_load p) same k = rw (same p (==_self p)) k
  Knows-same m m' (free_test p n) same k = rw (same p (==_self p)) k
  Knows-same m m' (free_link p n) same k = k
  Knows-same m m' (free_swap p n) same k = rw (same p (==_self p)) k
  Knows-same m m' free_count same k = tt

  -- The free slots `xs` are those that `_next_free` leads to, each held slot is one thread's alone
  -- and is not free, and what the threads have read holds.
  pub record Shares (m : ℕ → MemorySlot A) (next_free : ℕ) (client : ℕ → Client) (xs : List ℕ)
      : Type 0 where
    pub free : FreeSeg m null next_free xs
    pub fits : (a : ℕ) → a ∈ xs → a < 2 ^ addr_bits arch
    pub knows : (t : ℕ) → Knows m (client t)
    pub alone : (t u i : ℕ) → has_slot (client t) i ≡ true → has_slot (client u) i ≡ true → t ≡ u
    pub away : (t i : ℕ) → has_slot (client t) i ≡ true → i ∉ xs

  module _ (m : ℕ → MemorySlot A) (next_free : ℕ) (client : ℕ → Client) (xs : List ℕ)
      (s : Shares m next_free client xs) (t : ℕ) (c : Client) where
    -- A step of thread `t`, which leaves the slots of the others alone.
    pub Shares-step :
        (m' : ℕ → MemorySlot A) (next_free' : ℕ) (ys : List ℕ)
        → FreeSeg m' null next_free' ys
        → ((a : ℕ) → a ∈ ys → a < 2 ^ addr_bits arch)
        → ((u i : ℕ) → u ≢ t → has_slot (client u) i ≡ true → (m' i ≡ m i) × (i ∉ ys))
        → Knows m' c
        → ((i : ℕ)
            → has_slot c i ≡ true
            → (i ∉ ys) × ((u : ℕ) → u ≢ t → has_slot (client u) i ≡ false))
        → Shares m' next_free' (update client t c) ys
    Shares-step m' next_free' ys free fits others k own = record {
      free = free;
      fits = fits;
      knows = λ u. elim (Bool-cases (u == t)) [
        | inl here ↦ rw here k
        | inr there ↦
            rw there
              (Knows-same m m' (client u) (λ i h. (others u i (ground arith) h).0) (s.knows u))
      ];
      alone = λ u x i h h'. elim (Bool-cases (u == t)) [
        | inl u_t ↦ elim (Bool-cases (x == t)) [
          | inl x_t ↦ ground (arith, u_t, x_t)
          | inr x_n ↦
              let hw = rw u_t at h in
              let hx = rw x_n at h' in absurd (cc ((own i hw).1 x (ground (arith, x_n)), hx))
        ]
        | inr u_n ↦ elim (Bool-cases (x == t)) [
          | inl x_t ↦
              let hw = rw x_t at h' in
              let hu = rw u_n at h in absurd (cc ((own i hw).1 u (ground (arith, u_n)), hu))
          | inr x_n ↦ s.alone u x i (rw u_n at h) (rw x_n at h')
        ]
      ];
      away = λ u i h. elim (Bool-cases (u == t)) [
        | inl here ↦ (own i (rw here at h)).0
        | inr there ↦ (others u i (ground (arith, there)) (rw there at h)).1
      ];
    }
