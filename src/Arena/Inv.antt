-- ===== src/Arena/Inv.antt =====
-- When the state of an allocator is well-formed, and what its operations leave alone.
use lock_free.Common.{
  ℕ, suc, ◌+◌, ◌*◌, ◌^◌, ◌<◌, ◌≡◌, refl, ◌≢◌, Bool, true, ◌||◌, some, List, [], ◌∷◌, ◌++◌, arith,
  length, has, update, ◌∙◌, ◌∈◌, ◌∉◌, append_assoc,
}
pub use lock_free.Command.{Returns, returns, bind, mono}
use lock_free.MemoryAddress.{addr_bits, counter_bits, null}
use lock_free.LookupTable
use lock_free.Arena.{Config, MemoryChunk, Arena, World}
use lock_free.Arena.Slot.{MemorySlot, memory_address_size, in_use, get_index}
use lock_free.Arena.FreeList.{FreeSeg}
use lock_free.Arena.Run.{run}

-- What the compiler and the template's constraints give: chunks and slots are not empty, and the
-- object lies right behind the `memory_address` of its slot.
pub record Layout (c : Config) : Type 0 where
  pub some_slots : 0 < c.chunk_size
  pub some_bytes : 0 < c.memory_slot_size
  pub behind : c.user_data_offset ≡ memory_address_size

-- The addresses of all slots of the chunks.
abbrev pub slots_of : Config → List MemoryChunk → List ℕ
slots_of c [] = []
slots_of c (mc ∷ mcs) = run c.memory_slot_size mc.first_slot c.chunk_size ++ slots_of c mcs

pub slots_of-append :
    (c : Config) (xs ys : List MemoryChunk) → slots_of c (xs ++ ys) ≡ slots_of c xs ++ slots_of c ys
slots_of-append c [] ys = refl
slots_of-append c (mc ∷ xs) ys = rw (slots_of-append c xs ys, append_assoc)

-- A slot that carries the index of its allocator, at an address that fits `_addr`.
pub record Owned {A : Type 0} (c : Config) (index : ℕ) (m : ℕ → MemorySlot A) (p : ℕ) : Type 0 where
  pub named : get_index (m p) ≡ index
  pub fits : p < 2 ^ addr_bits c.arch
  pub ne_null : p ≢ null

module _ (c : Config) where
  abbrev pub slots : Arena → List ℕ
  slots a = slots_of c a.mem_chunks

  -- `live` are the slots in use, `used` is their number; every slot is either in use or in the free
  -- list, and the counts agree.
  pub record Good {A : Type 0} (live : ℕ → Bool) (used : ℕ) (m : ℕ → MemorySlot A) (a : Arena)
      : Type 0 where
    pub free : List ℕ
    pub chain : FreeSeg m null a.next_free free
    pub free_count : a.free_slots ≡ length free
    pub max_count : a.max_length ≡ length free + used
    pub chunk_count : a.max_length ≡ c.chunk_size * length a.mem_chunks
    pub bound : a.max_length < 2 ^ c.size_bits
    pub cover : (p : ℕ) → has p (slots a) ≡ (has p free || live p)
    pub busy : (p : ℕ) → live p ≡ true → in_use (m p) ≡ true
    pub owned : (p : ℕ) → p ∈ slots a → Owned c a.ndx_instance m p
    pub index_fits : a.ndx_instance < 2 ^ counter_bits c.arch

  -- A block at `p` that the system allocator may return now: it fits `_addr`, holds no slot of a
  -- chunk that is not given back, and the counters can count one chunk more.
  pub record Fresh (a : Arena) (p : ℕ) : Type 0 where
    pub fits : p + c.chunk_size * c.memory_slot_size < 2 ^ addr_bits c.arch
    pub apart : (x : ℕ) → x ∈ run c.memory_slot_size p c.chunk_size → x ∉ slots a
    pub countable : c.chunk_size * suc (length a.mem_chunks) < 2 ^ c.size_bits

  -- The next answer of the system allocator is null or a fresh block.
  abbrev pub ReadyFor : Arena → List ℕ → Type 0
  ReadyFor a [] = Unit
  ReadyFor a (p ∷ _) = p ≢ null → Fresh a p

module _ {A : Type 0} (c : Config) (this : ℕ) where
  -- The allocator at `this`, which is no null pointer, is well-formed and stands in the table, and
  -- its lock is free or held.
  pub record Inv (held : Bool) (live : ℕ → Bool) (used : ℕ) (w : World A) : Type 0 where
    pub mutex : (w.arena this).mtx_next ≡ held
    pub good : Good c live used w.mem (w.arena this)
    pub placed : this ≢ null
    pub registered : LookupTable.at w.instances_table (w.arena this).ndx_instance ≡ some this

  abbrev pub Ready : World A → Type 0
  Ready w = ReadyFor c (w.arena this) w.answers

  -- `w'` differs from `w` at most in this allocator and in the slots that it owns in `w'`.
  pub record Frame (w w' : World A) : Type 0 where
    pub table : w'.instances_table ≡ w.instances_table
    pub index : (w'.arena this).ndx_instance ≡ (w.arena this).ndx_instance
    pub others : (q : ℕ) → q ≢ this → w'.arena q ≡ w.arena q
    pub outside : (a : ℕ) → a ∉ slots c (w'.arena this) → w'.mem a ≡ w.mem a
    pub grows : (a : ℕ) → a ∈ slots c (w.arena this) → a ∈ slots c (w'.arena this)

-- What is stored in the live slots is the same.
abbrev pub SameData : {A : Type 0} → (ℕ → Bool) → (m m' : ℕ → MemorySlot A) → Type 0
SameData live m m' = (a : ℕ) → live a ≡ true → (m' a).user_data ≡ (m a).user_data

pub update_self {ℓ} : {A : Type ℓ} (f : ℕ → A) (p : ℕ) (v : A) → update f p v p ≡ v
update_self f p v = ground arith

pub update_ne {ℓ} : {A : Type ℓ} (f : ℕ → A) (p q : ℕ) (v : A) → q ≢ p → update f p v q ≡ f q
update_ne f p q v h = ground arith

pub Frame-trans :
    {A : Type 0} (c : Config) (this : ℕ) {u v w : World A}
    → Frame c this u v
    → Frame c this v w
    → Frame c this u w
Frame-trans c this f g = record {
  table = g.table ∙ f.table;
  index = g.index ∙ f.index;
  others = λ q n. g.others q n ∙ f.others q n;
  outside = λ x o. g.outside x o ∙ f.outside x (ground (arith, g.grows x));
  grows = λ x i. g.grows x (f.grows x i);
}
