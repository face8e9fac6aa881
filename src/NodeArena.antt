-- ===== src/NodeArena.antt =====
-- The arena of nodes that include/queue.h and include/stack.h take as the template parameter
-- `arena_t`: its operations on the objects of one instance, and what the containers rely on.
pub mod Chain
pub mod Nodes
pub mod FromCore
pub mod FromLockFree
use lock_free.Common.{ℕ, suc, ◌≡◌, ◌≢◌, ◌⊎◌, Bool, true, false, Option, update, subst}
use mathlib.Core.Path.{fun_ext}
use lock_free.Types.{Result, success, Node}
use lock_free.Command.{Command, Returns}
use lock_free.MemoryAddress.{null}

-- The nodes in use hold the same.
abbrev pub SameNodes : {S V : Type 0} → (S → ℕ → Node V) → (ℕ → Bool) → S → S → Type 0
SameNodes node live s s' = (a : ℕ) → live a ≡ true → node s' a ≡ node s a

-- `Valid s live used` says that the nodes `live` are in use and that there are `used` of them,
-- `Ready s` that memory which the system may hand out next overlaps no memory in use.
pub record NodeArena (V : Type 0) : Type 1 where
  pub State : Type 0
  pub node : State → ℕ → Node V
  pub set_next : ℕ → ℕ → State → State
  pub allocate : V → Command State ℕ
  pub deallocate : ℕ → Command State Result
  pub length : Command State ℕ
  pub clear : Command State (Unit {0})
  pub Valid : State → (ℕ → Bool) → ℕ → Type 0
  pub Ready : State → Type 0
  pub set_next_law :
      (s : State) (live : ℕ → Bool) (used a q : ℕ)
      → Valid s live used
      → live a ≡ true
      → Valid (set_next a q s) live used
        × (node (set_next a q s) a ≡ record { value = (node s a).value; next = q })
        × ((b : ℕ) → live b ≡ true → b ≢ a → node (set_next a q s) b ≡ node s b)
  pub allocate_law :
      (v : V) (s : State) (live : ℕ → Bool) (used : ℕ)
      → Valid s live used
      → Ready s
      → Returns
          (λ a s'.
            ((a ≡ null) × Valid s' live used × SameNodes node live s s')
            ⊎ ((a ≢ null)
                × (live a ≡ false)
                × Valid s' (update live a true) (suc used)
                × (node s' a ≡ record { value = v; next = null })
                × SameNodes node live s s'))
          (allocate v s)
  pub deallocate_law :
      (a : ℕ) (s : State) (live : ℕ → Bool) (used : ℕ)
      → Valid s live (suc used)
      → live a ≡ true
      → Returns
          (λ code s'.
            (code ≡ success)
            × Valid s' (update live a false) used
            × SameNodes node (update live a false) s s')
          (deallocate a s)
  pub length_law :
      (s : State) (live : ℕ → Bool) (used : ℕ)
      → Valid s live used
      → Returns (λ n s'. (n ≡ used) × Valid s' live used × SameNodes node live s s') (length s)
  pub clear_law :
      (s : State) (live : ℕ → Bool) (used : ℕ)
      → Valid s live used
      → Returns (λ _ s'. Valid s' (λ _. false) 0) (clear s)

-- Only which nodes are in use matters.
pub Valid-live :
    {V : Type 0} (arena : NodeArena V) {s : arena.State} {live live' : ℕ → Bool} {used : ℕ}
    → ((a : ℕ) → live a ≡ live' a)
    → arena.Valid s live used
    → arena.Valid s live' used
Valid-live arena {s} {used} h v = subst (λ l. arena.Valid s l used) (fun_ext h) v
