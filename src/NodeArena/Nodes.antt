-- ===== src/NodeArena/Nodes.antt =====
-- The nodes as the objects of an allocator: what include/queue.h and include/stack.h read and write
-- through the pointers that `allocate` returns.
use lock_free.Common.{
  ℕ, suc, ◌≤◌, ◌≡◌, ◌≢◌, ◌⊎◌, inl, inr, Option, Bool, true, false, arith, Bool-cases, ◌==◌, update,
  ◌∙◌, ap, sym, subst,
}
use mathlib.Core.Path.{fun_ext}
use lock_free.Types.{Result, success, Node}
use lock_free.Command.{Returns, returns, mono}
use lock_free.MemoryAddress.{null}
use lock_free.Arena.{Config, Arena, World, prt}
use lock_free.Arena.Slot.{MemorySlot, slot_from_user_data, memory_address_size}
use lock_free.Arena.FreeList.{frame, all_free}
use lock_free.Arena.Inv.{Layout, Good, Inv, SameData, update_self, update_ne}
use lock_free.Arena.Allocate.{Allocated}
use lock_free.Arena.Deallocate.{Deallocated}
use lock_free.NodeArena.{SameNodes}

-- `*a`, for a pointer to a node.
unfoldable pub node : {V : Type 0} → World (Node V) → ℕ → Node V
node w a = (w.mem (slot_from_user_data a)).user_data

-- `a->_next = q`
unfoldable pub set_next : {V : Type 0} → ℕ → ℕ → World (Node V) → World (Node V)
set_next a q w =
    let p = slot_from_user_data a in
    record w {
      mem =
          update w.mem p
            (record (w.mem p) { user_data = record ((w.mem p).user_data) { next = q } });
    }

module _ (c : Config) where
  -- The slots of the nodes in use.
  abbrev pub slots_live : (ℕ → Bool) → ℕ → Bool
  slots_live live p = live (prt c p)

  unfoldable pub Valid : {V : Type 0} → ℕ → World (Node V) → (ℕ → Bool) → ℕ → Type 0
  Valid this w live used =
      Inv c this false (slots_live live) used w
      × ((a : ℕ) → live a ≡ true → memory_address_size ≤ a)

module _ (c : Config) (lay : Layout c) where
  pub prt-slot : (a : ℕ) → memory_address_size ≤ a → prt c (slot_from_user_data a) ≡ a
  prt-slot a h = let b = lay.behind in omega arith

  slot-prt : (p : ℕ) → slot_from_user_data (prt c p) ≡ p
  slot-prt p = let b = lay.behind in omega arith

  -- A node in use lies in a slot in use.
  pub slot-live :
      (live : ℕ → Bool) (a : ℕ)
      → memory_address_size ≤ a
      → live a ≡ true
      → slots_live c live (slot_from_user_data a) ≡ true
  slot-live live a h l = subst (λ x. live x ≡ true) (sym (prt-slot a h)) l

  pub data_kept :
      {V : Type 0} (live : ℕ → Bool) (w w' : World (Node V))
      → ((a : ℕ) → live a ≡ true → memory_address_size ≤ a)
      → SameData (slots_live c live) w.mem w'.mem
      → SameNodes node live w w'
  unfolding node
  data_kept live w w' far same a l = same (slot_from_user_data a) (slot-live live a (far a l) l)

prt-update :
    (c : Config) (live : ℕ → Bool) (p : ℕ) (b : Bool)
    → update (slots_live c live) p b ≡ slots_live c (update live (prt c p) b)
prt-update c live p b =
    fun_ext (λ x. elim (Bool-cases (x == p)) [ inl e ↦ ground arith | inr n ↦ ground arith ])

-- What is stored in an object in use does not matter to the allocator.
store-Good :
    {A : Type 0} (c : Config) {live : ℕ → Bool} {used : ℕ} {m : ℕ → MemorySlot A} {a : Arena}
    → Good c live used m a
    → (p : ℕ) → live p ≡ true
    → (v : A) → Good c live used (update m p (record (m p) { user_data = v })) a
store-Good c g p l v = record {
  free = g.free;
  chain = frame g.chain (λ x i. ground (arith, all_free x g.chain i, g.busy p));
  free_count = g.free_count;
  max_count = g.max_count;
  chunk_count = g.chunk_count;
  bound = g.bound;
  cover = g.cover;
  busy = λ x b. ground (arith, g.busy x);
  owned = λ x i.
      let o = g.owned x i in
      record { named = let h = o.named in ground arith; fits = o.fits; ne_null = o.ne_null };
  index_fits = g.index_fits;
}

module _ {V : Type 0} (c : Config) (lay : Layout c) (this : ℕ) where
  -- What a call that allocates a node does for the nodes.
  pub Allocated-nodes :
      (v : V) (w : World (Node V)) (live : ℕ → Bool) (used : ℕ) {r : Option (ℕ × World (Node V))}
      → ((a : ℕ) → live a ≡ true → memory_address_size ≤ a)
      → Returns
          (Allocated c this false (slots_live c live) used (record { value = v; next = null }) w)
          r
      → Returns
          (λ a w'.
            ((a ≡ null) × Valid c this w' live used × SameNodes node live w w')
            ⊎ ((a ≢ null)
                × (live a ≡ false)
                × Valid c this w' (update live a true) (suc used)
                × (node w' a ≡ record { value = v; next = null })
                × SameNodes node live w w'))
          r
  unfolding Valid node
  Allocated-nodes v w live used far done = mono done (λ a w' out. elim out [
    | inl n ↦ returns (inl (n.is_null, (n.inv, far), data_kept c lay live w w' far n.same))
    | inr t ↦
        let b = lay.behind in
        let p = t.points in
        returns (
          inr (
            omega arith,
            ap live p ∙ t.was_free,
            (
              subst (λ l. Inv c this false l (suc used) w')
                  (prt-update c live t.slot true
                    ∙ ap (λ x. slots_live c (update live x true)) (sym p))
                  t.inv,
              λ x l. elim (Bool-cases (x == a)) [
                | inl e ↦ ground (arith, b)
                | inr n ↦ far x (ground (arith, l, n))
              ],
            ),
            ap (λ x. (w'.mem x).user_data) (ap slot_from_user_data p ∙ slot-prt c lay t.slot)
                ∙ t.stored,
            data_kept c lay live w w' far t.same,
          ))
  ])

  pub Deallocated-nodes :
      (a : ℕ) (w : World (Node V)) (live : ℕ → Bool) (used : ℕ)
      {r : Option (Result × World (Node V))}
      → ((x : ℕ) → live x ≡ true → memory_address_size ≤ x)
      → live a ≡ true
      → Returns (Deallocated c this false (slots_live c live) used (slot_from_user_data a) w) r
      → Returns
          (λ code w'.
            (code ≡ success)
            × Valid c this w' (update live a false) used
            × SameNodes node (update live a false) w w')
          r
  unfolding Valid
  Deallocated-nodes a w live used far l done =
      let p = slot_from_user_data a in
      let at : prt c p ≡ a = prt-slot c lay a (far a l) in
      let far' : (x : ℕ) → update live a false x ≡ true → live x ≡ true =
        λ x k. ground (arith, k) in
      mono done (λ code w' d. returns (
        d.succeeded,
        (
          subst (λ x. Inv c this false x used w')
              (prt-update c live p false ∙ ap (λ x. slots_live c (update live x false)) at) d.inv,
          λ x k. far x (far' x k),
        ),
        λ x k. data_kept c lay live w w' far d.same x (far' x k),
      ))

  pub set_next_law :
      (w : World (Node V)) (live : ℕ → Bool) (used a q : ℕ)
      → Valid c this w live used
      → live a ≡ true
      → Valid c this (set_next a q w) live used
        × (node (set_next a q w) a ≡ record { value = (node w a).value; next = q })
        × ((b : ℕ) → live b ≡ true → b ≢ a → node (set_next a q w) b ≡ node w b)
  unfolding Valid node set_next
  set_next_law w live used a q (inv, far) l =
      let p = slot_from_user_data a in
      let on = slot-live c lay live a (far a l) l in
      (
        (
          record {
            mutex = inv.mutex;
            good = store-Good c inv.good p on _;
            placed = inv.placed;
            registered = inv.registered;
          },
          far,
        ),
        ap (λ (s : MemorySlot (Node V)). s.user_data) (update_self w.mem p _),
        λ b k n.
            ap (λ (s : MemorySlot (Node V)). s.user_data)
              (update_ne w.mem p (slot_from_user_data b) _ (
                let (f, g) : (memory_address_size ≤ a) × (memory_address_size ≤ b) =
                  (far a l, far b k) in
                λ e. n (omega arith))),
      )
