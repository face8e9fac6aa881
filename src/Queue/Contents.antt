-- ===== src/Queue/Contents.antt =====
-- The items that a `queue` of include/queue.h holds, and a node that is linked behind them.
use lock_free.Common.{
  ℕ, suc, ◌≡◌, refl, ◌≢◌, Bool, true, false, List, [], ◌∷◌, ◌++◌, arith, ne→==, length, update, ◌∙◌,
  sym, subst,
}
use lock_free.Types.{DsImpl}
use lock_free.Command.{pure, ◌>>=◌, Returns, returns, bind}
use lock_free.MemoryAddress.{null}
use lock_free.NodeArena.{NodeArena, Valid-live}
use lock_free.NodeArena.Chain.{
  Cells, values, live_of, length-snoc, last_ptr, last_ptr-live, last_ptr-append, live_of-append,
  Chain, nil, cons, append, Chain-null, Chain-cons,
}
use lock_free.Queue.Ops.{Queue, unlock, link}
use lock_free.Queue.Locks.{drop_lock}

module _ {V : Type 0} (arena : NodeArena V) where
  open arena use {State, node, Valid, Ready}

  -- The arena's nodes in use are those of the list from `_head` to `_tail`.
  pub record IsQueue (held : Bool) (q : Queue State) (xs : Cells V) : Type 0 where
    pub mutex : q.mtx ≡ held
    pub valid : Valid q.nodes (live_of xs) (length xs)
    pub chain : Chain (node q.nodes) q.head xs
    pub last : q.tail ≡ last_ptr xs

  -- The queue is unlocked and holds `vs`, the first item at the head.
  abbrev pub Holds : Queue State → List V → Type 0
  Holds q vs = (xs : Cells V) × IsQueue false q xs × (values xs ≡ vs)

  -- A new node goes to the end.
  pub link_lem :
      {held : Bool} (q : Queue State) (xs : Cells V) (a : ℕ) (v : V)
      → q.mtx ≡ held
      → Valid q.nodes (update (live_of xs) a true) (suc (length xs))
      → Chain (node q.nodes) q.head xs
      → q.tail ≡ last_ptr xs
      → a ≢ null
      → live_of xs a ≡ false
      → node q.nodes a ≡ record { value = v; next = null }
      → Returns (λ _ q'. IsQueue held q' (xs ++ ((a, v) ∷ []))) (link arena a q)
  unfolding link
  link_lem q [] a v m val ch t ne out at_a =
      let h = Chain-null ch in
      rw h (
        returns (record {
          mutex = m;
          valid = Valid-live arena (λ b. live_of-append [] a v b) val;
          chain = cons ne at_a refl nil;
          last = refl;
        }))
  link_lem q ((p, u) ∷ xs) a v m val ch t ne out at_a =
      let (e, p_ne, _, _, _) = Chain-cons ch in
      let all = (p, u) ∷ xs in
      let l = last_ptr-live (p, u) xs in
      let s' = arena.set_next q.tail a q.nodes in
      let on = live_of all in
      let at_end : ((on q.tail) ≡ true) = subst (λ x. on x ≡ true) (sym t) l in
      let ((val', at_last, same), t_ne) : (Valid s' (update on a true) (suc (length all))
            × (node s' q.tail ≡ record { value = (node q.nodes q.tail).value; next = a })
            × ((b : ℕ) → update on a true b ≡ true → b ≢ q.tail → node s' b ≡ node q.nodes b))
          × (a ≢ q.tail) =
        (
          arena.set_next_law q.nodes (update on a true) (suc (length all)) q.tail a val
              (ground (arith, at_end)),
          ground (arith, at_end, out),
        ) in
      let same' : (b : ℕ) → on b ≡ true → b ≢ q.tail → node s' b ≡ node q.nodes b =
        λ b i n. same b (ground (arith, i)) n in
      rw (ne→== q.head null (λ z. p_ne (sym e ∙ z))) (
        returns (record {
          mutex = m;
          valid =
              Valid-live arena (λ b. live_of-append all a v b)
                (subst (λ n. Valid s' (update on a true) n) (length-snoc all (a, v)) val');
          chain =
              append ch out ne (same a (ground arith) t_ne ∙ at_a)
                (subst (λ x. node s' x ≡ record { value = (node q.nodes x).value; next = a }) t
                  at_last)
                (subst (λ x. (b : ℕ) → on b ≡ true → b ≢ x → node s' b ≡ node q.nodes b) t same');
          last = sym (last_ptr-append all a v);
        }))

  -- The end of a call: the lock is given back.
  pub release :
      {B : Type 0} (imp : DsImpl) (b : B) (q : Queue State) (xs : Cells V)
      → IsQueue true q xs
      → Returns (λ c q'. (c ≡ b) × IsQueue false q' xs) ((unlock imp >>= λ _. pure b) q)
  release imp b q xs i = bind _ (unlock imp) q (drop_lock imp q) (λ _ q' at.
      rw at
        (returns (refl, record { mutex = refl; valid = i.valid; chain = i.chain; last = i.last })))
