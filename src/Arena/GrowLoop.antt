-- ===== src/Arena/GrowLoop.antt =====
-- The loop by which the constructor of an allocator adds chunks until it has its first slots,
-- include/core/arena_allocator.h and include/arena_allocator.h.
use lock_free.Common.{
  ℕ, zero, suc, ◌≤◌, ◌<◌, ◌≡◌, refl, ◌≢◌, ◌⊎◌, inl, inr, Bool, true, false, some, List, [], ◌∷◌,
  arith, Bool-cases, ◌==◌, ltb, if◌then◌else◌, update, length, ◌∉◌, ◌++◌, ap, sym, subst,
}
use lock_free.MemoryAddress.{null}
use lock_free.Arena.{Config, Arena, World, Cmd, pure, ◌>>=◌}
use lock_free.Arena.Core.{unsafe_add_mem_chuck, init_chunk, link_chunk, last_of}
use lock_free.Arena.Grow.{linked_arena, linked_mem}
use lock_free.Arena.AddChunk.{sys_allocate-nil, sys_allocate-cons, add_chunk-Grown}
use lock_free.Arena.Lifecycle.{grow_loop}
use lock_free.Arena.Inv.{Layout, Inv, Fresh, Returns, returns, mono, update_self, update_ne}

-- The answers of the system from now on: a block is fresh when it comes.
pub data Supply (c : Config) : Arena → List ℕ → Type 0 where
  no_more : {a : Arena} → Supply c a []
  refused : {a : Arena} {p : ℕ} {ps : List ℕ} → p ≡ null → Supply c a ps → Supply c a (p ∷ ps)
  answered :
      {a : Arena} {p : ℕ} {ps : List ℕ}
      → p ≢ null
      → Fresh c a p
      → Supply c (linked_arena c a p) ps
      → Supply c a (p ∷ ps)

-- The world with a chunk more.
abbrev added : {A : Type 0} → Config → ℕ → World A → (p : ℕ) → List ℕ → World A
added c this w p ps = record w {
  mem = linked_mem c (w.arena this) w.mem p;
  arena = update w.arena this (linked_arena c (w.arena this) p);
  answers = ps;
}

module _ {A : Type 0} (c : Config) (this : ℕ) (w : World A) where
  pub unsafe_add-none : w.answers ≡ [] → unsafe_add_mem_chuck c this w ≡ some (false, w)
  unfolding unsafe_add_mem_chuck
  unsafe_add-none e = rw (sys_allocate-nil w e, ◌>>=◌) refl

  pub unsafe_add-refused :
      (p : ℕ) (ps : List ℕ)
      → w.answers ≡ p ∷ ps
      → p ≡ null
      → unsafe_add_mem_chuck c this w ≡ some (false, record w { answers = ps })
  unfolding unsafe_add_mem_chuck
  unsafe_add-refused p ps e z = rw (sys_allocate-cons w p ps e, ◌>>=◌, z) refl

  pub unsafe_add-answered :
      (p : ℕ) (ps : List ℕ)
      → w.answers ≡ p ∷ ps
      → p ≢ null
      → unsafe_add_mem_chuck c this w ≡ some (true, added c this w p ps)
  unfolding unsafe_add_mem_chuck init_chunk link_chunk last_of
  unsafe_add-answered p ps e ne =
      let nz : (p == null) ≡ false = ground arith in rw (sys_allocate-cons w p ps e, ◌>>=◌, nz) refl

-- The last answer that the system has given was null, or it has given them all and none was.
abbrev pub Refused : (answers left : List ℕ) → Type 0
Refused answers left =
    ((blocks : List ℕ) × (null ∉ blocks) × (answers ≡ blocks ++ (null ∷ left)))
    ⊎ ((null ∉ answers) × (left ≡ []))

Refused-cons :
    (p : ℕ) (answers left : List ℕ) → p ≢ null → Refused answers left → Refused (p ∷ answers) left
Refused-cons p answers left ne (inl (blocks, out, e)) =
    inl (p ∷ blocks, ground (arith, ne, out), ap (λ ps. p ∷ ps) e)
Refused-cons p answers left ne (inr (out, e)) = inr (ground (arith, ne, out), e)

-- The allocator is well-formed without an object, and it has the slots it starts with or the system
-- has refused memory or has no more answers.
pub record Started {A : Type 0} (c : Config) (this : ℕ) (answers : List ℕ) (w' : World A)
    : Type 0 where
  pub inv : Inv c this false (λ _. false) 0 w'
  pub sized : (c.initial_size ≤ (w'.arena this).max_length) ⊎ Refused answers w'.answers

Started-cons :
    {A : Type 0} {c : Config} {this : ℕ} {ps : List ℕ} {w : World A} (p : ℕ)
    → p ≢ null
    → Started c this ps w
    → Started c this (p ∷ ps) w
Started-cons {ps} {w} p ne st = record {
  inv = st.inv;
  sized = elim st.sized [
    | inl big ↦ inl big
    | inr asked ↦ inr (Refused-cons p ps w.answers ne asked)
  ];
}

module _ {A : Type 0} (c : Config) (lay : Layout c) (this : ℕ) (length_of : ℕ → Cmd A ℕ)
    (add : ℕ → Cmd A Bool)
    (reads : (w : World A)
      → (w.arena this).mtx_next ≡ false
      → length_of this w ≡ some ((w.arena this).max_length, w))
    (adds : (w : World A)
      → (w.arena this).mtx_next ≡ false
      → add this w ≡ unsafe_add_mem_chuck c this w) where
  -- The round that asks for a chunk, when the rounds after it are known to end.
  chunk_round :
      (rounds : ℕ) (w : World A) (ps : List ℕ)
      → ((w' : World A) (qs : List ℕ)
          → w'.answers ≡ qs
          → length qs < rounds
          → Inv c this false (λ _. false) 0 w'
          → Supply c (w'.arena this) qs
          → Returns (λ _. Started c this qs) (grow_loop c length_of add rounds this w'))
      → w.answers ≡ ps
      → length ps < suc rounds
      → Inv c this false (λ _. false) 0 w
      → Supply c (w.arena this) ps
      → Returns
          (λ _. Started c this ps)
          ((unsafe_add_mem_chuck c this >>= λ ok.
              if ok then grow_loop c length_of add rounds this else pure tt)
            w)
  chunk_round rounds w [] again e more inv no_more =
      rw (◌>>=◌, unsafe_add-none c this w e)
        (returns (record { inv = inv; sized = inr (inr (refl, e)) }))
  chunk_round rounds w (p ∷ ps) again e more inv (refused z s) =
      rw (◌>>=◌, unsafe_add-refused c this w p ps e z)
        (returns (record {
          inv = record {
            mutex = inv.mutex;
            good = inv.good;
            placed = inv.placed;
            registered = inv.registered;
          };
          sized = inr (inl ([], refl, ap (λ q. q ∷ ps) z));
        }))
  chunk_round rounds w (p ∷ ps) again e more inv (answered ne fresh s) =
      let a' = linked_arena c (w.arena this) p in
      let here : update w.arena this a' this ≡ a' = update_self w.arena this a' in
      let g =
        add_chunk-Grown c lay this w inv p ps (update w.arena this a') ne fresh here
          (λ q n. update_ne w.arena this q a' n) in
      rw (◌>>=◌, unsafe_add-answered c this w p ps e ne)
        (mono
          (again (added c this w p ps) ps refl (omega arith) g.inv
            (subst (λ a. Supply c a ps) (sym here) s))
          (λ _ w' st. returns (Started-cons p ne st)))

  -- The loop of the constructor ends when it may go round more often than the system answers, and
  -- the allocator is well-formed then, without an object; it has `initial_size` slots, or the system
  -- has refused memory or has no more answers.
  pub grow_loop-Started :
      (rounds : ℕ) (w : World A) (ps : List ℕ)
      → w.answers ≡ ps
      → length ps < rounds
      → Inv c this false (λ _. false) 0 w
      → Supply c (w.arena this) ps
      → Returns (λ _. Started c this ps) (grow_loop c length_of add rounds this w)
  unfolding grow_loop
  grow_loop-Started zero w ps e more inv supply = absurd (omega arith)
  grow_loop-Started (suc rounds) w ps e more inv supply =
      elim (Bool-cases (ltb (w.arena this).max_length c.initial_size)) [
        | inl small ↦
            rw (◌>>=◌, reads w inv.mutex, small, adds w inv.mutex)
              (chunk_round rounds w ps (grow_loop-Started rounds) e more inv supply)
        | inr big ↦
            rw (◌>>=◌, reads w inv.mutex, big)
              (returns (record { inv = inv; sized = inl (ground (arith, big)) }))
      ]
