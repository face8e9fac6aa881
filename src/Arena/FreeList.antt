-- ===== src/Arena/FreeList.antt =====
-- The free list of an allocator: slots that lead to one another by their `_ptr_next`.
use lock_free.Common.{
  ℕ, ◌^◌, ◌<◌, ◌≡◌, refl, ◌≢◌, ◌⊎◌, inl, inr, subst, sym, true, List, [], ◌∷◌, ◌++◌, arith, update,
  ◌∈◌, ◌∉◌, has-append,
}
use lock_free.MemoryAddress.{Arch, addr_bits, null}
use lock_free.Arena.Slot.{MemorySlot, next, is_free, set_free, set_free_lem}

-- From `p` the free slots `xs`, all distinct, lead to `stop`.
pub data FreeSeg {A : Type 0} (m : ℕ → MemorySlot A) (stop : ℕ) : ℕ → List ℕ → Type 0 where
  nil : FreeSeg m stop stop []
  cons :
      {p q : ℕ} {xs : List ℕ}
      → p ≢ null
      → is_free (m p) ≡ true
      → next (m p) ≡ q
      → p ∉ xs
      → FreeSeg m stop q xs
      → FreeSeg m stop p (p ∷ xs)

module _ {A : Type 0} {m : ℕ → MemorySlot A} {stop : ℕ} where
  pub frame :
      {m' : ℕ → MemorySlot A} {p : ℕ} {xs : List ℕ}
      → FreeSeg m stop p xs
      → ((a : ℕ) → a ∈ xs → m' a ≡ m a)
      → FreeSeg m' stop p xs
  frame nil same = nil
  frame {m'} (cons {p} ne f e out s) same =
      let here : m' p ≡ m p = same p (ground arith) in
      cons ne (rw here f) (rw here e) out (frame s (λ a i. same a (ground arith)))

  -- Two segments are joined if they share no slot.
  pub append :
      {end p : ℕ} {ys xs : List ℕ}
      → FreeSeg m stop p xs
      → FreeSeg m end stop ys
      → ((a : ℕ) → a ∈ xs → a ∉ ys)
      → FreeSeg m end p (xs ++ ys)
  append nil t apart = t
  append (cons {p} {xs} ne f e out s) t apart =
      cons ne f e (rw (has-append, out) (apart p (ground arith)))
        (append s t (λ a i. apart a (ground arith)))

  pub all_free : {p : ℕ} {xs : List ℕ} (a : ℕ) → FreeSeg m stop p xs → a ∈ xs → is_free (m a) ≡ true
  all_free a nil i = cc
  all_free a (cons {p} {xs} ne f e out s) i = ground (arith, all_free a s)

  pub not_null : {p : ℕ} {xs : List ℕ} (a : ℕ) → FreeSeg m stop p xs → a ∈ xs → a ≢ null
  not_null a nil i = cc
  not_null a (cons {p} {xs} ne f e out s) i = ground (arith, not_null a s)

-- A free list is empty exactly if it starts at null.
pub head_cases :
    {A : Type 0} {m : ℕ → MemorySlot A} {p : ℕ} {xs : List ℕ}
    → FreeSeg m null p xs
    → ((p ≡ null) × (xs ≡ []))
      ⊎ ((p ≢ null) × (ys : List ℕ) × (xs ≡ p ∷ ys) × (p ∉ ys) × FreeSeg m null (next (m p)) ys)
head_cases nil = inl (refl, refl)
head_cases {m} (cons {xs} ne f e out s) =
    inr (ne, xs, refl, out, subst (λ q. FreeSeg m null q xs) (sym e) s)

-- The last slot of a segment is led on to `q`.
pub relink :
    {A : Type 0} (arch : Arch) {m : ℕ → MemorySlot A} {stop p : ℕ} (xs : List ℕ) (l q : ℕ)
    → FreeSeg m stop p (xs ++ l ∷ [])
    → l ∉ xs
    → q < 2 ^ addr_bits arch
    → FreeSeg (update m l (set_free arch (m l) q)) q p (xs ++ l ∷ [])
relink arch {m} [] l q (cons ne f e o s) out fits =
    let h = set_free_lem arch (m l) q fits in cons ne (ground arith) (ground arith) refl nil
relink arch {m} (x ∷ xs) l q (cons ne f e o s) out fits =
    cons ne (ground arith) (ground arith) o (relink arch xs l q s (ground arith) fits)
