-- ===== src/NodeArena/Chain.antt =====
-- Chains of nodes, as the queue and the stack link them by `_next`.
use lock_free.Common.{
  ℕ, ◌≡◌, refl, ◌≢◌, Bool, true, false, List, [], ◌∷◌, ◌++◌, arith, has, update, ◌∙◌, ap, sym, suc,
  length, length-append,
}
use lock_free.Types.{Node}
use lock_free.MemoryAddress.{null}

-- The address and the value of each node, in order.
abbrev pub Cells : Type 0 → Type 0
Cells V = List (ℕ × V)

abbrev pub ptrs : {V : Type 0} → Cells V → List ℕ
ptrs [] = []
ptrs ((p, v) ∷ xs) = p ∷ ptrs xs

abbrev pub values : {V : Type 0} → Cells V → List V
values [] = []
values ((p, v) ∷ xs) = v ∷ values xs

abbrev pub live_of : {V : Type 0} → Cells V → ℕ → Bool
live_of xs a = has a (ptrs xs)

-- The address of the last node.
abbrev pub last_ptr : {V : Type 0} → Cells V → ℕ
last_ptr [] = null
last_ptr ((p, v) ∷ []) = p
last_ptr ((p, v) ∷ (c ∷ xs)) = last_ptr (c ∷ xs)

pub last_ptr-live :
    {V : Type 0} (c : ℕ × V) (xs : Cells V) → live_of (c ∷ xs) (last_ptr (c ∷ xs)) ≡ true
last_ptr-live (p, v) [] = ground arith
last_ptr-live (p, v) (c ∷ xs) = let rest = last_ptr-live c xs in ground arith

pub last_ptr-append :
    {V : Type 0} (xs : Cells V) (a : ℕ) (v : V) → last_ptr (xs ++ ((a, v) ∷ [])) ≡ a
last_ptr-append [] a v = refl
last_ptr-append ((p, w) ∷ []) a v = refl
last_ptr-append ((p, w) ∷ (c ∷ xs)) a v = last_ptr-append (c ∷ xs) a v

pub live_of-append :
    {V : Type 0} (xs : Cells V) (a : ℕ) (v : V) (b : ℕ)
    → update (live_of xs) a true b ≡ live_of (xs ++ ((a, v) ∷ [])) b
live_of-append [] a v b = ground arith
live_of-append ((p, w) ∷ xs) a v b = let rest = live_of-append xs a v b in ground arith

pub length-snoc :
    {V : Type 0} → (xs : Cells V) (c : ℕ × V) → suc (length xs) ≡ length (xs ++ (c ∷ []))
length-snoc xs c = omega (arith, length-append xs (c ∷ []))

pub values-snoc :
    {V : Type 0}
    → (xs : Cells V) (a : ℕ) (v : V) → values (xs ++ ((a, v) ∷ [])) ≡ values xs ++ (v ∷ [])
values-snoc [] a v = refl
values-snoc ((p, u) ∷ xs) a v = rw (values-snoc xs a v)

pub length-values : {V : Type 0} → (xs : Cells V) → length (values xs) ≡ length xs
length-values [] = refl
length-values (x ∷ xs) = ap suc (length-values xs)

-- From `p` the nodes `xs`, all distinct, lead to null.
pub data Chain {V : Type 0} (node : ℕ → Node V) : ℕ → Cells V → Type 0 where
  nil : Chain node null []
  cons :
      {p q : ℕ} {v : V} {xs : Cells V}
      → p ≢ null
      → node p ≡ record { value = v; next = q }
      → live_of xs p ≡ false
      → Chain node q xs
      → Chain node p ((p, v) ∷ xs)

module _ {V : Type 0} {node node' : ℕ → Node V} where
  pub frame :
      {p : ℕ} {xs : Cells V}
      → Chain node p xs
      → ((a : ℕ) → live_of xs a ≡ true → node' a ≡ node a)
      → Chain node' p xs
  frame nil same = nil
  frame (cons {p} ne e out s) same =
      cons ne (ground (arith, same p)) out (frame s (λ a i. ground (arith, same a)))

  -- A node more at the end, to which the node that was last leads.
  pub append :
      {p a : ℕ} {v : V} {c : ℕ × V} {xs : Cells V}
      → Chain node p (c ∷ xs)
      → live_of (c ∷ xs) a ≡ false
      → a ≢ null
      → node' a ≡ record { value = v; next = null }
      → node' (last_ptr (c ∷ xs)) ≡ record { value = (node (last_ptr (c ∷ xs))).value; next = a }
      → ((b : ℕ) → live_of (c ∷ xs) b ≡ true → b ≢ last_ptr (c ∷ xs) → node' b ≡ node b)
      → Chain node' p (c ∷ (xs ++ ((a, v) ∷ [])))
  append {a} (cons {p} ne e out nil) fresh a_ne at_a at_last same =
      cons ne (at_last ∙ ap (λ (n : Node V). record { value = n.value; next = a }) e) (ground arith)
        (cons a_ne at_a refl nil)
  append {a} {v} (cons {p} ne e out (cons {p = q} {v = u} {xs} ne' e' out' s)) fresh a_ne at_a
        at_last same =
      let in_rest = last_ptr-live (q, u) xs in
      let out_all = sym (live_of-append ((q, u) ∷ xs) a v p) in
      cons ne (ground (arith, same p, e)) (ground (arith, out_all)) (
        append (cons ne' e' out' s) (ground arith) a_ne at_a at_last
          (λ b i n. ground (arith, same b)))

module _ {V : Type 0} {node : ℕ → Node V} where
  pub Chain-null : {p : ℕ} → Chain node p [] → p ≡ null
  Chain-null nil = refl

  pub Chain-cons :
      {p h : ℕ} {v : V} {xs : Cells V}
      → Chain node h ((p, v) ∷ xs)
      → (h ≡ p)
        × (p ≢ null)
        × ((node p).value ≡ v)
        × (live_of xs p ≡ false)
        × Chain node (node p).next xs
  Chain-cons (cons ne e out s) = (refl, ne, ap (λ (n : Node V). n.value) e, out, rw e s)

  -- The last node leads nowhere, and its address is not null.
  pub Chain-last :
      {h : ℕ} (c : ℕ × V) (xs : Cells V)
      → Chain node h (c ∷ xs)
      → ((node (last_ptr (c ∷ xs))).next ≡ null) × (last_ptr (c ∷ xs) ≢ null)
  Chain-last (p, v) [] (cons ne e out nil) = (ap (λ (n : Node V). n.next) e, ne)
  Chain-last (p, v) (c ∷ xs) (cons ne e out s) = Chain-last c xs s
