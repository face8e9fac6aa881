-- ===== src/UniquePtr/Ownership.antt =====
-- Who deletes the object of a `unique_ptr`, include/core/unique_ptr.h.
use lock_free.Common.{
  ℕ, ◌%◌, ◌^◌, ◌<◌, ◌≡◌, refl, ◌≢◌, inl, inr, Bool, true, false, List, ◌∷◌, arith, Bool-cases, ◌==◌,
  ◌∙◌, ap, sym, ne→==,
}
use native.Mathlib.Nat.{mod-eq_of_lt}
use lock_free.MemoryAddress.{
  Arch, ptr32, ptr64, addr_bits, flag_bits, null, make, get_address, set_address, unset_all,
  test_flag,
}
use lock_free.MemoryAddress.Laws.{set_flag-destroy, test_flag-destroy}
use lock_free.UniquePtr.{
  UniquePtr, get, auto_delete, from_pointer, release, move_from, finish, assign_pointer,
  set_auto_delete, assign_move,
}

-- What the destructor deletes.
abbrev pub deletes : Arch → UniquePtr → List ℕ → List ℕ
deletes arch u deleted = (finish arch u deleted).1

zero_fits : (arch : Arch) → 0 % 2 ^ addr_bits arch ≡ 0
zero_fits ptr32 = refl
zero_fits ptr64 = refl

flag_kept : (arch : Arch) → (1 % 2 ^ flag_bits arch % 2 == 1) ≡ true
flag_kept ptr32 = refl
flag_kept ptr64 = refl

no_flag : (arch : Arch) → (0 % 2 ^ flag_bits arch % 2 == 1) ≡ false
no_flag ptr32 = refl
no_flag ptr64 = refl

module _ (arch : Arch) where
  deletes-owner :
      (u : UniquePtr) (d : List ℕ)
      → auto_delete u ≡ true
      → get u ≢ null
      → deletes arch u d ≡ get u ∷ d
  unfolding finish get
  deletes-owner u d e ne = rw (deletes, finish, e, ne→== (get u) null ne) refl

  deletes-other : (u : UniquePtr) (d : List ℕ) → auto_delete u ≡ false → deletes arch u d ≡ d
  unfolding finish
  deletes-other u d e = rw (deletes, finish, e) refl

  deletes-null : (u : UniquePtr) (d : List ℕ) → get u ≡ null → deletes arch u d ≡ d
  unfolding finish get auto_delete
  deletes-null u d e = elim (Bool-cases (auto_delete u)) [
    | inl t ↦ rw (deletes, finish, t, e) refl
    | inr f ↦ rw (deletes, finish, f) refl
  ]

  -- A pointer that has given its object away.
  released-deletes : (u : UniquePtr) (d : List ℕ) → deletes arch (release arch u).1 d ≡ d
  unfolding release get set_address unset_all
  released-deletes u d = deletes-null (release arch u).1 d (zero_fits arch)

  -- A pointer that fits the address word and a choice of `autodelete` are read back.
  from_pointer_lem :
      (p : ℕ) (b : Bool)
      → p < 2 ^ addr_bits arch
      → (get (from_pointer arch p b) ≡ p) × (auto_delete (from_pointer arch p b) ≡ b)
  unfolding from_pointer get auto_delete make
  from_pointer_lem p true h = (mod-eq_of_lt h, rw test_flag-destroy (flag_kept arch))
  from_pointer_lem p false h = (mod-eq_of_lt h, rw test_flag-destroy (no_flag arch))

  -- Two pointers with the same object and the same choice delete the same.
  deletes-same :
      (u v : UniquePtr) (d : List ℕ)
      → get u ≡ get v
      → auto_delete u ≡ auto_delete v
      → deletes arch u d ≡ deletes arch v d
  deletes-same u v d e a = elim (Bool-cases (auto_delete v)) [
    | inl t ↦ elim (Bool-cases (get v == null)) [
      | inl z ↦
          let n : get v ≡ null = ground (arith, z) in
          deletes-null u d (e ∙ n) ∙ sym (deletes-null v d n)
      | inr nz ↦
          let n : get v ≢ null = ground (arith, nz) in
          deletes-owner u d (a ∙ t) (λ z. n (sym e ∙ z))
          ∙ ap (λ p. p ∷ d) e
          ∙ sym (deletes-owner v d t n)
    ]
    | inr f ↦ deletes-other u d (a ∙ f) ∙ sym (deletes-other v d f)
  ]

  -- The flag that a choice sets is read back, and the object stays.
  set_auto_delete_lem :
      (u : UniquePtr) (b : Bool)
      → (auto_delete (set_auto_delete arch u b) ≡ b) × (get (set_auto_delete arch u b) ≡ get u)
  unfolding set_auto_delete auto_delete get
  set_auto_delete_lem u true = let f = set_flag-destroy arch u.ptr in (f.set_on, f.set_addr)
  set_auto_delete_lem u false = let f = set_flag-destroy arch u.ptr in (f.unset_off, f.unset_addr)

  readdressed :
      (u : UniquePtr) (p : ℕ)
      → p < 2 ^ addr_bits arch
      → (get (record { ptr = set_address arch u.ptr p }) ≡ p)
        × (auto_delete (record { ptr = set_address arch u.ptr p }) ≡ auto_delete u)
  unfolding get auto_delete set_address test_flag
  readdressed u p h = (mod-eq_of_lt h, refl)

  released-null : (u : UniquePtr) → get (release arch u).1 ≡ null
  unfolding get release set_address unset_all
  released-null u = zero_fits arch

  -- M
  pub move-deletes :
      (u : UniquePtr) (d : List ℕ)
      → get u < 2 ^ addr_bits arch
      → (get (move_from arch u).0 ≡ get u)
        × (deletes arch (move_from arch u).0 d ≡ deletes arch u d)
        × (deletes arch (move_from arch u).1 d ≡ d)
        × (get (move_from arch u).1 ≡ null)
  unfolding move_from from_pointer release
  move-deletes u d h =
      let (p, b) = from_pointer_lem (get u) (auto_delete u) h in
      (
        p,
        deletes-same (from_pointer arch (get u) (auto_delete u)) u d p b,
        released-deletes u d,
        released-null u,
      )

  -- On either architecture, for pointers that fit the address word: after an assignment from a
  -- pointer that is not null the destructor deletes that object and no other, and after an
  -- assignment from another `unique_ptr` it deletes what the other one's would have deleted and no
  -- other, while the other one's deletes nothing; the pointer that was held before the assignment
  -- plays no part.
  pub assign-deletes :
      (u other : UniquePtr) (p : ℕ) (d : List ℕ)
      → get other < 2 ^ addr_bits arch
      → p < 2 ^ addr_bits arch
      → p ≢ null
      → (deletes arch (assign_pointer arch u p) d ≡ p ∷ d)
        × (deletes arch (assign_move arch u other).0 d ≡ deletes arch other d)
        × (deletes arch (assign_move arch u other).1 d ≡ d)
  unfolding assign_pointer assign_move release set_auto_delete get
  assign-deletes u other p d h k ne =
      let (g, a) = readdressed (set_auto_delete arch u true) p k in
      let (g', a') =
        readdressed (set_auto_delete arch u (auto_delete other)) (get_address other.ptr) h in
      (
        deletes-owner (assign_pointer arch u p) d (a ∙ (set_auto_delete_lem u true).0)
              (λ z. ne (sym g ∙ z))
            ∙ ap (λ x. x ∷ d) g,
        deletes-same (assign_move arch u other).0 other d g'
            (a' ∙ (set_auto_delete_lem u (auto_delete other)).0),
        released-deletes other d,
      )
