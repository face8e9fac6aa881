-- ===== src/MemoryAddress/Laws.antt =====
-- The three fields of a `memory_address` do not disturb one another, and keep what fits.
use Prim.Native.Nat.{bit_and, bit_or}
use native.Mathlib.Nat.{mod-eq_of_lt}
use lock_free.Common.{ℕ, ◌+◌, ◌-◌, ◌%◌, ◌^◌, ◌<◌, ◌≡◌, refl, ap, true, false, arith, ◌==◌}
use lock_free.Common.Bits.{bit_and-one, bit_and-mod_two, bit_or-mod_two}
use lock_free.MemoryAddress.{
  Arch, ptr32, ptr64, base_bits, addr_bits, flag_bits, counter_bits, destroy, MemoryAddress,
  set_address, set_flag, unset_flag, add_counter, sub_counter, get_address, get_counter, test_flag,
}

-- DESTROY is the lowest bit of the flags.
pub test_flag-destroy : (o : MemoryAddress) → test_flag o destroy ≡ (o.flags % 2 == 1)
unfolding test_flag
test_flag-destroy o = ground (arith, bit_and-one o.flags)

mask_even : (arch : Arch) → (2 ^ base_bits arch - 1 - destroy) % 2 ≡ 0
mask_even ptr32 = refl
mask_even ptr64 = refl

wrap_flags : (arch : Arch) (x : ℕ) → x % 2 ^ flag_bits arch % 2 ≡ x % 2
wrap_flags ptr32 x = omega arith
wrap_flags ptr64 x = omega arith

wrap_counter :
    (arch : Arch) (c v : ℕ)
    → c < 2 ^ counter_bits arch
    → v < 2 ^ base_bits arch
    → ((c + v) % 2 ^ counter_bits arch + 2 ^ base_bits arch - v) % 2 ^ counter_bits arch ≡ c
wrap_counter ptr32 c v h k = omega arith
wrap_counter ptr64 c v h k = omega arith

module _ (arch : Arch) (o : MemoryAddress) where
  parity_set : (set_flag arch o destroy).flags % 2 ≡ 1
  unfolding set_flag
  parity_set =
      omega (arith, wrap_flags arch (bit_or o.flags destroy), bit_or-mod_two o.flags destroy)

  pub parity_unset : (unset_flag arch o destroy).flags % 2 ≡ 0
  unfolding unset_flag
  parity_unset =
      let mask = 2 ^ base_bits arch - 1 - destroy in
      omega (
        arith,
        wrap_flags arch (bit_and o.flags mask),
        bit_and-mod_two o.flags mask,
        mask_even arch,
      )

  -- On either architecture and every address word, after `set_flag` of DESTROY the flag tests true
  -- and after `unset_flag` it tests false, and neither changes the address or the counter.
  pub set_flag-destroy : record {
    set_on : test_flag (set_flag arch o destroy) destroy ≡ true;
    set_addr : get_address (set_flag arch o destroy) ≡ get_address o;
    set_counter : get_counter (set_flag arch o destroy) ≡ get_counter o;
    unset_off : test_flag (unset_flag arch o destroy) destroy ≡ false;
    unset_addr : get_address (unset_flag arch o destroy) ≡ get_address o;
    unset_counter : get_counter (unset_flag arch o destroy) ≡ get_counter o;
  }
  unfolding set_flag unset_flag
  set_flag-destroy = record {
    set_on = rw (test_flag-destroy, parity_set);
    set_addr = refl;
    set_counter = refl;
    unset_off = rw (test_flag-destroy, parity_unset);
    unset_addr = refl;
    unset_counter = refl;
  }

  -- A pointer that fits the bit field of the address is read back after `set_address`, which
  -- leaves the flags and the counter as they were.
  pub get_address-set_address :
      (p : ℕ)
      → p < 2 ^ addr_bits arch
      → (get_address (set_address arch o p) ≡ p)
        × ((set_address arch o p).flags ≡ o.flags)
        × (get_counter (set_address arch o p) ≡ get_counter o)
  unfolding set_address
  get_address-set_address p h = (mod-eq_of_lt h, refl, refl)

  -- On a word whose counter fits its bit field, `sub_counter` of a value of the base type undoes
  -- `add_counter` of it, wrap-around included.
  pub sub_counter-add_counter :
      (v : ℕ)
      → get_counter o < 2 ^ counter_bits arch
      → v < 2 ^ base_bits arch
      → sub_counter arch (add_counter arch o v) v ≡ o
  unfolding sub_counter add_counter
  sub_counter-add_counter v h k =
      ap (λ c. record o { counter = c }) (wrap_counter arch o.counter v h k)
