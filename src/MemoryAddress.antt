-- ===== src/MemoryAddress.antt =====
-- include/core/memory_address.h: a pointer, flags and a counter in the bit fields of 64 bits.
-- A field of width `w` keeps what is stored in it modulo `2 ^ w`.
pub mod Laws
use Prim.Native.Nat.{bit_and, bit_or}
use lock_free.Common.{ℕ, ◌+◌, ◌-◌, ◌%◌, ◌^◌, Bool, true, false, not, ◌==◌}
use lock_free.Types.{conditional}

-- `sizeof(pointer)` is 4 or 8.
pub data Arch : Type 0 where
  ptr32 ptr64 : Arch

abbrev pub is_ptr64 : Arch → Bool
is_ptr64 ptr64 = true
is_ptr64 ptr32 = false

-- The width of `base_t`.
abbrev pub base_bits : Arch → ℕ
base_bits a = conditional (is_ptr64 a) 64 32

abbrev pub addr_bits : Arch → ℕ
addr_bits a = conditional (is_ptr64 a) 48 32

abbrev pub flag_bits : Arch → ℕ
flag_bits a = conditional (is_ptr64 a) 4 4

abbrev pub counter_bits : Arch → ℕ
counter_bits a = conditional (is_ptr64 a) 12 28

-- `address_flags::DESTROY`
abbrev pub destroy : ℕ
destroy = 0x0001

abbrev pub null : ℕ
null = 0

pub record MemoryAddress : Type 0 where
  pub addr : ℕ
  pub flags : ℕ
  pub counter : ℕ

module _ (arch : Arch) where
  -- The constructor from its three parts; `reset` stores the same three.
  unfoldable pub make : ℕ → ℕ → ℕ → MemoryAddress
  make ptr flags counter = record {
    addr = ptr % 2 ^ addr_bits arch;
    flags = flags % 2 ^ flag_bits arch;
    counter = counter % 2 ^ counter_bits arch;
  }

  unfoldable pub reset : MemoryAddress → ℕ → ℕ → ℕ → MemoryAddress
  reset o ptr flags counter = record o {
    addr = ptr % 2 ^ addr_bits arch;
    flags = flags % 2 ^ flag_bits arch;
    counter = counter % 2 ^ counter_bits arch;
  }

  unfoldable pub set_address : MemoryAddress → ℕ → MemoryAddress
  set_address o ptr = record o { addr = ptr % 2 ^ addr_bits arch }

  unfoldable pub set_flag : MemoryAddress → ℕ → MemoryAddress
  set_flag o flag = record o { flags = bit_or o.flags flag % 2 ^ flag_bits arch }

  -- `~flag` is taken in `base_t`.
  unfoldable pub unset_flag : MemoryAddress → ℕ → MemoryAddress
  unset_flag o flag = record o {
    flags = bit_and o.flags (2 ^ base_bits arch - 1 - flag) % 2 ^ flag_bits arch;
  }

  unfoldable pub set_counter : MemoryAddress → ℕ → MemoryAddress
  set_counter o counter = record o { counter = counter % 2 ^ counter_bits arch }

  unfoldable pub add_counter : MemoryAddress → ℕ → MemoryAddress
  add_counter o value = record o { counter = (o.counter + value) % 2 ^ counter_bits arch }

  -- The subtraction wraps in `base_t`.
  unfoldable pub sub_counter : MemoryAddress → ℕ → MemoryAddress
  sub_counter o value = record o {
    counter = (o.counter + 2 ^ base_bits arch - value) % 2 ^ counter_bits arch;
  }

-- `memory_address()`
abbrev pub fresh : MemoryAddress
fresh = record { addr = null; flags = 0; counter = 0 }

unfoldable pub copy_from : MemoryAddress → MemoryAddress → MemoryAddress
copy_from to from = record to { addr = from.addr; flags = from.flags; counter = from.counter }

abbrev pub get_address : MemoryAddress → ℕ
get_address o = o.addr

abbrev pub get_counter : MemoryAddress → ℕ
get_counter o = o.counter

unfoldable pub test_flag : MemoryAddress → ℕ → Bool
test_flag o flag = not (bit_and o.flags flag == 0)

unfoldable pub unset_all : MemoryAddress → MemoryAddress
unset_all o = record o { flags = 0 }
