-- ===== src/Types.antt =====
-- include/core/types.h: the result codes, the implementation kinds, and `conditional`.
use lock_free.Common.{ℕ, Bool, true, false}

-- `result_t`
pub data Result : Type 0 where
  failure success empty null_pointer double_free not_implemented timeout signaled : Result

-- `ds_impl_t`
pub data DsImpl : Type 0 where
  raw mutex spinlock lockfree : DsImpl

-- `conditional<value_type, B, T, F>::value`
abbrev pub conditional : Bool → ℕ → ℕ → ℕ
conditional true t f = t
conditional false t f = f

-- `node_t` with `_next` and without `_prev`, as the queue and the stack use it.
pub record Node (V : Type 0) : Type 0 where
  pub value : V
  pub next : ℕ
