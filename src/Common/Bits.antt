-- ===== src/Common/Bits.antt =====
-- The lowest digit of `&` and `|`, from the digit recursion that the native operations stand for.
use Prim.Native.Nat.{
  ℕ, zero, suc, ◌+◌, ◌*◌, ◌/◌, ◌%◌, ◌≤◌, min, max, bit_and, bit_or, digits, bit_and-bitwise,
  bit_or-bitwise,
}
use mathlib.Core.Path.{◌≡◌, refl}
use native.Mathlib.Omega.{arith}

-- The recursion for any operation `op` on digits: `stop` is what it makes of the second number
-- when the first has run out.
module _ (stop : ℕ → ℕ) (op : ℕ → ℕ → ℕ) where
  digits_enough : (x y k l : ℕ) → x ≤ k → x ≤ l → digits stop op k x y ≡ digits stop op l x y
  digits_enough zero y zero zero _ _ = refl
  digits_enough zero y zero (suc l) _ _ = refl
  digits_enough zero y (suc k) zero _ _ = refl
  digits_enough zero y (suc k) (suc l) _ _ = refl
  digits_enough (suc x) y zero l small _ = absurd (omega arith)
  digits_enough (suc x) y (suc k) zero _ small = absurd (omega arith)
  digits_enough (suc x) y (suc k) (suc l) small_k small_l =
      let shorter = digits_enough (suc x / 2) (y / 2) k l (omega arith) (omega arith) in
      omega (arith, shorter)

  digits_step :
      (x y : ℕ)
      → digits stop op (suc x) (suc x) y
        ≡ digits stop op (suc x / 2) (suc x / 2) (y / 2) * 2 + op (suc x % 2) (y % 2)
  digits_step x y =
      let rest = digits_enough (suc x / 2) (y / 2) x (suc x / 2) (omega arith) (omega arith) in
      omega (arith, rest)

-- The lowest digit of `a & b` and of `a | b`.
pub bit_and-mod_two : (a b : ℕ) → bit_and a b % 2 ≡ min (a % 2) (b % 2)
bit_and-mod_two zero b = omega (arith, bit_and-bitwise 0 b)
bit_and-mod_two (suc a) b =
    let whole = bit_and-bitwise (suc a) b in omega (arith, whole, digits_step (λ _. zero) min a b)

pub bit_or-mod_two : (a b : ℕ) → bit_or a b % 2 ≡ max (a % 2) (b % 2)
bit_or-mod_two zero b = omega (arith, bit_or-bitwise 0 b)
bit_or-mod_two (suc a) b =
    let whole = bit_or-bitwise (suc a) b in omega (arith, whole, digits_step (λ y. y) max a b)

-- What is left of `a & b` above the lowest digit.
bit_and_half : (a b : ℕ) → bit_and a b / 2 ≡ bit_and (a / 2) (b / 2)
bit_and_half zero b = omega (arith, bit_and-bitwise 0 b, bit_and-bitwise 0 (b / 2))
bit_and_half (suc a) b =
    let whole = bit_and-bitwise (suc a) b in
    let upper = bit_and-bitwise (suc a / 2) (b / 2) in
    omega (arith, whole, upper, digits_step (λ _. zero) min a b)

bit_and_none : (bound a : ℕ) → a ≤ bound → bit_and a 0 ≡ 0
bit_and_none bound zero small = refl
bit_and_none zero (suc a) small = absurd (omega arith)
bit_and_none (suc bound) (suc a) small =
    let upper = bit_and_none bound (suc a / 2) (omega arith) in
    omega (arith, upper, bit_and_half (suc a) 0, bit_and-mod_two (suc a) 0)

pub bit_and-one : (a : ℕ) → bit_and a 1 ≡ a % 2
bit_and-one a =
    let upper = bit_and_none a (a / 2) (omega arith) in
    omega (arith, upper, bit_and_half a 1, bit_and-mod_two a 1)
