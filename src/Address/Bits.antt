-- ===== src/Address/Bits.antt =====
-- The bit operations of address.go at variables.
use mathlib.Core.Path.{◌≡◌, refl, ap, ◌∙◌}
use Prim.Native.Nat.{
  ℕ, zero, suc, ◌+◌, ◌-◌, ◌*◌, ◌/◌, ◌%◌, ◌≤◌, ◌<◌, min, max, bit_and, bit_or, digits,
  bit_and-bitwise, bit_or-bitwise,
}
use native.Mathlib.Nat.{div-add-mod, mod-lt, mod-eq_of_lt, add-mul-mod_self_left}
use native.Mathlib.Omega.{arith}

-- more rounds than the first number has digits change nothing
digits-rounds :
    (z : ℕ → ℕ) (f : ℕ → ℕ → ℕ) (n k x y : ℕ) → x ≤ n → x ≤ k → digits z f n x y ≡ digits z f k x y
digits-rounds z f zero zero x y p q = refl
digits-rounds z f zero (suc k) zero y p q = refl
digits-rounds z f zero (suc k) (suc x) y p q = absurd (omega arith)
digits-rounds z f (suc n) zero zero y p q = refl
digits-rounds z f (suc n) zero (suc x) y p q = absurd (omega arith)
digits-rounds z f (suc n) (suc k) zero y p q = refl
digits-rounds z f (suc n) (suc k) (suc x) y p q =
    ap (λ (t : ℕ). t * 2 + f (suc x % 2) (y % 2))
      (digits-rounds z f n k (suc x / 2) (y / 2) (omega arith) (omega arith))

pub bit_or-digit : (x y : ℕ) → bit_or x y ≡ max (x % 2) (y % 2) + 2 * bit_or (x / 2) (y / 2)
bit_or-digit zero y = omega (arith, bit_or-bitwise 0 y, bit_or-bitwise 0 (y / 2))
bit_or-digit (suc x) y = omega (
  arith,
  digits-rounds (λ t. t) max x (suc x / 2) (suc x / 2) (y / 2) (omega arith) (omega arith),
  bit_or-bitwise (suc x / 2) (y / 2),
  bit_or-bitwise (suc x) y,
)

pub bit_and-digit : (x y : ℕ) → bit_and x y ≡ min (x % 2) (y % 2) + 2 * bit_and (x / 2) (y / 2)
bit_and-digit zero y = omega (arith, bit_and-bitwise 0 y, bit_and-bitwise 0 (y / 2))
bit_and-digit (suc x) y = omega (
  arith,
  digits-rounds (λ t. 0) min x (suc x / 2) (suc x / 2) (y / 2) (omega arith) (omega arith),
  bit_and-bitwise (suc x / 2) (y / 2),
  bit_and-bitwise (suc x) y,
)

pub bit_or-half : (a b : ℕ) → bit_or a b / 2 ≡ bit_or (a / 2) (b / 2)
bit_or-half a b = omega (arith, bit_or-digit a b)

pub bit_or-odd : (a b : ℕ) → bit_or a b % 2 ≡ max (a % 2) (b % 2)
bit_or-odd a b = omega (arith, bit_or-digit a b)

bit_or-zero_rounds : (n a : ℕ) → a ≤ n → bit_or a 0 ≡ a
bit_or-zero_rounds n zero h = refl
bit_or-zero_rounds zero (suc a) h = absurd (omega arith)
bit_or-zero_rounds (suc n) (suc a) h =
    omega (arith, bit_or-digit (suc a) 0, bit_or-zero_rounds n (suc a / 2) (omega arith))

pub bit_or-zero : (a : ℕ) → bit_or a 0 ≡ a
bit_or-zero a = bit_or-zero_rounds a a (omega arith)

bit_and-zero_rounds : (n a : ℕ) → a ≤ n → bit_and a 0 ≡ 0
bit_and-zero_rounds n zero h = refl
bit_and-zero_rounds zero (suc a) h = absurd (omega arith)
bit_and-zero_rounds (suc n) (suc a) h =
    omega (arith, bit_and-digit (suc a) 0, bit_and-zero_rounds n (suc a / 2) (omega arith))

pub bit_and-zero : (a : ℕ) → bit_and a 0 ≡ 0
bit_and-zero a = bit_and-zero_rounds a a (omega arith)

-- two to the power `k` by doubling, which computes at `suc k`
abbrev pub power : ℕ → ℕ
power zero = 1
power (suc k) = power k + power k

pub power_pos : (k : ℕ) → 0 < power k
power_pos zero = omega arith
power_pos (suc k) = omega (arith, power_pos k)

mod_double : (a n : ℕ) → 0 < n → a % (n + n) ≡ a / 2 % n * 2 + a % 2
mod_double a n h =
    let whole = div-add-mod (a / 2) n in
    let small = mod-lt (a / 2) h in
    let e : a ≡ a / 2 % n * 2 + a % 2 + (n + n) * (a / 2 / n) = omega (arith, whole) in
    ap (λ (t : ℕ). t % (n + n)) e
    ∙ add-mul-mod_self_left (a / 2 % n * 2 + a % 2) (n + n) (a / 2 / n)
    ∙ mod-eq_of_lt (omega (arith, small))

-- the mask of `k` ones takes the remainder
pub bit_and_mask : (k a : ℕ) → bit_and a (power k - 1) ≡ a % power k
bit_and_mask zero a = rw (bit_and-zero a) (omega arith)
bit_and_mask (suc k) a = ground (
  arith,
  bit_and-digit a (power (suc k) - 1),
  bit_and_mask k (a / 2),
  power_pos k,
  mod_double a (power k),
)
