-- ===== src/Prelude/Bits.antt =====
-- Masks, shifts and joins of bit fields as arithmetic, for the C expressions `x & mask`, `x >> k`
-- and `x | y << k`. The native bit operations have no laws at variables but their definition by
-- binary digits, from which these are derived.
use Prim.Native.Nat.{
  ℕ, zero, suc, ◌+◌, ◌-◌, ◌*◌, ◌/◌, ◌%◌, ◌^◌, ◌≤◌, ◌<◌, min, max, bit_and, bit_or, digits,
  bit_and-bitwise, bit_or-bitwise,
}
use mathlib.Core.Path.{◌≡◌, refl, sym, ap, ◌∙◌}
use native.Mathlib.Omega.{arith}
use native.Mathlib.Nat.{pow-suc, mul-one, div-one}

-- The digit recursion does not depend on its fuel, once that is at least the left operand.
module _ (end : ℕ → ℕ) (op : ℕ → ℕ → ℕ) where
  digits_enough : (f g a b : ℕ) → a ≤ f → a ≤ g → digits end op f a b ≡ digits end op g a b
  digits_enough zero zero a b hf hg = refl
  digits_enough (suc f) zero zero b hf hg = refl
  digits_enough zero (suc g) zero b hf hg = refl
  digits_enough (suc f) (suc g) zero b hf hg = refl
  digits_enough zero g (suc a) b hf hg = absurd (omega arith)
  digits_enough (suc f) zero (suc a) b hf hg = absurd (omega arith)
  digits_enough (suc f) (suc g) (suc a) b hf hg =
      omega (arith, digits_enough f g (suc a / 2) (b / 2) (omega arith) (omega arith))

-- The lowest digit of each operation, and the others.
pub or_step : (a b : ℕ) → bit_or a b ≡ bit_or (a / 2) (b / 2) * 2 + max (a % 2) (b % 2)
or_step zero b = omega (arith, bit_or-bitwise 0 b, bit_or-bitwise 0 (b / 2))
or_step (suc a) b = omega (
  arith,
  bit_or-bitwise (suc a / 2) (b / 2),
  bit_or-bitwise (suc a) b,
  digits_enough (λ y. y) max a (suc a / 2) (suc a / 2) (b / 2) (omega arith) (omega arith),
)

pub and_step : (a b : ℕ) → bit_and a b ≡ bit_and (a / 2) (b / 2) * 2 + min (a % 2) (b % 2)
and_step zero b = omega (arith, bit_and-bitwise 0 b, bit_and-bitwise 0 (b / 2))
and_step (suc a) b = omega (
  arith,
  bit_and-bitwise (suc a / 2) (b / 2),
  bit_and-bitwise (suc a) b,
  digits_enough (λ y. 0) min a (suc a / 2) (suc a / 2) (b / 2) (omega arith) (omega arith),
)

-- Fields that do not overlap are joined by addition.
pub or_disjoint : (k a b : ℕ) → a < 2 ^ k → bit_or a (b * 2 ^ k) ≡ a + b * 2 ^ k
or_disjoint zero zero b h = omega (arith, bit_or-bitwise 0 (b * 1))
or_disjoint zero (suc a) b h = absurd (omega arith)
or_disjoint (suc k) a b h =
    let twice : b * 2 ^ suc k ≡ b * 2 ^ k * 2 =
      omega (arith, ap (λ (t : ℕ). b * t) (pow-suc 2 k)) in
    let half : b * 2 ^ k * 2 / 2 ≡ b * 2 ^ k = omega arith in
    rw twice (
      omega (
        arith,
        or_step a (b * 2 ^ k * 2),
        ap (bit_or (a / 2)) half,
        or_disjoint k (a / 2) b (omega (arith, pow-suc 2 k)),
      ))

or_zero_below : (n a : ℕ) → a < n → bit_or a 0 ≡ a
or_zero_below zero a h = absurd (omega arith)
or_zero_below (suc n) zero h = bit_or-bitwise 0 0
or_zero_below (suc n) (suc a) h =
    omega (arith, or_step (suc a) 0, or_zero_below n (suc a / 2) (omega arith))

-- The same with the higher field on the left.
pub disjoint_or : (k a b : ℕ) → a < 2 ^ k → bit_or (b * 2 ^ k) a ≡ a + b * 2 ^ k
disjoint_or zero zero b h = omega (arith, or_zero_below (suc (b * 1)) (b * 1) (omega arith))
disjoint_or zero (suc a) b h = absurd (omega arith)
disjoint_or (suc k) a b h =
    let twice : b * 2 ^ suc k ≡ b * 2 ^ k * 2 =
      omega (arith, ap (λ (t : ℕ). b * t) (pow-suc 2 k)) in
    let half : b * 2 ^ k * 2 / 2 ≡ b * 2 ^ k = omega arith in
    rw twice (
      omega (
        arith,
        or_step (b * 2 ^ k * 2) a,
        ap (λ (t : ℕ). bit_or t (a / 2)) half,
        disjoint_or k (a / 2) b (omega (arith, pow-suc 2 k)),
      ))

zero_mask_below : (n a : ℕ) → a < n → bit_and a 0 ≡ 0
zero_mask_below zero a h = absurd (omega arith)
zero_mask_below (suc n) zero h = bit_and-bitwise 0 0
zero_mask_below (suc n) (suc a) h =
    omega (arith, and_step (suc a) 0, zero_mask_below n (suc a / 2) (omega arith))

mod_double : (a m : ℕ) → 0 < m → a % (m * 2) ≡ a / 2 % m * 2 + a % 2
mod_double a m h = grind arith

pub two_pow_pos : (k : ℕ) → 0 < 2 ^ k
two_pow_pos zero = omega arith
two_pow_pos (suc k) = omega (arith, pow-suc 2 k, two_pow_pos k)

-- A mask of `k` ones.
pub low_mask : (k a : ℕ) → bit_and a (2 ^ k - 1) ≡ a % 2 ^ k
low_mask zero a = omega (arith, zero_mask_below (suc a) a (omega arith))
low_mask (suc k) a =
    let half : (2 ^ suc k - 1) / 2 ≡ 2 ^ k - 1 = omega (arith, pow-suc 2 k, two_pow_pos k) in
    omega (
      arith,
      and_step a (2 ^ suc k - 1),
      ap (bit_and (a / 2)) half,
      low_mask k (a / 2),
      pow-suc 2 k,
      two_pow_pos k,
      mod_double a (2 ^ k) (two_pow_pos k),
      ap (λ (t : ℕ). a % t) (pow-suc 2 k),
    )

div_double : (a m : ℕ) → 0 < m → a / 2 / m ≡ a / (m * 2)
div_double a m h = grind arith

-- A mask that is shifted left by `k`.
pub high_mask : (k a m : ℕ) → bit_and a (m * 2 ^ k) ≡ bit_and (a / 2 ^ k) m * 2 ^ k
high_mask zero a m = rw (mul-one, div-one) (omega arith)
high_mask (suc k) a m =
    let twice : m * 2 ^ suc k ≡ m * 2 ^ k * 2 =
      omega (arith, ap (λ (t : ℕ). m * t) (pow-suc 2 k)) in
    let half : m * 2 ^ k * 2 / 2 ≡ m * 2 ^ k = omega arith in
    let shifted : a / 2 / 2 ^ k ≡ a / 2 ^ suc k =
      div_double a (2 ^ k) (two_pow_pos k) ∙ ap (λ (t : ℕ). a / t) (sym (pow-suc 2 k)) in
    rw twice (
      omega (
        arith,
        and_step a (m * 2 ^ k * 2),
        ap (bit_and (a / 2)) half,
        high_mask k (a / 2) m,
        ap (λ (t : ℕ). bit_and t m * 2 ^ k) shifted,
        ap (λ (t : ℕ). bit_and (a / 2 ^ suc k) m * t) (pow-suc 2 k),
      ))
