-- ===== src/Base/Bits.antt =====
-- `a & (2^k - 1)` is the remainder by `2^k`, at every width.
use Prim.Native.Nat.{
  ℕ, zero, suc, ◌+◌, ◌-◌, ◌*◌, ◌/◌, ◌%◌, ◌^◌, ◌≤◌, ◌<◌, min, bit_and, digits, bit_and-bitwise,
}
use mathlib.Core.Path.{◌≡◌, refl, ap, ◌∙◌}
use native.Mathlib.Omega.{arith}
use native.Mathlib.Nat.{pow-suc, add-mul-mod_self_right, mod-eq_of_lt, div-add-mod, mod-lt}

-- The recursion on digits behind `bit_and`, with its fuel.
abbrev low_and : ℕ → ℕ → ℕ → ℕ
low_and fuel a b = digits (λ b. zero) min fuel a b

-- Any fuel from the first operand on gives the same result.
low_and_enough : (f g a b : ℕ) → a ≤ f → a ≤ g → low_and f a b ≡ low_and g a b
low_and_enough zero zero a b p q = refl
low_and_enough zero (suc g) zero b p q = refl
low_and_enough (suc f) zero zero b p q = refl
low_and_enough (suc f) (suc g) zero b p q = refl
low_and_enough zero g (suc a) b p q = absurd (omega arith)
low_and_enough (suc f) zero (suc a) b p q = absurd (omega arith)
low_and_enough (suc f) (suc g) (suc a) b p q =
    omega (arith, low_and_enough f g (suc a / 2) (b / 2) (omega arith) (omega arith))

zero-bit_and : (b : ℕ) → bit_and 0 b ≡ 0
zero-bit_and b = bit_and-bitwise 0 b

pub bit_and_halves : (a b : ℕ) → bit_and a b ≡ bit_and (a / 2) (b / 2) * 2 + min (a % 2) (b % 2)
bit_and_halves zero b = omega (arith, zero-bit_and b, zero-bit_and (b / 2))
bit_and_halves (suc a) b = omega (
  arith,
  bit_and-bitwise (suc a) b,
  bit_and-bitwise (suc a / 2) (b / 2),
  low_and_enough a (suc a / 2) (suc a / 2) (b / 2) (omega arith) (omega arith),
)

bit_and-zero_below : (n a : ℕ) → a ≤ n → bit_and a 0 ≡ 0
bit_and-zero_below n zero h = refl
bit_and-zero_below zero (suc a) h = absurd (omega arith)
bit_and-zero_below (suc n) (suc a) h =
    omega (arith, bit_and_halves (suc a) 0, bit_and-zero_below n (suc a / 2) (omega arith))

pub pow_pos : (k : ℕ) → 0 < 2 ^ k
pow_pos zero = omega arith
pow_pos (suc k) = omega (arith, pow-suc 2 k, pow_pos k)

-- A remainder by an even number, from that of the half.
mod_double : (a p : ℕ) → 0 < p → a % (p * 2) ≡ a / 2 % p * 2 + a % 2
mod_double a p h =
    let r : ℕ = a / 2 % p * 2 + a % 2 in
    let q : ℕ = a / 2 / p in
    let e : a ≡ r + q * (p * 2) = omega (arith, div-add-mod (a / 2) p) in
    let small : r < p * 2 = omega (arith, mod-lt (a / 2) h) in
    ap (λ t. t % (p * 2)) e ∙ (add-mul-mod_self_right r q (p * 2) ∙ mod-eq_of_lt small)

pub bit_and-mask : (k a : ℕ) → bit_and a (2 ^ k - 1) ≡ a % 2 ^ k
bit_and-mask zero a = omega (arith, bit_and-zero_below a a (omega arith))
bit_and-mask (suc k) a =
    let half : (2 ^ suc k - 1) / 2 ≡ 2 ^ k - 1 = omega (arith, pow-suc 2 k, pow_pos k) in
    let odd : (2 ^ suc k - 1) % 2 ≡ 1 = omega (arith, pow-suc 2 k, pow_pos k) in
    let low : bit_and (a / 2) ((2 ^ suc k - 1) / 2) ≡ a / 2 % 2 ^ k =
      rw half (bit_and-mask k (a / 2)) in
    let high : a % 2 ^ suc k ≡ a / 2 % 2 ^ k * 2 + a % 2 =
      rw pow-suc (mod_double a (2 ^ k) (pow_pos k)) in
    omega (arith, bit_and_halves a (2 ^ suc k - 1))
