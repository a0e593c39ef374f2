-- ===== src/Stats/Capacity.antt =====
-- The capacities that `check_queue_capacity` lets through are the powers of two.
use pg_stat_ch_otel_backend.Base.{
  ℕ, zero, suc, ◌-◌, ◌/◌, ◌%◌, ◌^◌, ◌≤◌, ◌≡◌, ◌↔◌, refl, ap, ◌∙◌, true, bit_and, arith, dec_lt,
}
use pg_stat_ch_otel_backend.Base.Int.{ℤ, pos, negsuc, pos_part}
use pg_stat_ch_otel_backend.Base.Bits.{bit_and_halves, bit_and-mask, pow_pos}
use pg_stat_ch_otel_backend.Stats.{check_queue_capacity}
use native.Mathlib.Nat.{pow-suc, mod_self}

bit_and_self : (f n : ℕ) → n ≤ f → bit_and n n ≡ n
bit_and_self zero zero h = refl
bit_and_self zero (suc n) h = absurd (omega arith)
bit_and_self (suc f) zero h = refl
bit_and_self (suc f) (suc n) h =
    omega (arith, bit_and_halves (suc n) (suc n), bit_and_self f (suc n / 2) (omega arith))

-- Without a common digit, `n + 1` and `n` are a power of two and its predecessor.
power_of_two : (f n : ℕ) → n ≤ f → bit_and (suc n) n ≡ 0 → (k : ℕ) × (suc n ≡ 2 ^ k)
power_of_two f zero h e = (0, omega arith)
power_of_two zero (suc n) h e = absurd (omega arith)
power_of_two (suc f) (suc n) h e = elim (dec_lt (suc n % 2) 1) [
  | yes even ↦
      let halves : suc (suc n) / 2 ≡ suc n / 2 = omega arith in
      absurd (
        omega (
          arith,
          bit_and_halves (suc (suc n)) (suc n),
          ap (λ m. bit_and m (suc n / 2)) halves,
          bit_and_self (suc n / 2) (suc n / 2) (omega arith),
        ))
  | no odd ↦
      let halves : suc (suc n) / 2 ≡ suc (suc n / 2) = omega arith in
      let (k, e') = power_of_two f (suc n / 2) (omega arith) (
        omega
          (arith, bit_and_halves (suc (suc n)) (suc n), ap (λ m. bit_and m (suc n / 2)) halves)) in
      (suc k, omega (arith, pow-suc 2 k))
]

accepted→power : (n : ℕ) → check_queue_capacity (pos n) ≡ true → (k : ℕ) × (n ≡ 2 ^ k)
unfolding check_queue_capacity
accepted→power zero e = absurd (ground (arith, e))
accepted→power (suc n) e = power_of_two n n (omega arith) (ground (arith, e))

power→accepted : (k n : ℕ) → n ≡ 2 ^ k → check_queue_capacity (pos n) ≡ true
unfolding check_queue_capacity
power→accepted k zero e = absurd (omega (arith, pow_pos k))
power→accepted k (suc n) e =
    let pred : n ≡ 2 ^ k - 1 = omega arith in
    let masked : bit_and (suc n) (2 ^ k - 1) ≡ 0 =
      bit_and-mask k (suc n) ∙ (ap (λ m. m % 2 ^ k) e ∙ mod_self (2 ^ k)) in
    let met : bit_and (suc n) n ≡ 0 = ap (bit_and (suc n)) pred ∙ masked in rw met refl

-- check_psch_queue_capacity accepts an integer exactly where it is a power of two.
pub check_queue_capacity_lem :
    (v : ℤ) → (check_queue_capacity v ≡ true) ↔ ((k : ℕ) × (v ≡ pos (2 ^ k)))
unfolding check_queue_capacity
check_queue_capacity_lem (pos n) = (
  (λ e. let (k, e') = accepted→power n e in (k, ap pos e')),
  (λ (k, e). power→accepted k n (ap pos_part e)),
)
check_queue_capacity_lem (negsuc n) = ((λ e. absurd (ground (arith, e))), (λ (k, e). absurd (cc e)))
