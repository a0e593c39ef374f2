-- ===== src/Export/Retry.antt =====
-- The delay before the next attempt, in src/export/stats_exporter.cc.
use pg_stat_ch_otel_backend.Base.{
  ℕ, zero, suc, ◌-◌, ◌*◌, ◌^◌, ◌≤◌, ◌≡◌, Option, none, some, ltb, ◌==◌, min, if◌then◌else◌, arith,
  Bool-cases, inl, inr,
}
use native.Mathlib.Nat.{pow-le-pow_right}

-- kBaseDelayMs, kMaxDelayMs and kMaxConsecutiveFailures
abbrev pub base_delay_ms : ℕ
base_delay_ms = 1000

abbrev pub max_delay_ms : ℕ
max_delay_ms = 60000

abbrev pub max_consecutive_failures : ℕ
max_consecutive_failures = 10

-- PschGetConsecutiveFailures, from NumConsecutiveFailures() of the exporter, if there is one
unfoldable pub get_consecutive_failures : Option ℕ → ℕ
get_consecutive_failures none = 0
get_consecutive_failures (some failures) = failures

-- PschGetRetryDelayMs. A count of failures is never negative, and the product is below 2^31.
unfoldable pub get_retry_delay_ms : Option ℕ → ℕ
get_retry_delay_ms none = 0
get_retry_delay_ms (some failures) =
    if failures == 0
    then 0
    else (let capped_failures =
          if ltb max_consecutive_failures failures then max_consecutive_failures else failures in
        let delay = base_delay_ms * 2 ^ (capped_failures - 1) in
        if ltb max_delay_ms delay then max_delay_ms else delay)

power_large : (n : ℕ) → 6 ≤ n → 64 ≤ 2 ^ n
power_large n h = pow-le-pow_right (omega arith) h

power_small : (n : ℕ) → n ≤ 9 → 2 ^ n ≤ 512
power_small n h = pow-le-pow_right (omega arith) h

power_step : (n : ℕ) → 2 ^ n ≤ 2 ^ suc n
power_step n = pow-le-pow_right (omega arith) (omega arith)

doubling : (n : ℕ) → get_retry_delay_ms (some (suc n)) ≡ min max_delay_ms (base_delay_ms * 2 ^ n)
unfolding get_retry_delay_ms
doubling n = elim (Bool-cases (ltb 10 (suc n))) [
  | inl many ↦ ground (arith, many, power_large n (ground (arith, many)))
  | inr few ↦ rw few (ground arith)
]

growing : (n : ℕ) → get_retry_delay_ms (some n) ≤ get_retry_delay_ms (some (suc n))
unfolding get_retry_delay_ms
growing zero = omega arith
growing (suc n) = rw (doubling (suc n), doubling n) (omega (arith, power_step n))

-- After n + 1 failures in a row PschGetRetryDelayMs is the base delay doubled n times, at most 60
-- seconds, whatever n is, and one more failure never shortens the delay.
pub get_retry_delay_ms_lem :
    (n : ℕ)
    → (get_retry_delay_ms (some (suc n)) ≡ min max_delay_ms (base_delay_ms * 2 ^ n))
      × (get_retry_delay_ms (some n) ≤ get_retry_delay_ms (some (suc n)))
get_retry_delay_ms_lem n = (doubling n, growing n)
