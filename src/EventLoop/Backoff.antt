-- ===== src/EventLoop/Backoff.antt =====
-- The delay of a retry, and where a job ends whose handler keeps failing.
use akoflow.Prelude.{ℕ, zero, suc, ◌*◌, ◌%◌, ◌^◌, ◌≤◌, ◌<◌, some, ap, min, ◌≡◌, arith}
use native.Mathlib.Decide.{dec_le}
use akoflow.EventLoop.{backoff}

-- 2 ^ min n 8 doubles up to 256 and stays there.
two_pow_min :
    (n : ℕ)
    → (1 ≤ 2 ^ min n 8) × (2 ^ min n 8 ≤ 256) × (2 ^ min (suc n) 8 ≡ min (2 * 2 ^ min n 8) 256)
two_pow_min zero = omega arith
two_pow_min (suc zero) = omega arith
two_pow_min (suc (suc zero)) = omega arith
two_pow_min (suc (suc (suc zero))) = omega arith
two_pow_min (suc (suc (suc (suc zero)))) = omega arith
two_pow_min (suc (suc (suc (suc (suc zero))))) = omega arith
two_pow_min (suc (suc (suc (suc (suc (suc zero)))))) = omega arith
two_pow_min (suc (suc (suc (suc (suc (suc (suc zero))))))) = omega arith
two_pow_min (suc (suc (suc (suc (suc (suc (suc (suc n)))))))) =
    let top : min (suc (suc (suc (suc (suc (suc (suc (suc n)))))))) 8 ≡ 8 = omega arith in
    let higher : min (suc (suc (suc (suc (suc (suc (suc (suc (suc n))))))))) 8 ≡ 8 = omega arith in
    rw (top, higher) (omega arith)

backoff_bounds : (base n : ℕ) → (base ≤ base * 2 ^ min n 8) × (base * 2 ^ min n 8 ≤ 256 * base)
backoff_bounds base n = grind (arith, two_pow_min n)

mul_min : (b p : ℕ) → b * min (2 * p) 256 ≡ min (2 * (b * p)) (256 * b)
mul_min b p = elim (dec_le p 128) [
  | yes h ↦
      let small : min (2 * p) 256 ≡ 2 * p = omega arith in
      let scaled : b * p ≤ b * 128 = grind arith in rw small (omega arith)
  | no h ↦
      let large : min (2 * p) 256 ≡ 256 = omega arith in
      let scaled : b * 128 ≤ b * p = grind arith in rw large (omega arith)
]

delay_suc : (base n : ℕ) → base * 2 ^ min (suc n) 8 ≡ min (2 * (base * 2 ^ min n 8)) (256 * base)
delay_suc base n = rw (two_pow_min n).2 (mul_min base (2 ^ min n 8))

small_mod : (p : ℕ) → p < 9223372036854775808 → p % 2 ^ 64 ≡ p
small_mod p h = omega arith

backoff-fits :
    (base n : ℕ)
    → 256 * base < 9223372036854775808
    → backoff base (suc n) ≡ some (base * 2 ^ min n 8)
unfolding backoff
backoff-fits base n h =
    ap some
      (small_mod (base * 2 ^ min n 8) (let (low, high) = backoff_bounds base n in omega arith))

-- If 256 times the base interval is a duration, an int64 of nanoseconds, then the retry after each
-- attempt has a delay: after the first the base, after each later one twice the delay before, up to
-- 256 times the base, and no delay is out of these bounds.
pub backoff_lem :
    (base : ℕ)
    → 256 * base < 9223372036854775808
    → (delay : ℕ → ℕ) × ((n : ℕ) → backoff base (suc n) ≡ some (delay n))
      × (delay 0 ≡ base)
      × ((n : ℕ) → delay (suc n) ≡ min (2 * delay n) (256 * base))
      × ((n : ℕ) → (base ≤ delay n) × (delay n ≤ 256 * base))
backoff_lem base h = (
  (λ n. base * 2 ^ min n 8),
  (λ n. backoff-fits base n h),
  omega arith,
  delay_suc base,
  backoff_bounds base,
)
