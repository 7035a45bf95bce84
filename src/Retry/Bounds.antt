-- ===== src/Retry/Bounds.antt =====
-- retry.rs: the delay lies between the base and the cap, and the policy says when to give up.
use mesui.Prelude.{
  ℕ, ◌+◌, ◌-◌, ◌*◌, ◌%◌, ◌^◌, ◌≤◌, ◌<◌, ◌≡◌, ◌↔◌, ◌⊎◌, true, Bytes, arith, from_be, min, max, ok,
  is_err, done, Outcome, failed,
}
use native.Mathlib.Nat.{mul-le-mul_left, pow-le-pow_right}
use mesui.Retry.{RetryPolicy, delay_cap, next_delay_ms, exhausted}

delay_cap-ge : (p : RetryPolicy) (attempt : ℕ) → p.base_delay_ms ≤ delay_cap p attempt
unfolding delay_cap
delay_cap-ge p attempt = omega arith

doubling : (base m n : ℕ) → m ≤ n → base * 2 ^ m ≤ base * 2 ^ n
doubling base m n h = mul-le-mul_left base (pow-le-pow_right {n = 2} (omega arith) h)

delay_cap-le :
    (p : RetryPolicy) (attempt : ℕ)
    → (delay_cap p attempt ≤ max p.max_delay_ms p.base_delay_ms)
      × (delay_cap p attempt ≤ p.base_delay_ms * 2 ^ (attempt - 1))
unfolding delay_cap
delay_cap-le p attempt =
    let shift = min (attempt - 1) 20 in
    let d = doubling p.base_delay_ms shift (attempt - 1) (omega arith) in
    let one = doubling p.base_delay_ms 0 (attempt - 1) (omega arith) in (omega arith, omega arith)

-- For an attempt from one on and below the maximum there is a delay. It is at least the base delay,
-- at most the base doubled for each attempt before, and at most the maximum delay (or the base, if
-- that is longer).
pub next_delay_ms_bounds :
    (p : RetryPolicy) (attempt : ℕ) (buf : Bytes)
    → 0 < attempt
    → attempt < p.max_attempts
    → (d : ℕ) × (next_delay_ms p attempt (done buf) ≡ ok d)
      × (p.base_delay_ms ≤ d)
      × (d ≤ max p.max_delay_ms p.base_delay_ms)
      × (d ≤ p.base_delay_ms * 2 ^ (attempt - 1))
unfolding next_delay_ms
next_delay_ms_bounds p attempt buf pos less =
    let cap = delay_cap p attempt in
    let span = cap - p.base_delay_ms + 1 in
    let jitter = from_be 0 buf % span in
    let low = delay_cap-ge p attempt in
    let high = delay_cap-le p attempt in
    let small : jitter ≤ cap - p.base_delay_ms = omega arith in
    (
      p.base_delay_ms + jitter,
      ground arith,
      omega arith,
      omega (arith, high.0),
      omega (arith, high.1),
    )

-- The policy refuses a delay exactly for attempt zero and for an attempt at which it is exhausted.
pub next_delay_ms-err_iff :
    (p : RetryPolicy) (attempt : ℕ) (buf : Bytes)
    → (is_err (next_delay_ms p attempt (done buf)) ≡ true)
      ↔ ((attempt ≡ 0) ⊎ (exhausted p attempt ≡ true))
unfolding next_delay_ms exhausted
next_delay_ms-err_iff p attempt buf = (λ h. ground arith, λ h. ground arith)

-- Whatever comes back as a delay is at least the base delay.
pub next_delay_ms_ge :
    (p : RetryPolicy) (attempt : ℕ) (filled : Outcome Bytes) {d : ℕ}
    → next_delay_ms p attempt filled ≡ ok d
    → p.base_delay_ms ≤ d
unfolding next_delay_ms
next_delay_ms_ge p attempt (done buf) h = ground arith
next_delay_ms_ge p attempt (failed e) h = ground arith
