-- ===== src/Retry.antt =====
-- crates/core/src/retry.rs: exponential back-off with full jitter. The random bytes are an argument.
pub mod Bounds
mod Tests
use mesui.Prelude.{
  ℕ, ◌+◌, ◌-◌, ◌*◌, ◌%◌, ◌^◌, Bool, Bytes, leb, ◌==◌, from_be, u64_max, min, max, Result, ok,
  config, entropy, ◌>>=◌, ◌>>◌, fail_if, Outcome, map_err,
}

pub record RetryPolicy : Type 0 where
  pub max_attempts : ℕ
  pub base_delay_ms : ℕ
  pub max_delay_ms : ℕ

abbrev pub default_policy : RetryPolicy
default_policy = record { max_attempts = 8; base_delay_ms = 2_000; max_delay_ms = 900_000 }

-- `base.saturating_mul(1 << shift)`, held between the base and the maximum.
unfoldable pub delay_cap : RetryPolicy → ℕ → ℕ
delay_cap p attempt =
    let shift = min (attempt - 1) 20 in
    let exp = min (p.base_delay_ms * 2 ^ shift) u64_max in
    max (min exp p.max_delay_ms) p.base_delay_ms

unfoldable pub next_delay_ms : RetryPolicy → ℕ → Outcome Bytes → Result ℕ
next_delay_ms p attempt filled = do
  fail_if (attempt == 0) (config "attempt starts at 1")
  fail_if (leb p.max_attempts attempt) (config "attempts exhausted, no next delay")
  let cap = delay_cap p attempt
  buf ← map_err entropy filled
  let span = cap - p.base_delay_ms + 1
  let jitter = from_be 0 buf % span
  ok (p.base_delay_ms + jitter)

unfoldable pub exhausted : RetryPolicy → ℕ → Bool
exhausted p attempts = leb p.max_attempts attempts
