-- ===== src/Retry/Tests.antt =====
-- The theorems on the back-off at the default policy.
use mesui.Prelude.{ℕ, ◌≤◌, ◌≡◌, replicate, arith, ok, done, max, ◌-◌, ◌*◌, ◌^◌}
use mesui.Retry.{default_policy, next_delay_ms}
use mesui.Retry.Bounds.{next_delay_ms_bounds}

next_delay_ms_bounds_example :
    (d : ℕ) × (next_delay_ms default_policy 3 (done (replicate 8 255)) ≡ ok d)
    × (2_000 ≤ d)
    × (d ≤ max 900_000 2_000)
    × (d ≤ 2_000 * 2 ^ (3 - 1))
next_delay_ms_bounds_example =
    next_delay_ms_bounds default_policy 3 (replicate 8 255) (omega arith) (omega arith)
