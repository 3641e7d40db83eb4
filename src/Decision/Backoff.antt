-- ===== src/Decision/Backoff.antt =====
-- The backoff of rust/src/decision.rs.
use dssp_bot.Prelude.{ℕ, zero, suc, ◌-◌, ◌*◌, ◌^◌, ◌≤◌, min, ◌≡◌, arith}
use dssp_bot.Decision.{RetryPolicy, u64_max, delay_for_attempt}

-- Saturation is never seen behind a cap that fits a `u64`.
capped_product : (a x m cap : ℕ) → cap ≤ m → min (min (a * min x m) m) cap ≡ min (a * x) cap
capped_product zero x m cap h = omega arith
capped_product (suc a) x m cap h = grind arith

-- For every attempt, and every policy whose cap fits a `u64`, the delay is the initial delay times
-- the factor to the power of the attempts before, up to the cap, although the source's products
-- saturate.
pub delay_exact :
    (p : RetryPolicy) (attempt : ℕ)
    → p.max_delay_ms ≤ u64_max
    → delay_for_attempt p attempt
      ≡ min (p.initial_delay_ms * p.backoff_factor ^ (attempt - 1)) p.max_delay_ms
unfolding delay_for_attempt
delay_exact p attempt h =
    capped_product p.initial_delay_ms (p.backoff_factor ^ (attempt - 1)) u64_max p.max_delay_ms h
