-- ===== src/Quota/Limits.antt =====
-- app/sessions/quota_limits.py. A cap that is not positive is off. Every test of the source is
-- `cap > 0` or `cap <= 0`, so a negative cap behaves as 0 and caps are natural numbers here.
-- Times are whole ticks of the clock.
use pixeldive.Prelude.{ℕ}

pub record QuotaLimits : Type 0 where
  pub requests_per_window : ℕ
  pub window_seconds : ℕ
  pub tenant_max_bytes : ℕ
  pub session_max_bytes : ℕ
