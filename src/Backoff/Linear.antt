-- ===== src/Backoff/Linear.antt =====
-- Fixed and Linear (pkg/backoff/strategy.go).
pub mod Growth
use patience.Base.{ℤ, pos, ◌*ℤ◌, leb_ℤ, wrap64, if◌then◌else◌}
use patience.Backoff.Cap.{cap}

pub record Fixed : Type 0 where
  pub duration : ℤ

unfoldable pub fixed_delay : Fixed → ℤ → ℤ
fixed_delay f attempt = f.duration

-- A `time.Duration` is an int64 of nanoseconds.
pub record Linear : Type 0 where
  pub increment : ℤ
  pub max_delay : ℤ

-- `time.Duration(attempt) * l.Increment` wraps around.
unfoldable pub linear_delay : Linear → ℤ → ℤ
linear_delay l attempt =
    if leb_ℤ attempt (pos 0) then l.increment else cap l.max_delay (wrap64 (attempt *ℤ l.increment))
