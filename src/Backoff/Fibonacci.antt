-- ===== src/Backoff/Fibonacci.antt =====
-- Fibonacci (pkg/backoff/strategy.go).
pub mod Sequence
use patience.Base.{ℕ, zero, suc, ◌-◌, ℤ, pos, pos_part, ◌+ℤ◌, ◌*ℤ◌, leb_ℤ, wrap64, if◌then◌else◌}
use patience.Backoff.Cap.{cap}

-- The loop `for i := 3; i <= n; i++ { a, b = b, a+b }`, by the rounds left; an `int` is an int64.
unfoldable pub fibonacci_loop : ℕ → ℤ → ℤ → ℤ
fibonacci_loop zero a b = b
fibonacci_loop (suc rounds) a b = fibonacci_loop rounds b (wrap64 (a +ℤ b))

unfoldable pub fibonacci : ℤ → ℤ
fibonacci n = if leb_ℤ n (pos 2) then pos 1 else fibonacci_loop (pos_part n - 2) (pos 1) (pos 1)

pub record Fibonacci : Type 0 where
  pub base_delay : ℤ
  pub max_delay : ℤ

unfoldable pub fibonacci_delay : Fibonacci → ℤ → ℤ
fibonacci_delay f attempt =
    if leb_ℤ attempt (pos 0)
    then f.base_delay
    else cap f.max_delay (wrap64 (fibonacci attempt *ℤ f.base_delay))
