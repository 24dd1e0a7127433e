-- ===== src/Examples/BackoffRuns.antt =====
-- The strategies of pkg/backoff at concrete inputs.
use patience.Base.{
  ℕ, ◌+◌, ◌*◌, ◌/◌, ◌^◌, ◌≤◌, ◌≡◌, refl, ◌↔◌, ℤ, pos, negsuc, ◌≤ℤ◌, ◌+ℤ◌, ◌-ℤ◌, wrap64, true, false,
  [], ◌∷◌, ◌++◌, count, arith,
}
use Prim.Native.Nat.{min}
use patience.Backoff.Cap.{cap}
use patience.Examples.Thousandths.{thousandths}
use patience.Backoff.Floats.{IsDraw}
use patience.Backoff.Fibonacci.{fibonacci, fibonacci_loop}
use patience.Backoff.Fibonacci.Sequence.{fib, fibonacci-fib}
use patience.Backoff.Exponential.{Exponential, exponential_delay, grown}
use patience.Backoff.Diophantine.{
  Diophantine, planned, can_schedule_request, sort_times, windows_fit, count_window, insert_time,
  base_delay, diophantine_delay,
}
use patience.Backoff.Diophantine.Windows.{in_window, can_schedule_request_iff}
use patience.Backoff.Diophantine.Doubling.{hour_ns, diophantine_delay-min}

fibonacci-fib_example : fibonacci (pos 11) ≡ pos (fib 11)
fibonacci-fib_example = fibonacci-fib 10 (unfold fib in omega arith)

-- The 93rd number does not fit.
fibonacci_wraps : fibonacci (pos 93) ≡ negsuc 6246583658587674877
unfolding fibonacci fibonacci_loop ◌+ℤ◌ wrap64
fibonacci_wraps = refl

half_below : (m : ℕ) → 500 * (m * 1000) / 1000 / 1000 + 0 ≤ m + 0
half_below m = omega arith

half_part :
    (n : ℤ)
    → pos 0 ≤ℤ n
    → (pos 0 ≤ℤ thousandths.to_int (thousandths.mul 500 (thousandths.of_int n)))
      × (thousandths.to_int (thousandths.mul 500 (thousandths.of_int n)) ≤ℤ n)
half_part (pos m) lo = (omega arith, half_below m)
half_part (negsuc m) lo = absurd (omega arith)

half-IsDraw : IsDraw thousandths 500
half-IsDraw = record { part = λ n lo hi. half_part n lo }

abbrev doubling : Exponential thousandths
doubling = record { base_delay = pos 1000; multiplier = 2000; max_delay = pos 5000 }

doubles : exponential_delay thousandths doubling (pos 3) ≡ pos 4000
unfolding exponential_delay grown cap wrap64 ◌-ℤ◌
doubles = refl

-- Two requests in ten seconds, each with one retry after five.
abbrev pair : Diophantine
pair = record { rate_limit = pos 2; window = pos 10; retry_offsets = pos 0 ∷ pos 5 ∷ [] }

can_schedule_request_iff_example : (can_schedule_request pair (pos 0 ∷ []) (pos 5) ≡ true) ↔ (
    (start : ℤ)
    → pos (count (in_window start (pos 10)) (pos 0 ∷ [] ++ planned pair (pos 5))) ≤ℤ pos 2)
can_schedule_request_iff_example = can_schedule_request_iff pair (pos 0 ∷ []) (pos 5) (omega arith)

admits : can_schedule_request pair (pos 0 ∷ []) (pos 5) ≡ true
unfolding can_schedule_request sort_times windows_fit planned count_window insert_time ◌+ℤ◌
admits = refl

refuses : can_schedule_request pair (pos 0 ∷ []) (pos 4) ≡ false
unfolding can_schedule_request sort_times windows_fit planned count_window insert_time ◌+ℤ◌
refuses = refl

abbrev hourly : Diophantine
hourly = record {
  rate_limit = pos 2;
  window = pos 10;
  retry_offsets = pos 0 ∷ pos 10000000000 ∷ [];
}

diophantine_delay-min_example :
    diophantine_delay hourly (pos 10) ≡ pos (min (10000000000 * 2 ^ 9) hour_ns)
unfolding base_delay
diophantine_delay-min_example = diophantine_delay-min hourly 9 10000000000 refl (omega arith)
