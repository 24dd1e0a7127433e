-- ===== src/Backoff/Exponential/Bounds.antt =====
-- Whatever the floats do, the caps hold.
use patience.Base.{
  ◌≡◌, refl, ℤ, pos, negsuc, ◌^◌, ◌+ℤ◌, ◌-ℤ◌, ◌≤ℤ◌, ◌<ℤ◌, wrap64, wrap64_self, Fits64, +ℤ_parts,
  -ℤ_parts, arith,
}
use patience.Backoff.Cap.{cap}
use patience.Backoff.Floats.{Floats, IsDraw}
use patience.Backoff.Exponential.{DecorrelatedJitter, upper_bound, decorrelated_delay}

nonneg_fits : (z : ℤ) → pos 0 ≤ℤ z → z ≤ℤ pos (2 ^ 53) → Fits64 z
nonneg_fits (pos n) a b = omega arith
nonneg_fits (negsuc n) a b = omega arith

module _ (fl : Floats) where
  open fl use {Float, of_int, to_int, mul}

  upper_bound_bounds :
      (d : DecorrelatedJitter fl) (attempt : ℤ)
      → pos 0 <ℤ d.max_delay
      → d.base_delay ≤ℤ d.max_delay
      → (d.base_delay ≤ℤ upper_bound fl d attempt) × (upper_bound fl d attempt ≤ℤ d.max_delay)
  unfolding upper_bound cap
  upper_bound_bounds d attempt m b = ground arith

  random_part :
      (draw : Float) (base upper : ℤ)
      → IsDraw fl draw
      → pos 0 ≤ℤ base
      → base ≤ℤ upper
      → upper ≤ℤ pos (2 ^ 53)
      → let delay = wrap64 (base +ℤ to_int (mul draw (of_int (wrap64 (upper -ℤ base))))) in
        (base ≤ℤ delay) × (delay ≤ℤ upper)
  random_part draw base upper r b bu u53 =
      let n = upper -ℤ base in
      let n0 : pos 0 ≤ℤ n = omega (arith, -ℤ_parts upper base) in
      let n53 : n ≤ℤ pos (2 ^ 53) = omega (arith, -ℤ_parts upper base) in
      let part = to_int (mul draw (of_int n)) in
      let (lo, hi) = r.part n n0 n53 in
      let fits : Fits64 (base +ℤ part) =
        nonneg_fits (base +ℤ part) (omega (arith, +ℤ_parts base part))
          (omega (arith, +ℤ_parts base part, -ℤ_parts upper base)) in
      rw (wrap64_self n (nonneg_fits n n0 n53), wrap64_self (base +ℤ part) fits)
        (omega (arith, +ℤ_parts base part), omega (arith, +ℤ_parts base part, -ℤ_parts upper base))

  -- Every delay of the decorrelated jitter lies between the base delay and the cap, and it is what
  -- the strategy remembers as the previous delay. The base delay is not negative, the cap is
  -- positive, not below the base delay and at most 2^53 ns.
  pub decorrelated_delay_bounds :
      (d : DecorrelatedJitter fl) (attempt : ℤ) (draw : Float)
      → IsDraw fl draw
      → pos 0 ≤ℤ d.base_delay
      → d.base_delay ≤ℤ d.max_delay
      → pos 0 <ℤ d.max_delay
      → d.max_delay ≤ℤ pos (2 ^ 53)
      → let (delay, d') = decorrelated_delay fl d attempt draw in
        (d.base_delay ≤ℤ delay) × (delay ≤ℤ d.max_delay) × (d'.previous_delay ≡ delay)
  unfolding decorrelated_delay
  decorrelated_delay_bounds d attempt draw r b bm m m53 =
      let (lo, hi) = upper_bound_bounds d attempt m bm in
      let (ge, le) =
        random_part draw d.base_delay (upper_bound fl d attempt) r b lo (omega arith) in
      (ge, omega arith, refl)
