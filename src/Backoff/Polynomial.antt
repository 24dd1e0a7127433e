-- ===== src/Backoff/Polynomial.antt =====
-- PolynomialStrategy (pkg/backoff/polynomial.go). Float arithmetic is an argument.
use patience.Base.{◌≡◌, ℤ, pos, ◌≤ℤ◌, ltb_ℤ, leb_ℤ, false, ◌⊎◌, inl, inr, if◌then◌else◌, arith, sym}
use mathlib.Core.Path.{subst}
use patience.Backoff.Floats.{Floats}

pub record Polynomial (fl : Floats) : Type 0 where
  pub base_delay : ℤ
  pub exponent : fl.Float
  pub max_delay : ℤ

pub data PolynomialError : Type 0 where
  base_not_positive exponent_negative max_not_positive base_above_max : PolynomialError

module _ (fl : Floats) where
  unfoldable pub new_polynomial : ℤ → fl.Float → ℤ → PolynomialError ⊎ Polynomial fl
  new_polynomial base_delay exponent max_delay =
      if leb_ℤ base_delay (pos 0)
      then inl base_not_positive
      else if fl.less exponent (fl.of_int (pos 0))
      then inl exponent_negative
      else if leb_ℤ max_delay (pos 0)
      then inl max_not_positive
      else if ltb_ℤ max_delay base_delay
      then inl base_above_max
      else inr record { base_delay = base_delay; exponent = exponent; max_delay = max_delay }

  unfoldable pub polynomial_delay : Polynomial fl → ℤ → ℤ
  polynomial_delay p attempt =
      let delay = fl.mul (fl.of_int p.base_delay) (fl.pow (fl.of_int attempt) p.exponent) in
      if leb_ℤ attempt (pos 0)
      then p.base_delay
      else if fl.less (fl.of_int p.max_delay) delay
      then p.max_delay
      else fl.to_int delay

  -- What the conversions of a finite float64 keep: a float that is not above an integer's is
  -- truncated to at most that integer. (The conversion of an integer beyond 2^53 rounds, so the
  -- hypothesis is asked of one integer only.)
  pub record IsBelow (n : ℤ) : Type 0 where
    pub truncates : (x : fl.Float) → fl.less (fl.of_int n) x ≡ false → fl.to_int x ≤ℤ n

  new_polynomial-new :
      (base_delay max_delay : ℤ) (exponent : fl.Float) (p : Polynomial fl)
      → new_polynomial base_delay exponent max_delay ≡ inr p
      → (p.max_delay ≡ max_delay) × (p.base_delay ≤ℤ max_delay)
  unfolding new_polynomial
  new_polynomial-new base_delay max_delay exponent p eq = ground (arith, eq)

  capped :
      (p : Polynomial fl) (attempt : ℤ)
      → IsBelow p.max_delay
      → p.base_delay ≤ℤ p.max_delay
      → polynomial_delay p attempt ≤ℤ p.max_delay
  unfolding polynomial_delay
  capped p attempt below le = ground (
    arith,
    le,
    below.truncates (fl.mul (fl.of_int p.base_delay) (fl.pow (fl.of_int attempt) p.exponent)),
  )

  -- A polynomial strategy that the constructor accepts never waits longer than its maximum delay, at
  -- any attempt, if every float that is not above the maximum converts to at most the maximum, as it
  -- does where float64 represents the maximum exactly.
  pub polynomial_delay_capped :
      (base_delay max_delay : ℤ) (exponent : fl.Float) (p : Polynomial fl) (attempt : ℤ)
      → IsBelow max_delay
      → new_polynomial base_delay exponent max_delay ≡ inr p
      → polynomial_delay p attempt ≤ℤ max_delay
  polynomial_delay_capped base_delay max_delay exponent p attempt below eq =
      let (max, le) = new_polynomial-new base_delay max_delay exponent p eq in
      subst (λ m. polynomial_delay p attempt ≤ℤ m) max
        (capped p attempt (subst IsBelow (sym max) below)
          (subst (λ m. p.base_delay ≤ℤ m) (sym max) le))
