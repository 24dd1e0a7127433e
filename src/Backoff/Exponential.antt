-- ===== src/Backoff/Exponential.antt =====
-- Exponential, Jitter and DecorrelatedJitter (pkg/backoff/strategy.go), over the float arithmetic
-- that they use; a random number is the argument `draw`.
pub mod Bounds
use patience.Base.{ℤ, pos, ◌+ℤ◌, ◌-ℤ◌, ltb_ℤ, leb_ℤ, eqb_ℤ, wrap64, ◌&&◌, ◌||◌, if◌then◌else◌}
use patience.Backoff.Cap.{cap}
use patience.Backoff.Floats.{Floats}

pub record Exponential (fl : Floats) : Type 0 where
  pub base_delay : ℤ
  pub multiplier : fl.Float
  pub max_delay : ℤ

pub record DecorrelatedJitter (fl : Floats) : Type 0 where
  pub base_delay : ℤ
  pub multiplier : fl.Float
  pub max_delay : ℤ
  pub previous_delay : ℤ

module _ (fl : Floats) where
  open fl use {Float, of_int, to_int, mul, pow}

  -- baseDelay * multiplier^(attempt-1)
  unfoldable pub grown : Exponential fl → ℤ → Float
  grown e attempt =
      mul (of_int e.base_delay) (pow e.multiplier (of_int (wrap64 (attempt -ℤ pos 1))))

  unfoldable pub exponential_delay : Exponential fl → ℤ → ℤ
  exponential_delay e attempt =
      if leb_ℤ attempt (pos 0) then e.base_delay else cap e.max_delay (to_int (grown e attempt))

  -- `Jitter` has the fields of `Exponential`.
  unfoldable pub jitter_delay : Exponential fl → ℤ → Float → ℤ
  jitter_delay j attempt draw =
      if leb_ℤ attempt (pos 0)
      then to_int (mul draw (of_int j.base_delay))
      else to_int (
          mul draw (
            if ltb_ℤ (pos 0) j.max_delay && ltb_ℤ j.max_delay (to_int (grown j attempt))
            then of_int j.max_delay
            else grown j attempt))

  -- The upper bound before the random choice.
  unfoldable pub upper_bound : DecorrelatedJitter fl → ℤ → ℤ
  upper_bound d attempt =
      let fresh = leb_ℤ attempt (pos 0) || eqb_ℤ d.previous_delay (pos 0) in
      let scaled =
        to_int (mul (of_int (if fresh then d.base_delay else d.previous_delay)) d.multiplier) in
      let capped = cap d.max_delay scaled in
      if ltb_ℤ capped d.base_delay then d.base_delay else capped

  -- The delay, and the strategy with `previousDelay` updated.
  unfoldable pub decorrelated_delay : DecorrelatedJitter fl → ℤ → Float → ℤ × DecorrelatedJitter fl
  decorrelated_delay d attempt draw =
      let delay_range = wrap64 (upper_bound d attempt -ℤ d.base_delay) in
      let random_delay = wrap64 (d.base_delay +ℤ to_int (mul draw (of_int delay_range))) in
      (random_delay, record d { previous_delay = random_delay })
