-- ===== src/Command/Strategies.antt =====
-- The strategies that the subcommands make, and the validation of their options
-- (cmd/patience/subcommands.go). Float arithmetic is an argument.
use patience.Base.{
  ℤ, pos, ltb_ℤ, leb_ℤ, ◌||◌, Option, none, some, List, [], ◌∷◌, String, str_eq, if◌then◌else◌,
  Text, ◌⊎◌, inl, inr,
}
use patience.Config.{is_one_of}
use patience.Backoff.Floats.{Floats}
use patience.Backoff.Linear.{Fixed, Linear}
use patience.Backoff.Fibonacci.{Fibonacci}
use patience.Backoff.Exponential.{Exponential, DecorrelatedJitter}
use patience.Backoff.Diophantine.{Diophantine}
use patience.Backoff.Polynomial.{Polynomial, new_polynomial, PolynomialError}
use patience.Command.{
  CommandError, max_delay_negative, unknown_fallback, base_delay_negative, multiplier_not_positive,
  rate_limit_not_positive, window_not_positive, invalid_offsets,
}
use patience.Command.Offsets.{Offsets, offsets, bad_offset, parse_retry_offsets}

pub record HttpAwareConfig : Type 0 where
  pub fallback : String
  pub max_delay : ℤ

pub record ExponentialConfig (fl : Floats) : Type 0 where
  pub base_delay : ℤ
  pub multiplier : fl.Float
  pub max_delay : ℤ

pub record DiophantineConfig : Type 0 where
  pub rate_limit : ℤ
  pub window : ℤ
  pub retry_offsets : Text
  pub resource_id : String

pub data Strategy (fl : Floats) : Type 0 where
  fixed : Fixed → Strategy fl
  linear : Linear → Strategy fl
  fibonacci : Fibonacci → Strategy fl
  exponential jitter : Exponential fl → Strategy fl
  decorrelated_jitter : DecorrelatedJitter fl → Strategy fl
  polynomial : Polynomial fl → Strategy fl
  diophantine : Diophantine → Strategy fl
  http_aware : Strategy fl → ℤ → Strategy fl
  adaptive : Strategy fl → fl.Float → ℤ → Strategy fl

abbrev pub valid_fallbacks : List String
valid_fallbacks =
    "exponential" ∷ "exp" ∷ "linear" ∷ "lin" ∷ "fixed" ∷ "fix" ∷ "jitter" ∷ "jit"
    ∷ "decorrelated-jitter" ∷ "dj" ∷ "fibonacci" ∷ "fib" ∷ []

unfoldable pub validate_http_aware : HttpAwareConfig → Option CommandError
validate_http_aware h =
    if ltb_ℤ h.max_delay (pos 0)
    then some max_delay_negative
    else if is_one_of h.fallback valid_fallbacks
    then none
    else some unknown_fallback

abbrev pub refused_offsets : Offsets → Option CommandError
refused_offsets (offsets ds) = none
refused_offsets (bad_offset e) = some invalid_offsets

unfoldable pub validate_diophantine : (Text → Option ℤ) → DiophantineConfig → Option CommandError
validate_diophantine parse_duration c =
    if leb_ℤ c.rate_limit (pos 0)
    then some rate_limit_not_positive
    else if leb_ℤ c.window (pos 0)
    then some window_not_positive
    else refused_offsets (parse_retry_offsets parse_duration c.retry_offsets)

abbrev pub second : ℤ
second = pos 1000000000

abbrev pub minute : ℤ
minute = pos 60000000000

module _ (fl : Floats) where
  unfoldable pub validate_exponential : ExponentialConfig fl → Option CommandError
  validate_exponential e =
      if ltb_ℤ e.base_delay (pos 0)
      then some base_delay_negative
      else if fl.le e.multiplier (fl.of_int (pos 0))
      then some multiplier_not_positive
      else if ltb_ℤ e.max_delay (pos 0)
      then some max_delay_negative
      else none

  abbrev pub two : fl.Float
  two = fl.of_int (pos 2)

  abbrev pub doubling : Exponential fl
  doubling = record { base_delay = second; multiplier = two; max_delay = minute }

  abbrev pub default_linear : Linear
  default_linear = record { increment = second; max_delay = minute }

  abbrev pub default_fibonacci : Fibonacci
  default_fibonacci = record { base_delay = second; max_delay = minute }

  -- A new DecorrelatedJitter has no previous delay.
  abbrev pub new_decorrelated : ℤ → fl.Float → ℤ → DecorrelatedJitter fl
  new_decorrelated base_delay multiplier max_delay = record {
    base_delay = base_delay;
    multiplier = multiplier;
    max_delay = max_delay;
    previous_delay = pos 0;
  }

  unfoldable pub create_fallback_strategy : String → Option (Strategy fl)
  create_fallback_strategy name =
      if str_eq name "exponential" || str_eq name "exp"
      then some (exponential doubling)
      else if str_eq name "linear" || str_eq name "lin"
      then some (linear default_linear)
      else if str_eq name "fixed" || str_eq name "fix"
      then some (fixed record { duration = second })
      else if str_eq name "jitter" || str_eq name "jit"
      then some (jitter doubling)
      else if str_eq name "decorrelated-jitter" || str_eq name "dj"
      then some (decorrelated_jitter (new_decorrelated second two minute))
      else if str_eq name "fibonacci" || str_eq name "fib"
      then some (fibonacci default_fibonacci)
      else none

  -- What the interface{} of createStrategyFromConfig holds.
  pub data AnyConfig : Type 0 where
    http_config : HttpAwareConfig → AnyConfig
    exponential_config : ExponentialConfig fl → AnyConfig
    other_config : AnyConfig

  pub data StrategyError : Type 0 where
    invalid_config_type unknown_strategy_type : StrategyError

  abbrev pub simple_fallback : String → Strategy fl
  simple_fallback name =
      if str_eq name "exponential" || str_eq name "exp"
      then exponential doubling
      else if str_eq name "linear"
      then linear default_linear
      else if str_eq name "fixed"
      then fixed record { duration = second }
      else exponential doubling

  abbrev pub from_http : AnyConfig → StrategyError ⊎ Strategy fl
  from_http (http_config h) = inr (http_aware (simple_fallback h.fallback) h.max_delay)
  from_http _ = inl invalid_config_type

  abbrev pub from_exponential : AnyConfig → StrategyError ⊎ Strategy fl
  from_exponential (exponential_config e) = inr (
      exponential
        record { base_delay = e.base_delay; multiplier = e.multiplier; max_delay = e.max_delay })
  from_exponential _ = inl invalid_config_type

  unfoldable pub create_strategy_from_config : String → AnyConfig → StrategyError ⊎ Strategy fl
  create_strategy_from_config type config =
      if str_eq type "http-aware" || str_eq type "ha"
      then from_http config
      else if str_eq type "exponential" || str_eq type "exp"
      then from_exponential config
      else inl unknown_strategy_type

  abbrev pub or_doubling : PolynomialError ⊎ Polynomial fl → Option (Strategy fl)
  or_doubling (inl e) = none
  or_doubling (inr p) = some (polynomial p)

  -- The fallback of the adaptive subcommand; an unknown name means exponential.
  unfoldable pub adaptive_fallback : String → Option (Strategy fl)
  adaptive_fallback name =
      if str_eq name "exponential" || str_eq name "exp"
      then some (exponential doubling)
      else if str_eq name "linear" || str_eq name "lin"
      then some (linear default_linear)
      else if str_eq name "fixed" || str_eq name "fix"
      then some (fixed record { duration = second })
      else if str_eq name "jitter" || str_eq name "jit"
      then some (jitter doubling)
      else if str_eq name "decorrelated-jitter" || str_eq name "dj"
      then some (decorrelated_jitter (new_decorrelated second two minute))
      else if str_eq name "fibonacci" || str_eq name "fib"
      then some (fibonacci default_fibonacci)
      else if str_eq name "polynomial" || str_eq name "poly"
      then or_doubling (new_polynomial fl second two minute)
      else some (exponential doubling)
