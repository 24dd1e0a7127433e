-- ===== src/Command/Runs.antt =====
-- What each subcommand does before its command is run (cmd/patience/subcommands.go): the configuration is
-- loaded or not, the options are validated and the strategy is made. viper is an argument, which gives the
-- configuration of the defaults, a file and the environment.
use patience.Base.{
  ℤ, pos, ltb_ℤ, leb_ℤ, Bool, false, ◌||◌, Option, none, some, List, String, str_eq, if◌then◌else◌,
  Text, ◌⊎◌, inl, inr, is_empty,
}
use patience.Backoff.Floats.{Floats}
use patience.Backoff.Linear.{Fixed, Linear}
use patience.Backoff.Fibonacci.{Fibonacci}
use patience.Backoff.Polynomial.{Polynomial, new_polynomial, PolynomialError}
use patience.Config.{Config, merge_with_explicit_flags, validate}
use patience.Command.{
  CommonConfig, CommandError, validate_common, no_command, not_loaded, unknown_fallback,
  invalid_offsets, base_delay_not_positive, exponent_negative, max_delay_not_positive,
  base_above_max, learning_rate_out_of_range, memory_window_out_of_range, strategy_refused,
}
use patience.Command.Offsets.{Offsets, offsets, bad_offset, parse_retry_offsets}
use patience.Command.Strategies.{
  Strategy, fixed, linear, fibonacci, exponential, jitter, decorrelated_jitter, polynomial,
  diophantine, http_aware, adaptive, HttpAwareConfig, ExponentialConfig, DiophantineConfig,
  validate_http_aware, validate_exponential, validate_diophantine, create_fallback_strategy,
  adaptive_fallback, new_decorrelated,
}

pub record PolynomialConfig (fl : Floats) : Type 0 where
  pub base_delay : ℤ
  pub exponent : fl.Float
  pub max_delay : ℤ

pub record AdaptiveConfig (fl : Floats) : Type 0 where
  pub learning_rate : fl.Float
  pub memory_window : ℤ
  pub fallback_strategy : String

-- The subcommands with their options.
pub data Subcommand (fl : Floats) : Type 0 where
  http_aware_command : HttpAwareConfig → Subcommand fl
  exponential_command : ExponentialConfig fl → Subcommand fl
  linear_command : Linear → Subcommand fl
  fixed_command : Fixed → Subcommand fl
  jitter_command decorrelated_jitter_command : ExponentialConfig fl → Subcommand fl
  fibonacci_command : Fibonacci → Subcommand fl
  polynomial_command : PolynomialConfig fl → Subcommand fl
  adaptive_command : AdaptiveConfig fl → Subcommand fl
  diophantine_command : DiophantineConfig → Subcommand fl

-- An error, or the command that is run with this strategy and configuration.
pub data Started (fl : Floats) : Type 0 where
  stopped : CommandError → Started fl
  started : Strategy fl → CommonConfig → List String → Started fl

-- What is read from outside: viper's Unmarshal for a path, the file that FindConfigFile finds, which
-- flags were set, regexp.Compile's verdict and time.ParseDuration.
pub record Inputs (fl : Floats) : Type 0 where
  pub read : String → Option (Config fl.Float)
  pub found : String
  pub changed : String → Bool
  pub compiles : String → Bool
  pub parse_duration : Text → Option ℤ

-- explicitFields: the name of a field, by the flag that sets it.
abbrev pub explicit : (String → Bool) → String → Bool
explicit changed field =
    if str_eq field "attempts"
    then changed "attempts"
    else if str_eq field "timeout"
    then changed "timeout"
    else if str_eq field "success_pattern"
    then changed "success-pattern"
    else if str_eq field "failure_pattern"
    then changed "failure-pattern"
    else if str_eq field "case_insensitive"
    then changed "case-insensitive"
    else if str_eq field "daemon_enabled"
    then changed "daemon"
    else if str_eq field "daemon_socket"
    then changed "daemon-socket"
    else if str_eq field "daemon_timeout"
    then changed "daemon-timeout"
    else if str_eq field "daemon_auto_start"
    then changed "daemon-auto-start"
    else false

module _ (fl : Floats) (inputs : Inputs fl) where
  -- The flags as a configuration; what has no flag here is zero.
  abbrev pub flag_config : CommonConfig → Config fl.Float
  flag_config c = record {
    attempts = c.attempts;
    delay = pos 0;
    timeout = c.timeout;
    backoff_type = "";
    max_delay = pos 0;
    multiplier = fl.of_int (pos 0);
    success_pattern = c.success_pattern;
    failure_pattern = c.failure_pattern;
    case_insensitive = c.case_insensitive;
    daemon_enabled = c.daemon_enabled;
    daemon_socket = c.daemon_socket;
    daemon_timeout = c.daemon_timeout;
    daemon_auto_start = c.daemon_auto_start;
  }

  abbrev pub merged : CommonConfig → Config fl.Float → Config fl.Float
  merged c read =
      merge_with_explicit_flags read (flag_config c) (λ field. explicit inputs.changed field)

  abbrev pub if_valid : Config fl.Float → Option (Config fl.Float)
  if_valid cfg = if is_empty (validate fl cfg) then some cfg else none

  -- LoadWithPrecedenceAndExplicitFlags, without the debug record.
  abbrev pub loaded : CommonConfig → Option (Config fl.Float) → Option (Config fl.Float)
  loaded c none = none
  loaded c (some read) = if_valid (merged c read)

  unfoldable pub load_config_with_precedence : CommonConfig → Option (Config fl.Float)
  load_config_with_precedence c =
      loaded c (inputs.read (if str_eq c.config_file "" then inputs.found else c.config_file))

  abbrev pub with_common : CommonConfig → Config fl.Float → CommonConfig
  with_common c cfg = record c {
    attempts = cfg.attempts;
    timeout = cfg.timeout;
    success_pattern = cfg.success_pattern;
    failure_pattern = cfg.failure_pattern;
    case_insensitive = cfg.case_insensitive;
  }

  -- The diophantine subcommand takes the daemon's options too.
  abbrev pub with_daemon : CommonConfig → Config fl.Float → CommonConfig
  with_daemon c cfg = record (with_common c cfg) {
    daemon_enabled = cfg.daemon_enabled;
    daemon_socket = cfg.daemon_socket;
    daemon_timeout = cfg.daemon_timeout;
    daemon_auto_start = cfg.daemon_auto_start;
  }

  abbrev pub checked : Option CommandError → Started fl → Started fl
  checked (some e) next = stopped e
  checked none next = next

  abbrev pub chosen : CommonConfig → List String → CommandError → Option (Strategy fl) → Started fl
  chosen c args e none = stopped e
  chosen c args e (some strategy) = started strategy c args

  abbrev pub with_loaded :
      (CommonConfig → Config fl.Float → CommonConfig)
      → CommonConfig
      → (CommonConfig → Started fl)
      → Option (Config fl.Float)
      → Started fl
  with_loaded update c next none = stopped not_loaded
  with_loaded update c next (some cfg) =
      checked (validate_common inputs.compiles (update c cfg)) (next (update c cfg))

  abbrev pub with_offsets : DiophantineConfig → CommonConfig → List String → Offsets → Started fl
  with_offsets d c args (bad_offset e) = stopped invalid_offsets
  with_offsets d c args (offsets ds) =
      started
        (diophantine record { rate_limit = d.rate_limit; window = d.window; retry_offsets = ds }) c
        args

  abbrev pub polynomial_error : PolynomialConfig fl → Option CommandError
  polynomial_error p =
      if leb_ℤ p.base_delay (pos 0)
      then some base_delay_not_positive
      else if fl.less p.exponent (fl.of_int (pos 0))
      then some exponent_negative
      else if leb_ℤ p.max_delay (pos 0)
      then some max_delay_not_positive
      else if ltb_ℤ p.max_delay p.base_delay
      then some base_above_max
      else none

  abbrev pub made_polynomial : PolynomialError ⊎ Polynomial fl → Option (Strategy fl)
  made_polynomial (inl e) = none
  made_polynomial (inr p) = some (polynomial p)

  abbrev pub adaptive_error : AdaptiveConfig fl → Option CommandError
  adaptive_error a =
      if fl.le a.learning_rate (fl.of_int (pos 0)) || fl.less (fl.of_int (pos 1)) a.learning_rate
      then some learning_rate_out_of_range
      else if leb_ℤ a.memory_window (pos 0) || ltb_ℤ (pos 10000) a.memory_window
      then some memory_window_out_of_range
      else none

  -- NewAdaptive accepts what the subcommand's own tests accept.
  abbrev pub made_adaptive : AdaptiveConfig fl → Option (Strategy fl) → Option (Strategy fl)
  made_adaptive a none = none
  made_adaptive a (some fallback) = some (adaptive fallback a.learning_rate a.memory_window)

  abbrev pub made_http_aware : HttpAwareConfig → Option (Strategy fl) → Option (Strategy fl)
  made_http_aware h none = none
  made_http_aware h (some fallback) = some (http_aware fallback h.max_delay)

  -- The options of the subcommand are validated and its strategy is made.
  unfoldable pub prepare : Subcommand fl → CommonConfig → List String → Started fl
  prepare (http_aware_command h) c args =
      checked (validate_http_aware h) (
        chosen c args unknown_fallback (made_http_aware h (create_fallback_strategy fl h.fallback)))
  prepare (exponential_command e) c args = checked (validate_exponential fl e) (
      started
        (exponential
          record { base_delay = e.base_delay; multiplier = e.multiplier; max_delay = e.max_delay })
        c args)
  prepare (diophantine_command d) c args =
      checked (validate_diophantine inputs.parse_duration d)
        (with_offsets d c args (parse_retry_offsets inputs.parse_duration d.retry_offsets))
  prepare (linear_command l) c args = started (linear l) c args
  prepare (fixed_command f) c args = started (fixed f) c args
  prepare (jitter_command j) c args =
      started
        (jitter
          record { base_delay = j.base_delay; multiplier = j.multiplier; max_delay = j.max_delay })
        c args
  prepare (decorrelated_jitter_command d) c args =
      started (decorrelated_jitter (new_decorrelated fl d.base_delay d.multiplier d.max_delay)) c
        args
  prepare (fibonacci_command f) c args = started (fibonacci f) c args
  prepare (polynomial_command p) c args = checked (polynomial_error p) (
      chosen c args strategy_refused
        (made_polynomial (new_polynomial fl p.base_delay p.exponent p.max_delay)))
  prepare (adaptive_command a) c args =
      checked (adaptive_error a) (
        chosen c args strategy_refused (made_adaptive a (adaptive_fallback fl a.fallback_strategy)))

  -- Only three subcommands load the configuration; the others go by their flags.
  abbrev pub update_of : Subcommand fl → Option (CommonConfig → Config fl.Float → CommonConfig)
  update_of (http_aware_command h) = some with_common
  update_of (exponential_command e) = some with_common
  update_of (diophantine_command d) = some with_daemon
  update_of _ = none

  abbrev pub configured :
      Option (CommonConfig → Config fl.Float → CommonConfig)
      → CommonConfig
      → (CommonConfig → Started fl)
      → Started fl
  configured none c next = checked (validate_common inputs.compiles c) (next c)
  configured (some update) c next = with_loaded update c next (load_config_with_precedence c)

  unfoldable pub run_subcommand : Subcommand fl → CommonConfig → List String → Started fl
  run_subcommand s c args =
      if is_empty args
      then stopped no_command
      else configured (update_of s) c (λ c'. prepare s c' args)
