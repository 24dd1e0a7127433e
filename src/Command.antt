-- ===== src/Command.antt =====
-- The subcommands of patience (cmd/patience/subcommands.go): their options, how these are validated, and
-- the strategies that they make. Parsing flags is cobra's; a duration is a number of nanoseconds.
pub mod Offsets
pub mod Strategies
pub mod Executors
pub mod Runs
pub mod Fallbacks
pub mod ExitStatus
pub mod OffsetsRoundTrip
use patience.Base.{
  ℤ, pos, ltb_ℤ, leb_ℤ, Bool, true, false, not, ◌&&◌, ◌||◌, Option, none, some, List, [], ◌∷◌,
  String, str_eq, if◌then◌else◌, ◌⊎◌, inl, inr, is_empty,
}

pub record CommonConfig : Type 0 where
  pub attempts : ℤ
  pub timeout : ℤ
  pub success_pattern : String
  pub failure_pattern : String
  pub case_insensitive : Bool
  pub config_file : String
  pub debug_config : Bool
  pub daemon_enabled : Bool
  pub daemon_socket : String
  pub daemon_timeout : ℤ
  pub daemon_auto_start : Bool

abbrev pub new_common_config : CommonConfig
new_common_config = record {
  attempts = pos 3;
  timeout = pos 0;
  success_pattern = "";
  failure_pattern = "";
  case_insensitive = false;
  config_file = "";
  debug_config = false;
  daemon_enabled = false;
  daemon_socket = "/tmp/patience-daemon.sock";
  daemon_timeout = pos 5000000000;
  daemon_auto_start = true;
}

pub data CommandError : Type 0 where
  attempts_out_of_range timeout_negative invalid_success_pattern invalid_failure_pattern :
      CommandError
  base_delay_negative multiplier_not_positive max_delay_negative unknown_fallback : CommandError
  rate_limit_not_positive window_not_positive invalid_offsets : CommandError
  base_delay_not_positive exponent_negative max_delay_not_positive base_above_max : CommandError
  learning_rate_out_of_range memory_window_out_of_range : CommandError
  no_command no_separator not_loaded strategy_refused checker_refused : CommandError

-- A pattern that is set does not compile.
abbrev pub broken : (String → Bool) → String → Bool
broken compiles pattern = not (str_eq pattern "") && not (compiles pattern)

unfoldable pub validate_common : (String → Bool) → CommonConfig → Option CommandError
validate_common compiles c =
    if ltb_ℤ c.attempts (pos 1) || ltb_ℤ (pos 1000) c.attempts
    then some attempts_out_of_range
    else if ltb_ℤ c.timeout (pos 0)
    then some timeout_negative
    else if broken compiles c.success_pattern
    then some invalid_success_pattern
    else if broken compiles c.failure_pattern
    then some invalid_failure_pattern
    else none

-- The arguments after the separator.
unfoldable pub parse_command_args : List String → CommandError ⊎ List String
parse_command_args [] = inl no_separator
parse_command_args (arg ∷ args) =
    let rest = parse_command_args args in
    if str_eq arg "--" then (if is_empty args then inl no_command else inr args) else rest

unfoldable pub parse_args_with_separator : List String → CommandError ⊎ List String
parse_args_with_separator [] = inl no_separator
parse_args_with_separator (arg ∷ args) =
    let rest = parse_args_with_separator args in
    if str_eq arg "--" then (if is_empty args then inl no_command else inr args) else rest
