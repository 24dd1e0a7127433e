-- ===== src/Command/Executors.antt =====
-- The executor that a subcommand makes and what it does with the result
-- (cmd/patience/subcommands.go).
use patience.Base.{
  ℤ, pos, ltb_ℤ, Bool, true, false, not, ◌||◌, Option, none, some, String, str_eq, if◌then◌else◌,
  ◌⊎◌, inl, inr,
}
use patience.Conditions.{
  NewChecker, created, refused, new_checker, Regex, Reason, failure_pattern_matched,
  max_retries_reached,
}
use patience.Executor.Attempts.{CommandRunner, Strategy, Executor}
use patience.Executor.Loop.{Result}
use patience.Command.{CommonConfig, CommandError, checker_refused}

module _ {S : Type 0} (runner : CommandRunner) where
  abbrev pub new_executor : ℤ → Executor S
  new_executor attempts = record {
    max_attempts = attempts;
    runner = runner;
    backoff_strategy = none;
    timeout = pos 0;
    conditions = none;
  }

  abbrev pub new_executor_with_backoff : ℤ → Strategy S → Executor S
  new_executor_with_backoff attempts strategy = record (new_executor attempts) {
    backoff_strategy = some strategy;
  }

  abbrev pub new_executor_with_timeout : ℤ → ℤ → Executor S
  new_executor_with_timeout attempts timeout = record (new_executor attempts) { timeout = timeout }

  abbrev pub new_executor_with_backoff_and_timeout : ℤ → Strategy S → ℤ → Executor S
  new_executor_with_backoff_and_timeout attempts strategy timeout = record (new_executor attempts) {
    backoff_strategy = some strategy;
    timeout = timeout;
  }

  abbrev pub base_executor : Option (Strategy S) → CommonConfig → Executor S
  base_executor (some strategy) c =
      if ltb_ℤ (pos 0) c.timeout
      then new_executor_with_backoff_and_timeout c.attempts strategy c.timeout
      else new_executor_with_backoff c.attempts strategy
  base_executor none c =
      if ltb_ℤ (pos 0) c.timeout
      then new_executor_with_timeout c.attempts c.timeout
      else new_executor c.attempts

  abbrev pub with_checker : Executor S → NewChecker → CommandError ⊎ Executor S
  with_checker e (created checker) = inr (record e { conditions = some checker })
  with_checker e (refused error) = inl checker_refused

  -- `compile` is regexp.Compile.
  unfoldable pub create_executor_from_config :
      (String → Option Regex) → Option (Strategy S) → CommonConfig → CommandError ⊎ Executor S
  create_executor_from_config compile strategy c =
      if not (str_eq c.success_pattern "") || not (str_eq c.failure_pattern "")
      then with_checker (base_executor strategy c)
          (new_checker compile c.success_pattern c.failure_pattern c.case_insensitive)
      else inr (base_executor strategy c)

-- Whether the reason's text contains "failure pattern matched".
abbrev pub mentions_failure_pattern : Reason → Bool
mentions_failure_pattern failure_pattern_matched = true
mentions_failure_pattern (max_retries_reached reason) = mentions_failure_pattern reason
mentions_failure_pattern _ = false

-- The code that is given to os.Exit.
unfoldable pub exit_status : Result → ℤ
exit_status r =
    if r.success then pos 0 else if mentions_failure_pattern r.reason then pos 1 else r.exit_code
