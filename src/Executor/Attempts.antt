-- ===== src/Executor/Attempts.antt =====
-- One attempt: how it is run, judged and counted.
use patience.Base.{
  ℕ, ℤ, pos, negsuc, ◌+ℤ◌, ltb_ℤ, wrap64, String, Bool, true, false, ◌||◌, Option, none, some,
  if◌then◌else◌,
}
use patience.Conditions.{
  CheckResult, Checker, Reason, failure_pattern_matched, check_success, by_exit_code,
}

pub record CommandOutput : Type 0 where
  pub exit_code : ℤ
  pub stdout : String
  pub stderr : String

pub data RunError : Type 0 where
  deadline_exceeded : RunError
  other_error : String → RunError

-- CommandRunner: what RunWithOutputAndContext and RunWithOutput return at attempt n; the former
-- is given the timeout of its context.
pub record CommandRunner : Type 0 where
  pub run_with_context : ℤ → ℕ → CommandOutput × Option RunError
  pub run_with_output : ℕ → CommandOutput × Option RunError

-- backoff.Strategy over its state. `Delay` may change the state (DecorrelatedJitter does). The last
-- two are the methods that Run looks for by type assertion.
pub record Strategy (S : Type 0) : Type 0 where
  pub delay : S → ℤ → ℤ × S
  pub record_outcome : Option (S → ℤ → Bool → ℤ → S)
  pub process_command_output : Option (S → String → String → ℤ → S)

pub record Executor (S : Type 0) : Type 0 where
  pub max_attempts : ℤ
  pub runner : CommandRunner
  pub backoff_strategy : Option (Strategy S)
  pub timeout : ℤ
  pub conditions : Option Checker

abbrev pub no_output : ℤ → CommandOutput
no_output code = record { exit_code = code; stdout = ""; stderr = "" }

-- The output, the error, and whether the attempt timed out.
pub record AttemptOutcome : Type 0 where
  pub output : CommandOutput
  pub error : Option RunError
  pub timed_out : Bool

-- `if err == context.DeadlineExceeded`
judge_deadline : CommandOutput → Option RunError → AttemptOutcome
judge_deadline output (some deadline_exceeded) = record {
  output = no_output (negsuc 0);
  error = none;
  timed_out = true;
}
judge_deadline output error = record { output = output; error = error; timed_out = false }

module _ {S : Type 0} (e : Executor S) where
  unfoldable pub execute_attempt : ℕ → AttemptOutcome
  unfolding judge_deadline
  execute_attempt n =
      if ltb_ℤ (pos 0) e.timeout
      then (let (output, error) =
            e.runner.run_with_context (wrap64 (e.timeout +ℤ pos 50000000)) n in
          judge_deadline output error)
      else (let (output, error) = e.runner.run_with_output n in
          record { output = output; error = error; timed_out = false })

  unfoldable pub check : Option Checker → CommandOutput → CheckResult
  check (some c) output = check_success c output.exit_code output.stdout output.stderr
  check none output = by_exit_code output.exit_code

  -- `conditionResult.Reason == "failure pattern matched"`
  abbrev pub is_failure_pattern : Reason → Bool
  is_failure_pattern failure_pattern_matched = true
  is_failure_pattern _ = false

  unfoldable pub process_attempt_result : CommandOutput → CheckResult × Bool
  unfolding check by_exit_code
  process_attempt_result output =
      let result = check e.conditions output in
      (result, result.success || is_failure_pattern result.reason)
