-- ===== src/Executor/Loop.antt =====
-- The retry loop of Executor.Run, its bookkeeping and its results.
use patience.Base.{
  ℕ, zero, suc, ◌+◌, ◌-◌, ltb, ℤ, pos, pos_part, ltb_ℤ, eqb_ℤ, Bool, false, ◌||◌, Option, String,
  none, some, List, [], ◌∷◌, ◌++◌, if◌then◌else◌,
}
use patience.Conditions.{
  CheckResult, Checker, Reason, timeout, max_retries_reached, check_success, exit_code,
}
use patience.Metrics.{AttemptMetric, RunMetrics, new_run_metrics}
use patience.Executor.Attempts.{
  CommandOutput, RunError, Strategy, Executor, AttemptOutcome, execute_attempt,
  process_attempt_result, no_output,
}

-- ui.RunStats, with RecordAttemptStart, RecordAttemptEnd and Finalize.
pub record RunStats : Type 0 where
  pub total_attempts : ℕ
  pub successful_runs : ℕ
  pub failed_runs : ℕ
  pub total_duration : ℤ
  pub final_reason : Option Reason
  pub success : Bool

abbrev pub new_run_stats : RunStats
new_run_stats = record {
  total_attempts = 0;
  successful_runs = 0;
  failed_runs = 0;
  total_duration = pos 0;
  final_reason = none;
  success = false;
}

unfoldable pub record_attempt_start : RunStats → RunStats
record_attempt_start s = record s { total_attempts = s.total_attempts + 1 }

unfoldable pub record_attempt_end : Bool → RunStats → RunStats
record_attempt_end success s =
    if success
    then record s { successful_runs = s.successful_runs + 1 }
    else record s { failed_runs = s.failed_runs + 1 }

unfoldable pub finalize : Bool → Reason → ℤ → RunStats → RunStats
finalize success reason elapsed s = record s {
  success = success;
  final_reason = some reason;
  total_duration = elapsed;
}

-- What Run gets from outside: the command, and by the clock how long attempt n takes and the run.
pub record Environment : Type 0 where
  pub command : List String
  pub duration : ℕ → ℤ
  pub elapsed : ℤ

pub record Result : Type 0 where
  pub success : Bool
  pub attempt_count : ℤ
  pub exit_code : ℤ
  pub timed_out : Bool
  pub reason : Reason
  pub stats : RunStats
  pub metrics : RunMetrics

-- The variables of the loop; `sleeps` are the waits so far, the latest last.
pub record LoopState (S : Type 0) : Type 0 where
  pub strategy : S
  pub stats : RunStats
  pub attempt_metrics : List AttemptMetric
  pub last_output : CommandOutput
  pub timed_out : Bool
  pub sleeps : List ℤ

pub data Outcome (S : Type 0) : Type 0 where
  returned : Result → LoopState S → Outcome S
  failed : RunError → Outcome S

module _ {S : Type 0} (e : Executor S) (env : Environment) where
  -- recordStrategyOutcome asks the strategy for the delay of the attempt before once more.
  outcome_for : Strategy S → Option (S → ℤ → Bool → ℤ → S) → ℕ → Bool → S → S
  outcome_for strategy none attempt success s = s
  outcome_for strategy (some record_outcome) attempt success s =
      if ltb 1 attempt
      then (let (delay, s') = strategy.delay s (pos (attempt - 1)) in
          record_outcome s' delay success (env.duration attempt))
      else record_outcome s (pos 0) success (env.duration attempt)

  processed : Strategy S → CommandOutput → S → S
  processed strategy output s = elim strategy.process_command_output [
    | none ↦ s
    | some process ↦ process s output.stdout output.stderr output.exit_code
  ]

  -- What the strategy learns from an attempt.
  unfoldable pub learn : Option (Strategy S) → ℕ → CommandOutput → Bool → S → S
  unfolding outcome_for processed
  learn none attempt output success s = s
  learn (some strategy) attempt output success s =
      processed strategy output (outcome_for strategy strategy.record_outcome attempt success s)

  -- The delay before the next attempt, and the wait if it is positive.
  unfoldable pub wait : Option (Strategy S) → ℕ → LoopState S → LoopState S
  wait none attempt st = st
  wait (some strategy) attempt st =
      let (delay, s') = strategy.delay st.strategy (pos attempt) in
      record st {
        strategy = s';
        sleeps = if ltb_ℤ (pos 0) delay then st.sleeps ++ delay ∷ [] else st.sleeps;
      }

  base_reason : Option Checker → CommandOutput → Reason
  base_reason (some c) output =
      (check_success c output.exit_code output.stdout output.stderr).reason
  base_reason none output = exit_code output.exit_code

  unfoldable pub determine_final_reason : CommandOutput → Bool → Reason
  unfolding base_reason
  determine_final_reason output timed_out =
      let reason = if timed_out then timeout else base_reason e.conditions output in
      if eqb_ℤ e.max_attempts (pos 1) then reason else max_retries_reached reason

  unfoldable pub build_final_result : Bool → ℤ → Reason → LoopState S → Result
  build_final_result success attempt_count reason st = record {
    success = success;
    attempt_count = attempt_count;
    exit_code = st.last_output.exit_code;
    timed_out = st.timed_out;
    reason = reason;
    stats = finalize success reason env.elapsed st.stats;
    metrics = new_run_metrics env.command success env.elapsed st.attempt_metrics;
  }

  -- All attempts have failed.
  unfoldable pub give_up : LoopState S → Outcome S
  give_up st =
      returned
        (build_final_result false e.max_attempts
          (determine_final_reason st.last_output st.timed_out) st)
        st

  -- The state once attempt n has been judged.
  unfoldable pub attempted : ℕ → AttemptOutcome → CheckResult → LoopState S → LoopState S
  attempted attempt outcome result st = record {
    strategy = learn e.backoff_strategy attempt outcome.output result.success st.strategy;
    stats = record_attempt_end result.success (record_attempt_start st.stats);
    attempt_metrics =
        st.attempt_metrics
        ++ record {
          duration = env.duration attempt;
          exit_code = outcome.output.exit_code;
          success = result.success;
        }
          ∷ [];
    last_output = outcome.output;
    timed_out = st.timed_out || outcome.timed_out;
    sleeps = st.sleeps;
  }

  -- The body of the loop from the test of `shouldStop` on; `rest` is the rest of the loop.
  unfoldable pub conclude :
      ℕ → CheckResult → Bool → LoopState S → (LoopState S → Outcome S) → Outcome S
  conclude attempt result should_stop st rest =
      if should_stop
      then returned (build_final_result result.success (pos attempt) result.reason st) st
      else if eqb_ℤ (pos attempt) e.max_attempts
      then give_up st
      else rest (wait e.backoff_strategy attempt st)

  -- One round: an error of the runner ends the run.
  unfoldable pub attempt_step : ℕ → LoopState S → (LoopState S → Outcome S) → Outcome S
  attempt_step attempt st rest =
      let outcome = execute_attempt e attempt in
      elim outcome.error [
        | some error ↦ failed error
        | none ↦
            let (result, should_stop) = process_attempt_result e outcome.output in
            conclude attempt result should_stop (attempted attempt outcome result st) rest
      ]

  -- By the rounds that are left, from the given attempt on.
  unfoldable pub run_loop : ℕ → ℕ → LoopState S → Outcome S
  run_loop zero attempt st = give_up st
  run_loop (suc rounds) attempt st = attempt_step attempt st (run_loop rounds (suc attempt))

  unfoldable pub run_attempts : S → Outcome S
  run_attempts s = run_loop (pos_part e.max_attempts) 1 (record {
    strategy = s;
    stats = new_run_stats;
    attempt_metrics = [];
    last_output = no_output (pos 0);
    timed_out = false;
    sleeps = [];
  })
