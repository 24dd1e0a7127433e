-- ===== src/Examples/CommandRuns.antt =====
-- The subcommands at concrete inputs.
use patience.Base.{
  ◌≡◌, refl, pos, true, false, none, List, [], ◌∷◌, String, is_empty, ℕ, codes, join, map, arith,
  ◌↔◌,
}
use patience.Examples.Thousandths.{thousandths}
use patience.Backoff.Linear.{Linear}
use patience.Command.{new_common_config, validate_common}
use patience.Command.Strategies.{linear}
use patience.Command.Runs.{Inputs, linear_command, started, run_subcommand, prepare}
use patience.Command.Fallbacks.{IsAccepted, run_subcommand-IsAccepted}
use patience.Command.Offsets.{offsets, parse_retry_offsets}
use patience.Command.OffsetsRoundTrip.{parse_retry_offsets-join}
use patience.Examples.Durations.{print, parse_ns, nanoseconds}
use patience.Executor.Attempts.{
  CommandRunner, Executor, no_output, execute_attempt, process_attempt_result, check,
}
use patience.Executor.Loop.{
  Result, LoopState, returned, run_attempts, Environment, new_run_stats, build_final_result,
  run_loop, attempt_step, conclude, attempted, learn, record_attempt_start, record_attempt_end,
}
use patience.Command.Executors.{exit_status, new_executor}
use patience.Command.ExitStatus.{exit_status_iff}
use patience.Conditions.{check_success, exit_code}

-- No configuration is found, no flag is set, and everything compiles.
abbrev inputs : Inputs thousandths
inputs = record {
  read = λ path. none;
  found = "";
  changed = λ flag. false;
  compiles = λ s. true;
  parse_duration = λ s. none;
}

abbrev steps : Linear
steps = record { increment = pos 1000000000; max_delay = pos 60000000000 }

abbrev make : List String
make = "make" ∷ "test" ∷ []

linear_started :
    run_subcommand thousandths inputs (linear_command steps) new_common_config make
    ≡ started (linear steps) new_common_config make
unfolding run_subcommand prepare validate_common is_empty
linear_started = refl

run_subcommand-IsAccepted_example :
    IsAccepted inputs.compiles new_common_config × (make ≡ make) × (is_empty make ≡ false)
run_subcommand-IsAccepted_example =
    run_subcommand-IsAccepted thousandths inputs (linear_command steps) new_common_config
      new_common_config make make (linear steps) linear_started

parse_retry_offsets-join_example :
    parse_retry_offsets parse_ns
      (join (codes ",") (map print (pos 0 ∷ pos 1500000000 ∷ pos 60000000000 ∷ [])))
    ≡ offsets (pos 0 ∷ pos 1500000000 ∷ pos 60000000000 ∷ [])
parse_retry_offsets-join_example =
    parse_retry_offsets-join parse_ns print nanoseconds (pos 0)
      (pos 1500000000 ∷ pos 60000000000 ∷ []) (omega arith, omega arith)
      ((omega arith, omega arith), ((omega arith, omega arith), tt))

-- The command succeeds at once.
abbrev succeeds : CommandRunner
succeeds = record {
  run_with_context = λ timeout n. (no_output (pos 0), none);
  run_with_output = λ n. (no_output (pos 0), none);
}

abbrev three_tries : Executor ℕ
three_tries = new_executor succeeds (pos 3)

abbrev env : Environment
env = record { command = make; duration = λ n. pos 10; elapsed = pos 12 }

abbrev after_success : LoopState ℕ
after_success = record {
  strategy = 0;
  stats = record new_run_stats { total_attempts = 1; successful_runs = 1 };
  attempt_metrics = record { duration = pos 10; exit_code = pos 0; success = true } ∷ [];
  last_output = no_output (pos 0);
  timed_out = false;
  sleeps = [];
}

abbrev succeeded : Result
succeeded = build_final_result three_tries env true (pos 1) (exit_code (pos 0)) after_success

succeeds_at_once : run_attempts three_tries env 0 ≡ returned succeeded after_success
unfolding run_attempts run_loop attempt_step execute_attempt process_attempt_result check conclude
    attempted learn record_attempt_end record_attempt_start check_success
succeeds_at_once = refl

exit_status_iff_example : (exit_status succeeded ≡ pos 0) ↔ (succeeded.success ≡ true)
exit_status_iff_example =
    exit_status_iff three_tries env 0 3 succeeded after_success refl (omega arith) succeeds_at_once
