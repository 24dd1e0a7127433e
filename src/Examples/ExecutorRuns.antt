-- ===== src/Examples/ExecutorRuns.antt =====
-- Runs of the executor, with its conditions and metrics, at concrete inputs.
use patience.Base.{
  ℕ, suc, ◌≡◌, refl, pos, map, String, none, some, List, [], ◌∷◌, arith, ◌==◌, if◌then◌else◌,
}
use patience.Executor.Attempts.{CommandRunner, Strategy, Executor, no_output}
use patience.Executor.Loop.{Environment, run_attempts}
use patience.Executor.Coordination.{
  create_planned_requests, planned_from, unix, decimal, derive_resource_id, curl_resource,
}
use patience.Executor.Verdict.{Explained, run_attempts-Explained}
use patience.Executor.Accounting.{Accounted, run_attempts-Accounted}

-- Exit code 1 until the third attempt.
abbrev third_succeeds : CommandRunner
third_succeeds = record {
  run_with_context = λ timeout n. (no_output (if n == 3 then pos 0 else pos 1), none);
  run_with_output = λ n. (no_output (if n == 3 then pos 0 else pos 1), none);
}

-- A strategy that counts the delays it was asked for.
abbrev counting : Strategy ℕ
counting = record {
  delay = λ s attempt. (pos 100, suc s);
  record_outcome = none;
  process_command_output = none;
}

abbrev five_tries : Executor ℕ
five_tries = record {
  max_attempts = pos 5;
  runner = third_succeeds;
  backoff_strategy = some counting;
  timeout = pos 0;
  conditions = none;
}

abbrev env : Environment
env = record { command = "make" ∷ []; duration = λ n. pos 10; elapsed = pos 230 }

run_attempts-Explained_example : Explained five_tries 1 5 (run_attempts five_tries env 0)
run_attempts-Explained_example = run_attempts-Explained five_tries env 5 refl 0 (omega arith)

run_attempts-Accounted_example : Accounted (run_attempts five_tries env 0)
run_attempts-Accounted_example = run_attempts-Accounted five_tries env 5 refl 0 (omega arith)

abbrev curl : List String
curl = "curl" ∷ "-i" ∷ "http://api" ∷ []

derived : derive_resource_id (λ url. some "api.test") curl ≡ "http-api.test"
unfolding derive_resource_id curl_resource
derived = refl

first_id :
    map (λ req. req.id) (create_planned_requests "api" (pos 60000000000) (pos 0 ∷ []))
    ≡ "api-60-0" ∷ []
unfolding create_planned_requests planned_from unix decimal
first_id = refl
