-- ===== src/Metrics.antt =====
-- The metrics of a run (pkg/metrics/metrics.go). The SHA-256 hash and the time stamp, which
-- are only stored, are left out; the total duration is kept as an integer.
use Prim.Native.String.{◌++◌}
use patience.Base.{String, ℕ, ◌+◌, ℤ, Bool, List, [], ◌∷◌, length, if◌then◌else◌}

pub record AttemptMetric : Type 0 where
  pub duration : ℤ
  pub exit_code : ℤ
  pub success : Bool

pub data FinalStatus : Type 0 where
  succeeded failed : FinalStatus

pub record RunMetrics : Type 0 where
  pub command : String
  pub final_status : FinalStatus
  pub total_duration : ℤ
  pub total_attempts : ℕ
  pub successful_attempts : ℕ
  pub failed_attempts : ℕ
  pub attempts : List AttemptMetric

-- The counting loop: the successful and the failed attempts so far.
pub count_attempts : ℕ → ℕ → List AttemptMetric → ℕ × ℕ
count_attempts successful failures [] = (successful, failures)
count_attempts successful failures (a ∷ attempts) =
    count_attempts (if a.success then successful + 1 else successful)
      (if a.success then failures else failures + 1) attempts

-- strings.Join(command, " ")
pub join : List String → String
join [] = ""
join (word ∷ []) = word
join (word ∷ (other ∷ words)) = word ++ " " ++ join (other ∷ words)

unfoldable pub new_run_metrics : List String → Bool → ℤ → List AttemptMetric → RunMetrics
new_run_metrics command success total_duration attempts =
    let (successful, failures) = count_attempts 0 0 attempts in
    record {
      command = join command;
      final_status = if success then succeeded else failed;
      total_duration = total_duration;
      total_attempts = length attempts;
      successful_attempts = successful;
      failed_attempts = failures;
      attempts = attempts;
    }
