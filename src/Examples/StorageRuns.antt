-- ===== src/Examples/StorageRuns.antt =====
-- The storage at concrete inputs.
use patience.Base.{
  ◌≡◌, refl, ℤ, pos, List, [], ◌∷◌, length, drop, map, String, saturate64, ◌-ℤ◌, ◌+ℤ◌, ◌*ℤ◌, quot,
  wrap64, ◌++◌, ◌≤ℤ◌, ◌<ℤ◌, ◌⊎◌, select, arith,
}
use patience.Metrics.{RunMetrics, FinalStatus, succeeded, failed}
use patience.Storage.{
  MetricsStorage, CommandStats, nothing, aggregate, get_aggregated_stats, get_by_time_range, store,
  sort_command_stats, sort_commands, insert_command, aggregate_one, count_command, StoredMetric,
  appended, cleanup_if_needed, within_size,
}
use patience.Storage.Retention.{IsCleaned, store-Retains}
use patience.Storage.Aggregation.{Summarises, get_aggregated_stats-Summarises}
use patience.Storage.TopCommands.{IsTop, sort_command_stats-IsTop}

abbrev run_of : String → FinalStatus → ℤ → RunMetrics
run_of command status duration = record {
  command = command;
  final_status = status;
  total_duration = duration;
  total_attempts = 1;
  successful_attempts = 1;
  failed_attempts = 0;
  attempts = [];
}

abbrev curl : RunMetrics
curl = run_of "curl" succeeded (pos 4000)

abbrev make : RunMetrics
make = run_of "make" failed (pos 9000)

-- One metric at most, for a second at most.
abbrev small : MetricsStorage
small = record {
  metrics =
      record { timestamp = pos 10; metrics = curl }
      ∷ record { timestamp = pos 900000000000; metrics = make }
      ∷ [];
  max_size = 1;
  max_age = pos 1000000000;
  last_cleanup = pos 0;
}

store-Retains_example :
    let all = small.metrics ++ record { timestamp = pos 900000000010; metrics = curl } ∷ [] in
    let after = store curl (pos 900000000010) (pos 900000000020) small in
    ((pos 300000000000 ≤ℤ pos 900000000020 -ℤ pos 0) × IsCleaned (pos 900000000020) all small after)
    ⊎ ((pos 900000000020 -ℤ pos 0 <ℤ pos 300000000000) × (after ≡ record small { metrics = all }))
store-Retains_example =
    store-Retains curl (pos 900000000010) (pos 900000000020) small (omega arith) (omega arith)

-- The first metric is too old, the second one too many.
newest_kept :
    map
      (λ (m : StoredMetric). m.timestamp)
      (store curl (pos 900000000010) (pos 900000000020) small).metrics
    ≡ pos 900000000010 ∷ []
unfolding store appended cleanup_if_needed within_size saturate64 wrap64 select ◌-ℤ◌ ◌+ℤ◌
newest_kept = refl

get_aggregated_stats-Summarises_example :
    Summarises
      (get_by_time_range (pos 0) (pos 50) small)
      (aggregate (get_by_time_range (pos 0) (pos 50) small) nothing).commands
      (get_aggregated_stats (pos 0) (pos 50) small)
get_aggregated_stats-Summarises_example = get_aggregated_stats-Summarises (pos 0) (pos 50) small

abbrev two_stats : List CommandStats
two_stats =
    record { command = "curl"; count = 2; avg_duration = pos 4000 }
    ∷ record { command = "make"; count = 5; avg_duration = pos 9000 }
    ∷ []

sort_command_stats-IsTop_example :
    IsTop two_stats
      (sort_command_stats two_stats)
      (drop (length (sort_command_stats two_stats)) (sort_commands two_stats))
sort_command_stats-IsTop_example = sort_command_stats-IsTop two_stats

-- The command with more runs is shown first.
make_first :
    map (λ (c : CommandStats). c.command) (sort_command_stats two_stats) ≡ "make" ∷ "curl" ∷ []
unfolding sort_command_stats sort_commands insert_command
make_first = refl

-- The average duration of one command over two runs.
curl_twice :
    map
      (λ (c : CommandStats). c.avg_duration)
      (aggregate
        (record { timestamp = pos 1; metrics = curl }
          ∷ record { timestamp = pos 2; metrics = run_of "curl" failed (pos 7001) }
          ∷ [])
        nothing).commands
    ≡ pos 5500 ∷ []
unfolding aggregate aggregate_one count_command quot wrap64 ◌+ℤ◌ ◌*ℤ◌
curl_twice = refl
