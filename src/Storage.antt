-- ===== src/Storage.antt =====
-- MetricsStorage (pkg/storage/storage.go). Each method holds the lock, so it is one step on the
-- state; every reading of the clock is an argument. The maximum size is not negative. The float
-- success rates and GetStats are left out; a run's duration is the integer that the source converts
-- its seconds to.
pub mod Retention
pub mod Recent
pub mod Aggregation
pub mod TopCommands
use patience.Base.{
  ℕ, zero, suc, ◌+◌, ◌-◌, ◌/◌, ltb, ℤ, pos, negsuc, pos_part, ◌+ℤ◌, ◌-ℤ◌, ◌*ℤ◌, ltb_ℤ, leb_ℤ,
  wrap64, saturate64, quot, String, str_eq, Bool, true, false, ◌&&◌, ◌||◌, List, [], ◌∷◌, ◌++◌,
  length, take, drop, select, eqb_ℤ, if◌then◌else◌,
}
use patience.Metrics.{RunMetrics, FinalStatus, succeeded, failed}

pub record StoredMetric : Type 0 where
  pub timestamp : ℤ
  pub metrics : RunMetrics

pub record MetricsStorage : Type 0 where
  pub metrics : List StoredMetric
  pub max_size : ℕ
  pub max_age : ℤ
  pub last_cleanup : ℤ

unfoldable pub new_metrics_storage : ℕ → ℤ → ℤ → MetricsStorage
new_metrics_storage max_size max_age now = record {
  metrics = [];
  max_size = max_size;
  max_age = max_age;
  last_cleanup = now;
}

abbrev pub five_minutes : ℤ
five_minutes = pos 300000000000

-- metric.Timestamp.After(cutoff)
abbrev pub is_after : ℤ → StoredMetric → Bool
is_after cutoff m = ltb_ℤ cutoff m.timestamp

abbrev pub cutoff_at : MetricsStorage → ℤ → ℤ
cutoff_at s now = now +ℤ wrap64 (pos 0 -ℤ s.max_age)

-- The newest `max_size` of the metrics, which stand last.
unfoldable pub within_size : ℕ → List StoredMetric → List StoredMetric
within_size max_size kept =
    if ltb max_size (length kept) then drop (length kept - max_size) kept else kept

unfoldable pub cleanup_if_needed : ℤ → MetricsStorage → MetricsStorage
unfolding within_size
cleanup_if_needed now s =
    if ltb_ℤ (saturate64 (now -ℤ s.last_cleanup)) five_minutes then s else record s {
      metrics = within_size s.max_size (select (is_after (cutoff_at s now)) s.metrics);
      last_cleanup = now;
    }

unfoldable pub appended : RunMetrics → ℤ → MetricsStorage → MetricsStorage
appended m now s = record s { metrics = s.metrics ++ record { timestamp = now; metrics = m } ∷ [] }

-- `now` is the time stamp, `later` the clock at the cleanup.
unfoldable pub store : RunMetrics → ℤ → ℤ → MetricsStorage → MetricsStorage
unfolding appended
store m now later s = cleanup_if_needed later (appended m now s)

unfoldable pub get_recent : ℤ → MetricsStorage → List StoredMetric
get_recent limit s =
    if leb_ℤ limit (pos 0) || ltb_ℤ (pos (length s.metrics)) limit
    then drop (length s.metrics - length s.metrics) s.metrics
    else drop (length s.metrics - pos_part limit) s.metrics

abbrev pub in_range : ℤ → ℤ → StoredMetric → Bool
in_range start stop m = ltb_ℤ start m.timestamp && ltb_ℤ m.timestamp stop

unfoldable pub get_by_time_range : ℤ → ℤ → MetricsStorage → List StoredMetric
get_by_time_range start stop s = select (in_range start stop) s.metrics

unfoldable pub clear : MetricsStorage → MetricsStorage
clear s = record s { metrics = [] }

pub record CommandStats : Type 0 where
  pub command : String
  pub count : ℕ
  pub avg_duration : ℤ

pub record HourlyStats : Type 0 where
  pub hour : ℤ
  pub total_runs : ℕ

-- The variables of the aggregating loop.
pub record Aggregate : Type 0 where
  pub total_runs : ℕ
  pub successful_runs : ℕ
  pub failed_runs : ℕ
  pub total_duration : ℤ
  pub total_attempts : ℕ
  pub commands : List CommandStats
  pub hours : List HourlyStats

-- `commandStats[cmdKey]`, updated or added.
unfoldable pub count_command : String → ℤ → List CommandStats → List CommandStats
count_command command duration [] =
    record { command = command; count = 1; avg_duration = duration } ∷ []
count_command command duration (c ∷ cs) =
    let rest = count_command command duration cs in
    if str_eq c.command command
    then record {
      command = c.command;
      count = c.count + 1;
      avg_duration =
          quot (wrap64 (wrap64 (c.avg_duration *ℤ pos c.count) +ℤ duration)) (c.count + 1);
    }
      ∷ cs
    else c ∷ rest

-- stored.Timestamp.Truncate(time.Hour), as the number of the hour.
unfoldable pub hour_of : ℤ → ℤ
hour_of (pos n) = pos (n / 3600000000000)
hour_of (negsuc n) = negsuc (n / 3600000000000)

unfoldable pub count_hour : ℤ → List HourlyStats → List HourlyStats
count_hour hour [] = record { hour = hour; total_runs = 1 } ∷ []
count_hour hour (h ∷ hs) =
    let rest = count_hour hour hs in
    if eqb_ℤ h.hour hour
    then record { hour = h.hour; total_runs = h.total_runs + 1 } ∷ hs
    else h ∷ rest

abbrev pub has_succeeded : RunMetrics → Bool
has_succeeded m = elim m.final_status [ succeeded ↦ true | failed ↦ false ]

unfoldable pub aggregate_one : StoredMetric → Aggregate → Aggregate
aggregate_one stored a = record {
  total_runs = a.total_runs + 1;
  successful_runs =
      if has_succeeded stored.metrics then a.successful_runs + 1 else a.successful_runs;
  failed_runs = if has_succeeded stored.metrics then a.failed_runs else a.failed_runs + 1;
  total_duration = wrap64 (a.total_duration +ℤ stored.metrics.total_duration);
  total_attempts = a.total_attempts + length stored.metrics.attempts;
  commands = count_command stored.metrics.command stored.metrics.total_duration a.commands;
  hours = count_hour (hour_of stored.timestamp) a.hours;
}

unfoldable pub aggregate : List StoredMetric → Aggregate → Aggregate
aggregate [] a = a
aggregate (m ∷ ms) a = aggregate ms (aggregate_one m a)

abbrev pub nothing : Aggregate
nothing = record {
  total_runs = 0;
  successful_runs = 0;
  failed_runs = 0;
  total_duration = pos 0;
  total_attempts = 0;
  commands = [];
  hours = [];
}

-- sort.Slice by the number of runs, most first. The order of equal numbers is open in the source.
unfoldable pub insert_command : CommandStats → List CommandStats → List CommandStats
insert_command c [] = c ∷ []
insert_command c (d ∷ ds) =
    let rest = insert_command c ds in if ltb c.count d.count then d ∷ rest else c ∷ d ∷ ds

unfoldable pub sort_commands : List CommandStats → List CommandStats
sort_commands [] = []
sort_commands (c ∷ cs) = insert_command c (sort_commands cs)

unfoldable pub sort_command_stats : List CommandStats → List CommandStats
sort_command_stats stats =
    if ltb 10 (length (sort_commands stats))
    then take 10 (sort_commands stats)
    else sort_commands stats

pub record AggregatedStats : Type 0 where
  pub total_runs : ℕ
  pub successful_runs : ℕ
  pub failed_runs : ℕ
  pub average_duration : ℤ
  pub top_commands : List CommandStats
  pub hourly_breakdown : List HourlyStats

unfoldable pub aggregated : Aggregate → AggregatedStats
aggregated a = record {
  total_runs = a.total_runs;
  successful_runs = a.successful_runs;
  failed_runs = a.failed_runs;
  average_duration = if ltb 0 a.total_runs then quot a.total_duration a.total_runs else pos 0;
  top_commands = sort_command_stats a.commands;
  hourly_breakdown = a.hours;
}

unfoldable pub get_aggregated_stats : ℤ → ℤ → MetricsStorage → AggregatedStats
get_aggregated_stats start stop s = aggregated (aggregate (get_by_time_range start stop s) nothing)
