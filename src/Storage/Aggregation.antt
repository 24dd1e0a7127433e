-- ===== src/Storage/Aggregation.antt =====
-- The statistics of a time range against the stored runs they summarise.
use patience.Base.{
  ℕ, ◌+◌, ◌≡◌, ap, ℤ, Bool, true, false, Bool-cases, inl, inr, List, [], ◌∷◌, length, count, String,
  str_eq, str_eq_iff, if◌then◌else◌, arith, refl,
}
use patience.Storage.{
  sort_command_stats, MetricsStorage, StoredMetric, Aggregate, AggregatedStats, CommandStats,
  aggregate, aggregate_one, has_succeeded, nothing, aggregated, get_aggregated_stats,
  get_by_time_range, count_command,
}

abbrev pub run_succeeded : StoredMetric → Bool
run_succeeded m = has_succeeded m.metrics

-- What the loop adds to the counts it starts from.
record Counts (ms : List StoredMetric) (a b : Aggregate) : Type 0 where
  total : b.total_runs ≡ a.total_runs + length ms
  successful : b.successful_runs ≡ a.successful_runs + count run_succeeded ms
  sum : b.successful_runs + b.failed_runs ≡ a.successful_runs + a.failed_runs + length ms

aggregate-Counts : (ms : List StoredMetric) (a : Aggregate) → Counts ms a (aggregate ms a)
unfolding aggregate count aggregate_one
aggregate-Counts [] a = record { total = omega arith; successful = omega arith; sum = omega arith }
aggregate-Counts (m ∷ ms) a =
    let rest = aggregate-Counts ms (aggregate_one m a) in
    record {
      total = omega (arith, rest.total);
      successful = ground (arith, rest.successful);
      sum = ground (arith, rest.sum);
    }

-- The count that a table has for a command, 0 without an entry.
unfoldable pub count_of : String → List CommandStats → ℕ
count_of command [] = 0
count_of command (c ∷ cs) =
    let rest = count_of command cs in if str_eq c.command command then c.count else rest

-- The entries of a table have different commands.
unfoldable pub lists : String → List CommandStats → Bool
lists command [] = false
lists command (c ∷ cs) =
    let rest = lists command cs in if str_eq c.command command then true else rest

abbrev pub is_run_of : String → StoredMetric → Bool
is_run_of command m = str_eq m.metrics.command command

count_of-count_command :
    (command other : String) (duration : ℤ) (cs : List CommandStats)
    → count_of command (count_command other duration cs)
      ≡ count_of command cs + (if str_eq other command then 1 else 0)
unfolding count_of count_command
count_of-count_command command other duration [] = ground arith
count_of-count_command command other duration (c ∷ cs) =
    elim (Bool-cases (str_eq c.command other)) [
      | inl e ↦ rw e (
          let same : str_eq c.command command ≡ str_eq other command =
            ap (λ x. str_eq x command) ((str_eq_iff c.command other).0 e) in
          ground (arith, same))
      | inr e ↦ rw e (
          ground (
            arith,
            e,
            count_of-count_command command other duration cs,
            str_eq_iff c.command command,
            str_eq_iff other command,
            str_eq_iff c.command other,
          ))
    ]

count_of-aggregate :
    (command : String) (ms : List StoredMetric) (a : Aggregate)
    → count_of command (aggregate ms a).commands
      ≡ count_of command a.commands + count (is_run_of command) ms
unfolding aggregate count aggregate_one
count_of-aggregate command [] a = omega arith
count_of-aggregate command (m ∷ ms) a = omega (
  arith,
  count_of-aggregate command ms (aggregate_one m a),
  count_of-count_command command m.metrics.command m.metrics.total_duration a.commands,
)

-- Statistics that summarise the runs of a list, with the table of commands that they are made from.
pub record Summarises (ms : List StoredMetric) (table : List CommandStats) (stats : AggregatedStats)
    : Type 0 where
  pub total : stats.total_runs ≡ length ms
  pub successful : stats.successful_runs ≡ count run_succeeded ms
  pub failed : stats.successful_runs + stats.failed_runs ≡ stats.total_runs
  pub commands : (command : String) → count_of command table ≡ count (is_run_of command) ms
  pub top : stats.top_commands ≡ sort_command_stats table

-- For every time range, the statistics count each run stored in the range once: their total is the
-- number of these runs, their successes are the runs that ended in success, and successes and
-- failures add up to the total. The table whose top commands they show has for every command the
-- number of the runs in the range that ran it.
pub get_aggregated_stats-Summarises :
    (start stop : ℤ) (s : MetricsStorage)
    → Summarises
        (get_by_time_range start stop s)
        (aggregate (get_by_time_range start stop s) nothing).commands
        (get_aggregated_stats start stop s)
unfolding get_aggregated_stats aggregated count_of
get_aggregated_stats-Summarises start stop s =
    let c = aggregate-Counts (get_by_time_range start stop s) nothing in
    record {
      total = omega (arith, c.total);
      successful = omega (arith, c.successful);
      failed = omega (arith, c.sum, c.total);
      commands = λ command.
          omega (arith, count_of-aggregate command (get_by_time_range start stop s) nothing);
      top = refl;
    }
