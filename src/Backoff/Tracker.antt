-- ===== src/Backoff/Tracker.antt =====
-- EffectivenessTracker (pkg/backoff/effectiveness_tracker.go). Its counters are int64s that count
-- attempts, kept as natural numbers; the time of the last update is left out.
pub mod Tallies
use patience.Base.{
  ℕ, ◌+◌, ◌-◌, leb, ◌==◌, ℤ, pos, ◌+ℤ◌, ◌*ℤ◌, wrap64, quot, Bool, ◌&&◌, Option, none, some, List,
  [], ◌∷◌, length, String, str_eq, if◌then◌else◌,
}
use patience.Backoff.Best.{best_by}
use patience.Backoff.Floats.{Floats}

module _ (fl : Floats) where
  pub record StrategyMetrics : Type 0 where
    pub total_attempts : ℕ
    pub successful_retries : ℕ
    pub average_delay : ℤ
    pub success_rate : fl.Float

  -- strategyMetrics, by strategy.
  abbrev pub Table : Type 0
  Table = List (String × StrategyMetrics)

  abbrev pub zero_metrics : StrategyMetrics
  zero_metrics = record {
    total_attempts = 0;
    successful_retries = 0;
    average_delay = pos 0;
    success_rate = fl.of_int (pos 0);
  }

  unfoldable pub recorded : Bool → ℤ → StrategyMetrics → StrategyMetrics
  recorded success delay m =
      let total = m.total_attempts + 1 in
      let successful = if success then m.successful_retries + 1 else m.successful_retries in
      record {
        total_attempts = total;
        successful_retries = successful;
        average_delay =
            if total == 1
            then delay
            else quot (wrap64 (wrap64 (m.average_delay *ℤ pos (total - 1)) +ℤ delay)) total;
        success_rate = fl.div (fl.of_int (pos successful)) (fl.of_int (pos total));
      }

  unfoldable pub record_attempt : String → Bool → ℤ → Table → Table
  record_attempt strategy success delay [] = (strategy, recorded success delay zero_metrics) ∷ []
  record_attempt strategy success delay (e ∷ table) =
      let rest = record_attempt strategy success delay table in
      if str_eq e.0 strategy then (e.0, recorded success delay e.1) ∷ table else e ∷ rest

  unfoldable pub get_metrics : String → Table → Option StrategyMetrics
  get_metrics strategy [] = none
  get_metrics strategy (e ∷ table) =
      let rest = get_metrics strategy table in if str_eq e.0 strategy then some e.1 else rest

  abbrev pub has_three : String × StrategyMetrics → Bool
  has_three e = leb 3 e.1.total_attempts

  abbrev pub rate_in : String × StrategyMetrics → fl.Float
  rate_in e = e.1.success_rate

  -- `visited` is the table in the order in which range visits the map.
  unfoldable pub get_best_strategy : Table → Option (String × StrategyMetrics)
  get_best_strategy visited = best_by fl has_three rate_in (fl.of_int (pos 0)) none visited

  abbrev pub get_strategy_count : Table → ℕ
  get_strategy_count = length
