-- ===== src/Backoff/Tracker/Tallies.antt =====
-- The tracker's counters against the attempts that it was told, and its choice of a strategy.
use patience.Base.{
  ℕ, ◌+◌, ◌≡◌, ℤ, Bool, ◌&&◌, Option, none, some, List, [], ◌∷◌, count, String, str_eq, str_eq_iff,
  if◌then◌else◌, arith, pos, refl,
}
use patience.Backoff.Best.{IsOrder, IsBest, best_by-IsBest}
use patience.Backoff.Floats.{Floats}
use patience.Backoff.Tracker.{
  get_best_strategy, has_three, rate_in, StrategyMetrics, Table, recorded, record_attempt,
  get_metrics,
}

pub record Attempt : Type 0 where
  pub strategy : String
  pub success : Bool
  pub delay : ℤ

abbrev pub is_of : String → Attempt → Bool
is_of strategy a = str_eq a.strategy strategy

abbrev pub is_success_of : String → Attempt → Bool
is_success_of strategy a = str_eq a.strategy strategy && a.success

module _ (fl : Floats) where
  unfoldable pub record_attempts : List Attempt → Table fl → Table fl
  record_attempts [] table = table
  record_attempts (a ∷ as') table =
      record_attempts as' (record_attempt fl a.strategy a.success a.delay table)

  abbrev pub attempts_of : Option (StrategyMetrics fl) → ℕ
  attempts_of none = 0
  attempts_of (some m) = m.total_attempts

  abbrev pub successes_of : Option (StrategyMetrics fl) → ℕ
  successes_of none = 0
  successes_of (some m) = m.successful_retries

  -- What the metrics of a strategy grow by.
  record Grows (strategy : String) (a : Attempt) (before after : Table fl) : Type 0 where
    attempts :
        attempts_of (get_metrics fl strategy after)
        ≡ attempts_of (get_metrics fl strategy before) + (if is_of strategy a then 1 else 0)
    successes :
        successes_of (get_metrics fl strategy after)
        ≡ successes_of (get_metrics fl strategy before)
          + (if is_success_of strategy a then 1 else 0)

  record_attempt-Grows :
      (strategy : String) (a : Attempt) (table : Table fl)
      → Grows strategy a table (record_attempt fl a.strategy a.success a.delay table)
  unfolding record_attempt get_metrics recorded
  record_attempt-Grows strategy a [] = record { attempts = ground arith; successes = ground arith }
  record_attempt-Grows strategy a (e ∷ table) =
      let ih = record_attempt-Grows strategy a table in
      let hits = str_eq_iff e.0 a.strategy in
      let mine = str_eq_iff e.0 strategy in
      let asked = str_eq_iff a.strategy strategy in
      record {
        attempts = ground (arith, ih.attempts, hits, mine, asked);
        successes = ground (arith, ih.successes, hits, mine, asked);
      }

  -- The metrics of a strategy count its attempts and, among them, its successes.
  pub record Tallies (strategy : String) (history : List Attempt) (table : Table fl) : Type 0 where
    pub attempts : attempts_of (get_metrics fl strategy table) ≡ count (is_of strategy) history
    pub successes :
        successes_of (get_metrics fl strategy table) ≡ count (is_success_of strategy) history

  record_attempts-grow :
      (strategy : String) (history : List Attempt) (table : Table fl)
      → (attempts_of (get_metrics fl strategy (record_attempts history table))
          ≡ attempts_of (get_metrics fl strategy table) + count (is_of strategy) history)
        × (successes_of (get_metrics fl strategy (record_attempts history table))
            ≡ successes_of (get_metrics fl strategy table) + count (is_success_of strategy) history)
  unfolding record_attempts count
  record_attempts-grow strategy [] table = omega arith
  record_attempts-grow strategy (a ∷ as') table =
      let grown = record_attempt-Grows strategy a table in
      let rest =
        record_attempts-grow strategy as' (record_attempt fl a.strategy a.success a.delay table) in
      omega (arith, grown.attempts, grown.successes, rest.0, rest.1)

  -- Whatever attempts an empty tracker was told, in whatever order the strategies alternate, the
  -- metrics of every strategy count its own attempts and its own successes; a strategy without
  -- attempts has no metrics or counts of zero.
  pub record_attempts-Tallies :
      (strategy : String) (history : List Attempt)
      → Tallies strategy history (record_attempts history [])
  unfolding get_metrics
  record_attempts-Tallies strategy history =
      let (attempts, successes) = record_attempts-grow strategy history [] in
      record { attempts = omega (arith, attempts); successes = omega (arith, successes) }

  -- The best strategy is one of the tracked strategies that has at least three attempts, and no
  -- tracked strategy with at least three attempts has a higher rate, in whatever order the map is
  -- visited; there is none only if no strategy with three attempts has a rate above 0. (The order of
  -- the floats is transitive and has no float below itself.)
  pub get_best_strategy-IsBest :
      (visited : Table fl)
      → IsOrder fl
      → IsBest fl
          (has_three fl)
          (rate_in fl)
          (fl.of_int (pos 0))
          (fl.of_int (pos 0))
          none
          visited
          (get_best_strategy fl visited)
  unfolding get_best_strategy
  get_best_strategy-IsBest visited order =
      best_by-IsBest fl (has_three fl) (rate_in fl) order (fl.of_int (pos 0)) (fl.of_int (pos 0))
        none visited refl
