-- ===== src/Examples/LearningRuns.antt =====
-- The adaptive strategy, the tracker and the polynomial strategy at concrete inputs.
use patience.Base.{
  ℕ, ◌-◌, ◌*◌, ◌≡◌, ◌≤ℤ◌, ◌<ℤ◌, ◌↔◌, refl, ℤ, pos, Bool, true, false, none, some, inr, List, [],
  ◌∷◌, length, drop, count, arith,
}
use patience.Examples.Thousandths.{thousandths}
use patience.Backoff.Best.{IsOrder, IsBest}
use patience.Backoff.Adaptive.{
  Adaptive, OutcomeRecord, new_adaptive, initialize_buckets, find_bucket_index,
}
use patience.Backoff.Adaptive.Memory.{record_all}
use patience.Backoff.Adaptive.Ranges.{find_bucket_index_iff}
use patience.Backoff.Adaptive.Samples.{samples, falls_in, bucket_counts}
use patience.Backoff.Polynomial.{Polynomial, new_polynomial, polynomial_delay}
use patience.Backoff.Tracker.{StrategyMetrics, get_best_strategy, has_three, rate_in}
use patience.Backoff.Tracker.Tallies.{
  Attempt, Tallies, record_attempts, record_attempts-Tallies, get_best_strategy-IsBest,
}

abbrev one_second : ℤ → ℤ
one_second _ = pos 1000000000

-- Two outcomes are remembered.
abbrev learner : Adaptive ℕ
learner = record {
  fallback = one_second;
  learning_rate = 500;
  memory_window = pos 2;
  delay_buckets = [];
  recent_outcomes = [];
  total_outcomes = 0;
}

learner_new : new_adaptive thousandths (some one_second) 500 (pos 2) ≡ inr learner
unfolding new_adaptive
learner_new = refl

abbrev outcome : ℕ → Bool → OutcomeRecord
outcome n success = record { delay = pos (n * 1000000000); success = success; latency = pos 5 }

bucket_counts_example :
    samples thousandths 2
      (record_all thousandths
        (outcome 0 true ∷ outcome 3 true ∷ outcome 4 false ∷ [])
        learner).delay_buckets
    ≡ count (falls_in 2) (
        drop
          (length (outcome 0 true ∷ outcome 3 true ∷ outcome 4 false ∷ []) - 2)
          (outcome 0 true ∷ outcome 3 true ∷ outcome 4 false ∷ []))
bucket_counts_example =
    bucket_counts thousandths one_second 500 2 2 (outcome 0 true)
      (outcome 3 true ∷ outcome 4 false ∷ []) learner learner_new

find_bucket_index_iff_example :
    ((pos 0 ≤ℤ pos 3000000000)
      ↔ (pos 0 ≤ℤ find_bucket_index thousandths (pos 3000000000) (initialize_buckets thousandths)))
    × (find_bucket_index thousandths (pos 3000000000) (initialize_buckets thousandths) <ℤ pos 7)
find_bucket_index_iff_example =
    find_bucket_index_iff thousandths (pos 3000000000) (initialize_buckets thousandths) refl

abbrev squares : Polynomial thousandths
squares = record { base_delay = pos 10; exponent = 2000; max_delay = pos 60 }

squares_new : new_polynomial thousandths (pos 10) 2000 (pos 60) ≡ inr squares
unfolding new_polynomial
squares_new = refl

squares_grow : polynomial_delay thousandths squares (pos 2) ≡ pos 40
unfolding polynomial_delay
squares_grow = refl

abbrev three_attempts : List Attempt
three_attempts =
    record { strategy = "linear"; success = true; delay = pos 5 }
    ∷ record { strategy = "fixed"; success = false; delay = pos 7 }
    ∷ record { strategy = "linear"; success = false; delay = pos 6 }
    ∷ []

record_attempts-Tallies_example :
    Tallies thousandths "linear" three_attempts (record_attempts thousandths three_attempts [])
record_attempts-Tallies_example = record_attempts-Tallies thousandths "linear" three_attempts

thousandths-IsOrder : IsOrder thousandths
thousandths-IsOrder = record {
  irreflexive = λ x. ground arith;
  transitive = λ x y z h k. ground arith;
}

abbrev tracked : ℕ → ℕ → StrategyMetrics thousandths
tracked total rate = record {
  total_attempts = total;
  successful_retries = 1;
  average_delay = pos 5;
  success_rate = rate;
}

get_best_strategy-IsBest_example :
    IsBest thousandths
      (has_three thousandths)
      (rate_in thousandths)
      0
      0
      none
      (("linear", tracked 3 500) ∷ ("fixed", tracked 2 900) ∷ [])
      (get_best_strategy thousandths (("linear", tracked 3 500) ∷ ("fixed", tracked 2 900) ∷ []))
get_best_strategy-IsBest_example =
    get_best_strategy-IsBest thousandths (("linear", tracked 3 500) ∷ ("fixed", tracked 2 900) ∷ [])
      thousandths-IsOrder
