-- ===== src/Backoff/Adaptive.antt =====
-- The adaptive strategy (pkg/backoff/adaptive.go): a window of outcomes, counted in buckets of
-- delays. Float arithmetic is an argument. A method holds the lock, so it is one step on the state.
pub mod Memory
pub mod Ranges
pub mod Samples
use patience.Base.{
  ℕ, zero, suc, ◌+◌, ◌-◌, ◌*◌, ltb, leb, ℤ, pos, negsuc, pos_part, ◌+ℤ◌, ◌-ℤ◌, ltb_ℤ, leb_ℤ, wrap64,
  quot, Bool, true, false, ◌&&◌, ◌||◌, Option, none, some, ◌⊎◌, inl, inr, List, [], ◌∷◌, ◌++◌, map,
  length, drop, if◌then◌else◌,
}
use patience.Backoff.Best.{best_by}
use patience.Backoff.Floats.{Floats}

pub record Bucket (F : Type 0) : Type 0 where
  pub min_delay : ℤ
  pub max_delay : ℤ
  pub success_rate : F
  pub sample_count : ℕ
  pub total_latency : ℤ

pub record OutcomeRecord : Type 0 where
  pub delay : ℤ
  pub success : Bool
  pub latency : ℤ

-- `fallback` gives the fallback strategy's delays, and stands for them while a call runs;
-- delayBuckets[i] is the i-th bucket.
pub record Adaptive (F : Type 0) : Type 0 where
  pub fallback : ℤ → ℤ
  pub learning_rate : F
  pub memory_window : ℤ
  pub delay_buckets : List (Bucket F)
  pub recent_outcomes : List OutcomeRecord
  pub total_outcomes : ℕ

pub data AdaptiveError : Type 0 where
  nil_fallback rate_out_of_range window_out_of_range : AdaptiveError

abbrev pub seconds : ℕ → ℤ
seconds n = pos (n * 1000000000)

abbrev pub bucket_ranges : List (ℤ × ℤ)
bucket_ranges =
    (pos 0, seconds 1)
    ∷ (seconds 1, seconds 2)
    ∷ (seconds 2, seconds 5)
    ∷ (seconds 5, seconds 10)
    ∷ (seconds 10, seconds 30)
    ∷ (seconds 30, seconds 60)
    ∷ (seconds 60, seconds 300)
    ∷ []

-- `delay >= bucket.MinDelay && delay < bucket.MaxDelay`
abbrev pub covers : ℤ → ℤ → ℤ → Bool
covers low high delay = leb_ℤ low delay && ltb_ℤ delay high

abbrev pub change_at : {A : Type 0} → ℕ → (A → A) → List A → List A
change_at n f [] = []
change_at zero f (x ∷ xs) = f x ∷ xs
change_at (suc n) f (x ∷ xs) = x ∷ change_at n f xs

-- The index that was found, or the largest one for a delay beyond all buckets, or -1.
unfoldable pub or_largest : ℤ → ℕ → Option ℕ → ℤ
or_largest delay buckets (some index) = pos index
or_largest delay buckets none = if leb_ℤ (seconds 300) delay then pos buckets -ℤ pos 1 else negsuc 0

module _ (fl : Floats) where
  abbrev pub literal : ℕ → fl.Float
  literal n = fl.of_int (pos n)

  unfoldable pub new_adaptive : Option (ℤ → ℤ) → fl.Float → ℤ → AdaptiveError ⊎ Adaptive fl.Float
  new_adaptive none learning_rate memory_window = inl nil_fallback
  new_adaptive (some fallback) learning_rate memory_window =
      if fl.le learning_rate (literal 0) || fl.less (literal 1) learning_rate
      then inl rate_out_of_range
      else if leb_ℤ memory_window (pos 0) || ltb_ℤ (pos 10000) memory_window
      then inl window_out_of_range
      else inr record {
        fallback = fallback;
        learning_rate = learning_rate;
        memory_window = memory_window;
        delay_buckets = [];
        recent_outcomes = [];
        total_outcomes = 0;
      }

  abbrev pub empty_bucket : ℤ × ℤ → Bucket fl.Float
  empty_bucket r = record {
    min_delay = r.0;
    max_delay = r.1;
    success_rate = literal 0;
    sample_count = 0;
    total_latency = pos 0;
  }

  abbrev pub initialize_buckets : List (Bucket fl.Float)
  initialize_buckets = map empty_bucket bucket_ranges

  abbrev pub reset_bucket : Bucket fl.Float → Bucket fl.Float
  reset_bucket b = record b { success_rate = literal 0; sample_count = 0; total_latency = pos 0 }

  -- The bucket that covers a delay, from index n on. No two buckets cover the same delay, so it does
  -- not matter in which order the map is visited.
  unfoldable pub covering_index : ℕ → ℤ → List (Bucket fl.Float) → Option ℕ
  covering_index n delay [] = none
  covering_index n delay (b ∷ bs) =
      let rest = covering_index (suc n) delay bs in
      if covers b.min_delay b.max_delay delay then some n else rest

  unfoldable pub find_bucket_index : ℤ → List (Bucket fl.Float) → ℤ
  find_bucket_index delay bs = or_largest delay (length bs) (covering_index 0 delay bs)

  abbrev pub learned : fl.Float → OutcomeRecord → Bucket fl.Float → Bucket fl.Float
  learned rate o b = record b {
    sample_count = b.sample_count + 1;
    total_latency = wrap64 (b.total_latency +ℤ o.latency);
    success_rate =
        fl.add (fl.mul (fl.sub (literal 1) rate) b.success_rate)
          (fl.mul rate (if o.success then literal 1 else literal 0));
  }

  unfoldable pub populate_one :
      fl.Float → OutcomeRecord → List (Bucket fl.Float) → List (Bucket fl.Float)
  populate_one rate o bs =
      if leb_ℤ (pos 0) (find_bucket_index o.delay bs)
      then change_at (pos_part (find_bucket_index o.delay bs)) (learned rate o) bs
      else bs

  unfoldable pub populate :
      fl.Float → List OutcomeRecord → List (Bucket fl.Float) → List (Bucket fl.Float)
  populate rate [] bs = bs
  populate rate (o ∷ os) bs = populate rate os (populate_one rate o bs)

  abbrev pub cleared : List (Bucket fl.Float) → List (Bucket fl.Float)
  cleared [] = initialize_buckets
  cleared (b ∷ bs) = map reset_bucket (b ∷ bs)

  unfoldable pub update_delay_buckets : Adaptive fl.Float → Adaptive fl.Float
  update_delay_buckets a = record a {
    delay_buckets = populate a.learning_rate a.recent_outcomes (cleared a.delay_buckets);
  }

  -- The outcomes that stay when another one comes.
  abbrev pub kept : Adaptive fl.Float → List OutcomeRecord
  kept a =
      if leb_ℤ a.memory_window (pos (length a.recent_outcomes))
      then drop 1 a.recent_outcomes
      else a.recent_outcomes

  unfoldable pub record_outcome : OutcomeRecord → Adaptive fl.Float → Adaptive fl.Float
  record_outcome o a =
      update_delay_buckets
        record a { recent_outcomes = kept a ++ o ∷ []; total_outcomes = a.total_outcomes + 1 }

  -- `visited` is the buckets of the state in the order in which range visits the map.
  abbrev pub best_bucket : List (Bucket fl.Float) → Option (Bucket fl.Float)
  best_bucket visited =
      best_by fl (λ b. leb 2 b.sample_count) (λ b. b.success_rate) (fl.of_int (negsuc 0)) none
        visited

  abbrev pub blend_delays : Adaptive fl.Float → ℤ → ℤ → ℤ
  blend_delays a optimal fallback = fl.to_int (
      fl.add (fl.mul (fl.of_int optimal) a.learning_rate)
        (fl.mul (fl.of_int fallback) (fl.sub (literal 1) a.learning_rate)))

  unfoldable pub calculate_optimal_delay : List (Bucket fl.Float) → ℤ → Adaptive fl.Float → ℤ
  calculate_optimal_delay visited attempt a = elim (best_bucket visited) [
    | none ↦ pos 0
    | some b ↦
        blend_delays a (wrap64 (b.min_delay +ℤ quot (wrap64 (b.max_delay -ℤ b.min_delay)) 2))
          (a.fallback attempt)
  ]

  unfoldable pub adaptive_delay : List (Bucket fl.Float) → ℤ → Adaptive fl.Float → ℤ
  adaptive_delay visited attempt a =
      if leb_ℤ attempt (pos 0)
      then a.fallback attempt
      else if ltb a.total_outcomes 3
      then a.fallback attempt
      else if ltb_ℤ (pos 0) (calculate_optimal_delay visited attempt a)
      then calculate_optimal_delay visited attempt a
      else a.fallback attempt
