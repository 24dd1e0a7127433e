-- ===== src/Backoff/Adaptive/Samples.antt =====
-- The buckets count the remembered outcomes.
use patience.Base.{
  ℕ, zero, suc, ◌+◌, ◌<◌, ◌≡◌, ◌==◌, refl, ℤ, pos, negsuc, pos_part, ◌<ℤ◌, leb_ℤ, eqb_ℤ, Bool, ◌⊎◌,
  List, [], ◌∷◌, length, map, count, if◌then◌else◌, arith, some, drop, ◌∙◌, ap, inr, inl, ◌-◌,
}
use patience.Backoff.Floats.{Floats}
use patience.Backoff.Adaptive.{
  new_adaptive, Adaptive, OutcomeRecord, Bucket, change_at, cleared, initialize_buckets,
  reset_bucket, learned, populate, populate_one, record_outcome, update_delay_buckets,
}
use patience.Backoff.Adaptive.Memory.{record_all, memory_window_lem}
use patience.Backoff.Adaptive.Ranges.{
  bucket_of, HasRanges, find_bucket_index-ranges, populate_one-HasRanges, cleared-HasRanges,
  bucket_of-lt, length-HasRanges,
}

abbrev pub falls_in : ℕ → OutcomeRecord → Bool
falls_in i o = eqb_ℤ (bucket_of o.delay) (pos i)

module _ (fl : Floats) where
  -- delayBuckets[i].SampleCount, 0 without such a bucket.
  unfoldable pub samples : ℕ → List (Bucket fl.Float) → ℕ
  samples i [] = 0
  samples zero (b ∷ bs) = b.sample_count
  samples (suc i) (b ∷ bs) = samples i bs

  samples-change_at :
      (i j : ℕ) (rate : fl.Float) (o : OutcomeRecord) (bs : List (Bucket fl.Float))
      → j < length bs
      → samples i (change_at j (learned fl rate o) bs) ≡ samples i bs + (if j == i then 1 else 0)
  unfolding samples
  samples-change_at i j rate o [] h = ground (arith, h)
  samples-change_at zero zero rate o (b ∷ bs) h = ground arith
  samples-change_at zero (suc j) rate o (b ∷ bs) h = ground arith
  samples-change_at (suc i) zero rate o (b ∷ bs) h = ground arith
  samples-change_at (suc i) (suc j) rate o (b ∷ bs) h =
      ground (arith, samples-change_at i j rate o bs (omega (arith, h)))

  samples-changed :
      (i : ℕ) (index : ℤ) (rate : fl.Float) (o : OutcomeRecord) (bs : List (Bucket fl.Float))
      → index <ℤ pos (length bs)
      → samples i
          (if leb_ℤ (pos 0) index then change_at (pos_part index) (learned fl rate o) bs else bs)
        ≡ samples i bs + (if eqb_ℤ index (pos i) then 1 else 0)
  samples-changed i (pos n) rate o bs h =
      ground (arith, samples-change_at i n rate o bs (omega (arith, h)))
  samples-changed i (negsuc n) rate o bs h = ground arith

  samples-populate_one :
      (i : ℕ) (rate : fl.Float) (o : OutcomeRecord) (bs : List (Bucket fl.Float))
      → HasRanges fl bs
      → samples i (populate_one fl rate o bs) ≡ samples i bs + (if falls_in i o then 1 else 0)
  unfolding populate_one
  samples-populate_one i rate o bs h = rw (find_bucket_index-ranges fl o.delay bs h) (
      samples-changed i (bucket_of o.delay) rate o bs
        (omega (arith, bucket_of-lt o.delay, length-HasRanges fl bs h)))

  samples-populate :
      (i : ℕ) (rate : fl.Float) (os : List OutcomeRecord) (bs : List (Bucket fl.Float))
      → HasRanges fl bs
      → (samples i (populate fl rate os bs) ≡ samples i bs + count (falls_in i) os)
        × HasRanges fl (populate fl rate os bs)
  unfolding populate count
  samples-populate i rate [] bs h = (omega arith, h)
  samples-populate i rate (o ∷ os) bs h =
      let (counted, ranges) =
        samples-populate i rate os (populate_one fl rate o bs)
          (populate_one-HasRanges fl rate o bs h) in
      (omega (arith, counted, samples-populate_one i rate o bs h), ranges)

  samples-reset : (i : ℕ) (bs : List (Bucket fl.Float)) → samples i (map (reset_bucket fl) bs) ≡ 0
  unfolding samples
  samples-reset i [] = refl
  samples-reset zero (b ∷ bs) = refl
  samples-reset (suc i) (b ∷ bs) = samples-reset i bs

  -- New buckets are what a reset leaves of them.
  samples-cleared : (i : ℕ) (bs : List (Bucket fl.Float)) → samples i (cleared fl bs) ≡ 0
  samples-cleared i [] = samples-reset i (initialize_buckets fl)
  samples-cleared i (b ∷ bs) = samples-reset i (b ∷ bs)

  pub record HasSamples (a : Adaptive fl.Float) : Type 0 where
    pub ranges : HasRanges fl a.delay_buckets
    pub counts : (i : ℕ) → samples i a.delay_buckets ≡ count (falls_in i) a.recent_outcomes

  record_outcome-HasSamples :
      (o : OutcomeRecord) (a : Adaptive fl.Float)
      → (a.delay_buckets ≡ []) ⊎ HasRanges fl a.delay_buckets
      → HasSamples (record_outcome fl o a)
  unfolding record_outcome update_delay_buckets
  record_outcome-HasSamples o a h =
      let ranges = cleared-HasRanges fl a.delay_buckets h in
      record {
        ranges = (samples-populate 0 a.learning_rate _ _ ranges).1;
        counts = λ i. omega (
          arith,
          (samples-populate i a.learning_rate _ _ ranges).0,
          samples-cleared i a.delay_buckets,
        );
      }

  record_all-HasSamples :
      (os : List OutcomeRecord) (a : Adaptive fl.Float)
      → HasSamples a
      → HasSamples (record_all fl os a)
  unfolding record_all
  record_all-HasSamples [] a h = h
  record_all-HasSamples (o ∷ os) a h =
      record_all-HasSamples os (record_outcome fl o a)
        (record_outcome-HasSamples o a (inr h.ranges))

  new_adaptive-buckets :
      (fallback : ℤ → ℤ) (rate : fl.Float) (w : ℕ) (a : Adaptive fl.Float)
      → new_adaptive fl (some fallback) rate (pos w) ≡ inr a
      → a.delay_buckets ≡ []
  unfolding new_adaptive
  new_adaptive-buckets fallback rate w a eq = ground (arith, eq)

  -- Once a new strategy was told outcomes, each bucket has as its sample count the number of the
  -- remembered outcomes, the newest ones of its memory window, whose delays fall into the bucket:
  -- an outcome that leaves the window is no longer counted, and none is counted twice.
  pub bucket_counts :
      (fallback : ℤ → ℤ) (rate : fl.Float) (w i : ℕ) (o : OutcomeRecord) (os : List OutcomeRecord)
      (a : Adaptive fl.Float)
      → new_adaptive fl (some fallback) rate (pos w) ≡ inr a
      → samples i (record_all fl (o ∷ os) a).delay_buckets
        ≡ count (falls_in i) (drop (length (o ∷ os) - w) (o ∷ os))
  unfolding record_all
  bucket_counts fallback rate w i o os a eq =
      let first = record_outcome-HasSamples o a (inl (new_adaptive-buckets fallback rate w a eq)) in
      (record_all-HasSamples os (record_outcome fl o a) first).counts i
      ∙ ap (count (falls_in i)) (memory_window_lem fl fallback rate w (o ∷ os) a eq).recent
