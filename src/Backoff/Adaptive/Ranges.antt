-- ===== src/Backoff/Adaptive/Ranges.antt =====
-- The bucket of a delay depends on the ranges of the buckets alone.
use patience.Base.{
  ℕ, zero, suc, ◌≡◌, ◌↔◌, refl, ap, sym, ◌∙◌, ℤ, pos, ◌≤ℤ◌, ◌<ℤ◌, ◌-ℤ◌, leb_ℤ, Bool-cases, Option,
  none, some, inl, inr, ◌⊎◌, List, [], ◌∷◌, length, map, if◌then◌else◌, arith,
}
use patience.Backoff.Floats.{Floats}
use patience.Backoff.Adaptive.{
  OutcomeRecord, Bucket, covers, bucket_ranges, covering_index, find_bucket_index, change_at,
  cleared, or_largest, reset_bucket, populate_one,
}

-- The first range from index n on that covers a delay.
unfoldable pub covering_range : ℕ → ℤ → List (ℤ × ℤ) → Option ℕ
covering_range n delay [] = none
covering_range n delay (r ∷ rs) =
    let rest = covering_range (suc n) delay rs in if covers r.0 r.1 delay then some n else rest

-- The index of the bucket of a delay, among the seven ranges.
unfoldable pub bucket_of : ℤ → ℤ
bucket_of delay = or_largest delay 7 (covering_range 0 delay bucket_ranges)

bucket_of_iff : (delay : ℤ) → (pos 0 ≤ℤ delay) ↔ (pos 0 ≤ℤ bucket_of delay)
unfolding bucket_of covering_range or_largest ◌-ℤ◌
bucket_of_iff delay = ground arith

pub bucket_of-lt : (delay : ℤ) → bucket_of delay <ℤ pos 7
unfolding bucket_of covering_range or_largest ◌-ℤ◌
bucket_of-lt delay = ground arith

module _ (fl : Floats) where
  abbrev pub range_of : Bucket fl.Float → ℤ × ℤ
  range_of b = (b.min_delay, b.max_delay)

  covering_index-ranges :
      (n : ℕ) (delay : ℤ) (bs : List (Bucket fl.Float))
      → covering_index fl n delay bs ≡ covering_range n delay (map range_of bs)
  unfolding covering_index covering_range
  covering_index-ranges n delay [] = refl
  covering_index-ranges n delay (b ∷ bs) =
      ap (λ rest. if covers b.min_delay b.max_delay delay then some n else rest)
        (covering_index-ranges (suc n) delay bs)

  length-ranges : (bs : List (Bucket fl.Float)) → length (map range_of bs) ≡ length bs
  length-ranges [] = refl
  length-ranges (b ∷ bs) = ap suc (length-ranges bs)

  abbrev pub HasRanges : List (Bucket fl.Float) → Type 0
  HasRanges bs = map range_of bs ≡ bucket_ranges

  pub length-HasRanges : (bs : List (Bucket fl.Float)) → HasRanges bs → length bs ≡ 7
  length-HasRanges bs h = sym (length-ranges bs) ∙ ap length h

  pub find_bucket_index-ranges :
      (delay : ℤ) (bs : List (Bucket fl.Float))
      → HasRanges bs
      → find_bucket_index fl delay bs ≡ bucket_of delay
  unfolding find_bucket_index bucket_of
  find_bucket_index-ranges delay bs h =
      let same = covering_index-ranges 0 delay bs ∙ ap (covering_range 0 delay) h in
      ap (or_largest delay (length bs)) same
      ∙ ap (λ n. or_largest delay n (covering_range 0 delay bucket_ranges)) (length-HasRanges bs h)

  -- With the seven ranges that the code sets up, a delay has a bucket exactly if it is not negative,
  -- and its index is one of the seven.
  pub find_bucket_index_iff :
      (delay : ℤ) (bs : List (Bucket fl.Float))
      → HasRanges bs
      → ((pos 0 ≤ℤ delay) ↔ (pos 0 ≤ℤ find_bucket_index fl delay bs))
        × (find_bucket_index fl delay bs <ℤ pos 7)
  find_bucket_index_iff delay bs h =
      rw (find_bucket_index-ranges delay bs h) (bucket_of_iff delay, bucket_of-lt delay)

  ranges-change_at :
      (n : ℕ) (f : Bucket fl.Float → Bucket fl.Float) (bs : List (Bucket fl.Float))
      → ((b : Bucket fl.Float) → range_of (f b) ≡ range_of b)
      → map range_of (change_at n f bs) ≡ map range_of bs
  ranges-change_at n f [] h = refl
  ranges-change_at zero f (b ∷ bs) h = ap (λ r. r ∷ map range_of bs) (h b)
  ranges-change_at (suc n) f (b ∷ bs) h = ap (λ rs. range_of b ∷ rs) (ranges-change_at n f bs h)

  pub populate_one-HasRanges :
      (rate : fl.Float) (o : OutcomeRecord) (bs : List (Bucket fl.Float))
      → HasRanges bs
      → HasRanges (populate_one fl rate o bs)
  unfolding populate_one
  populate_one-HasRanges rate o bs h =
      elim (Bool-cases (leb_ℤ (pos 0) (find_bucket_index fl o.delay bs))) [
        | inl e ↦ rw e (ranges-change_at _ _ bs (λ b. refl) ∙ h)
        | inr e ↦ rw e h
      ]

  ranges-reset :
      (bs : List (Bucket fl.Float)) → map range_of (map (reset_bucket fl) bs) ≡ map range_of bs
  ranges-reset [] = refl
  ranges-reset (b ∷ bs) = ap (λ rs. range_of b ∷ rs) (ranges-reset bs)

  pub cleared-HasRanges :
      (bs : List (Bucket fl.Float)) → (bs ≡ []) ⊎ HasRanges bs → HasRanges (cleared fl bs)
  cleared-HasRanges [] h = refl
  cleared-HasRanges (b ∷ bs) (inr h) = ranges-reset (b ∷ bs) ∙ h
  cleared-HasRanges (b ∷ bs) (inl h) = ground (arith, h)
