-- ===== src/Storage/Retention.antt =====
-- What a store keeps: the cleanup's limits, and how far the storage grows between two cleanups.
use patience.Base.{
  refl, ◌++◌, map, sym, ◌∙◌, append-nil, append_assoc, ℕ, ◌-◌, ◌≤◌, ◌≡◌, ltb, ℤ, ◌-ℤ◌, ltb_ℤ,
  saturate64, true, false, Bool-cases, inl, inr, List, [], ◌∷◌, length, All, length-drop, arith, ap,
  wrap64, wrap64_self, -ℤ_parts, ◌<ℤ◌, ◌≤ℤ◌, ◌+ℤ◌, select, ◌⊎◌, pos, ◌^◌, ltb_ℤ→lt, ltb_ℤ→ge, take,
  take-drop, ltb→lt, ltb→ge, +ℤ_parts, negsuc,
}
use patience.Metrics.{RunMetrics}
use mathlib.Core.Path.{subst}
use patience.Storage.{
  MetricsStorage, StoredMetric, store, appended, cleanup_if_needed, within_size, cutoff_at,
  is_after, five_minutes,
}

length-within_size : (n : ℕ) (ms : List StoredMetric) → length (within_size n ms) ≤ n
unfolding within_size
length-within_size n ms = ground (arith, length-drop (length ms - n) ms)

-- What is left of a list of metrics when those of the maximum age or older are taken out, and no others.
pub data IsYoung (now max_age : ℤ) : List StoredMetric → List StoredMetric → Type 0 where
  no_more : IsYoung now max_age [] []
  young :
      {m : StoredMetric} {ms kept : List StoredMetric}
      → now -ℤ m.timestamp <ℤ max_age
      → IsYoung now max_age ms kept
      → IsYoung now max_age (m ∷ ms) (m ∷ kept)
  old :
      {m : StoredMetric} {ms kept : List StoredMetric}
      → max_age ≤ℤ now -ℤ m.timestamp
      → IsYoung now max_age ms kept
      → IsYoung now max_age (m ∷ ms) kept

-- The metrics kept are the last ones of those that are young enough: all of them if they are within the
-- maximum size, else as many as that.
pub record Retains (now max_age : ℤ) (max_size : ℕ) (all kept : List StoredMetric) : Type 0 where
  pub young_ones : List StoredMetric
  pub dropped : List StoredMetric
  pub age : IsYoung now max_age all young_ones
  pub newest : young_ones ≡ dropped ++ kept
  pub size : length kept ≤ max_size
  pub full : (dropped ≡ []) ⊎ (length kept ≡ max_size)

-- A maximum age that is an int64 and not negative can be negated.
negated_age : (z : ℤ) → pos 0 ≤ℤ z → z <ℤ pos (2 ^ 63) → wrap64 (pos 0 -ℤ z) ≡ pos 0 -ℤ z
negated_age z h k =
    wrap64_self (pos 0 -ℤ z)
      (ground (arith, -ℤ_parts (pos 0) z, h, k), ground (arith, -ℤ_parts (pos 0) z, h, k))

age_below : (now ts age : ℤ) → (now +ℤ (pos 0 -ℤ age)) <ℤ ts → now -ℤ ts <ℤ age
age_below now ts age h =
    omega (arith, h, +ℤ_parts now (pos 0 -ℤ age), -ℤ_parts (pos 0) age, -ℤ_parts now ts)

age_above : (now ts age : ℤ) → ts ≤ℤ now +ℤ (pos 0 -ℤ age) → age ≤ℤ now -ℤ ts
age_above now ts age h =
    omega (arith, h, +ℤ_parts now (pos 0 -ℤ age), -ℤ_parts (pos 0) age, -ℤ_parts now ts)

select-IsYoung :
    (s : MetricsStorage) (now : ℤ) (ms : List StoredMetric)
    → cutoff_at s now ≡ now +ℤ (pos 0 -ℤ s.max_age)
    → IsYoung now s.max_age ms (select (is_after (cutoff_at s now)) ms)
unfolding select
select-IsYoung s now [] e = no_more
select-IsYoung s now (m ∷ ms) e = elim (Bool-cases (is_after (cutoff_at s now) m)) [
  | inl later ↦
      let above = subst (λ z. z <ℤ m.timestamp) e (ltb_ℤ→lt (cutoff_at s now) m.timestamp later) in
      rw later (young (age_below now m.timestamp s.max_age above) (select-IsYoung s now ms e))
  | inr before ↦
      let below = subst (λ z. m.timestamp ≤ℤ z) e (ltb_ℤ→ge (cutoff_at s now) m.timestamp before) in
      rw before (old (age_above now m.timestamp s.max_age below) (select-IsYoung s now ms e))
]

within_size-Retains :
    (now max_age : ℤ) (n : ℕ) (all ms : List StoredMetric)
    → IsYoung now max_age all ms
    → Retains now max_age n all (within_size n ms)
unfolding within_size
within_size-Retains now max_age n all ms h = elim (Bool-cases (ltb n (length ms))) [
  | inl e ↦ rw e record {
    young_ones = ms;
    dropped = take (length ms - n) ms;
    age = h;
    newest = sym (take-drop (length ms - n) ms);
    size = omega (arith, length-drop (length ms - n) ms);
    full = inr (omega (arith, length-drop (length ms - n) ms, ltb→lt _ _ e));
  }
  | inr e ↦ rw e record {
    young_ones = ms;
    dropped = [];
    age = h;
    newest = refl;
    size = omega (arith, ltb→ge _ _ e);
    full = inl refl;
  }
]

saturated_early : (z : ℤ) → z <ℤ five_minutes → ltb_ℤ (saturate64 z) five_minutes ≡ true
unfolding saturate64
saturated_early (pos n) h = ground (arith, h)
saturated_early (negsuc n) h = ground (arith, h)

saturated_due : (z : ℤ) → five_minutes ≤ℤ z → ltb_ℤ (saturate64 z) five_minutes ≡ false
unfolding saturate64
saturated_due (pos n) h = ground (arith, h)
saturated_due (negsuc n) h = ground (arith, h)

store_early :
    (m : RunMetrics) (now later : ℤ) (s : MetricsStorage)
    → ltb_ℤ (saturate64 (later -ℤ s.last_cleanup)) five_minutes ≡ true
    → store m now later s ≡ appended m now s
unfolding store appended cleanup_if_needed
store_early m now later s early = rw early refl

store_due :
    (m : RunMetrics) (now later : ℤ) (s : MetricsStorage)
    → ltb_ℤ (saturate64 (later -ℤ s.last_cleanup)) five_minutes ≡ false
    → store m now later s ≡ record s {
      metrics =
          within_size s.max_size (select (is_after (cutoff_at s later)) (appended m now s).metrics);
      last_cleanup = later;
    }
unfolding store appended cleanup_if_needed
store_due m now later s due = rw due refl

-- What a store makes of the metrics that it holds with the new one.
pub record IsCleaned (later : ℤ) (all : List StoredMetric) (s after : MetricsStorage) : Type 0 where
  pub retains : Retains later s.max_age s.max_size all after.metrics
  pub state : after ≡ record s { metrics = after.metrics; last_cleanup = later }

cleaned :
    (later : ℤ) (all kept : List StoredMetric) (s after : MetricsStorage)
    → Retains later s.max_age s.max_size all kept
    → after ≡ record s { metrics = kept; last_cleanup = later }
    → IsCleaned later all s after
cleaned later all kept s after h e =
    subst (λ t. IsCleaned later all s t) (sym e) record { retains = h; state = refl }

-- With a maximum age that is an int64 and not negative: a store five minutes or more after the last
-- cleanup takes the metrics of the maximum age or older out of the old ones and the new one, keeps the
-- last of the others, all of them if they are within the maximum size and else as many as that, and
-- notes the time of this cleanup; an earlier store puts the new metric last and changes nothing else.
pub store-Retains :
    (m : RunMetrics) (now later : ℤ) (s : MetricsStorage)
    → pos 0 ≤ℤ s.max_age
    → s.max_age <ℤ pos (2 ^ 63)
    → let all = s.metrics ++ record { timestamp = now; metrics = m } ∷ [] in
      ((pos 300000000000 ≤ℤ later -ℤ s.last_cleanup) × IsCleaned later all s (store m now later s))
      ⊎ ((later -ℤ s.last_cleanup <ℤ pos 300000000000)
          × (store m now later s ≡ record s { metrics = all }))
unfolding appended
store-Retains m now later s nonnegative in_range =
    let negated = ap (λ z. later +ℤ z) (negated_age s.max_age nonnegative in_range) in
    let all = s.metrics ++ record { timestamp = now; metrics = m } ∷ [] in
    let kept =
      within_size-Retains later s.max_age s.max_size all _ (select-IsYoung s later all negated) in
    elim (Bool-cases (ltb_ℤ (later -ℤ s.last_cleanup) five_minutes)) [
      | inl h ↦
          let early = ltb_ℤ→lt (later -ℤ s.last_cleanup) five_minutes h in
          inr (early, store_early m now later s (saturated_early _ early))
      | inr h ↦
          let due = ltb_ℤ→ge (later -ℤ s.last_cleanup) five_minutes h in
          inl (due, cleaned later all _ s _ kept (store_due m now later s (saturated_due _ due)))
    ]

-- A run with the two readings of the clock that storing it makes.
pub record Storing : Type 0 where
  pub metrics : RunMetrics
  pub now : ℤ
  pub later : ℤ

unfoldable pub store_all : List Storing → MetricsStorage → MetricsStorage
store_all [] s = s
store_all (x ∷ xs) s = store_all xs (store x.metrics x.now x.later s)

abbrev pub IsEarly : ℤ → Storing → Type 0
IsEarly last_cleanup x = ltb_ℤ (saturate64 (x.later -ℤ last_cleanup)) five_minutes ≡ true

abbrev pub as_stored : Storing → StoredMetric
as_stored x = record { timestamp = x.now; metrics = x.metrics }

-- All the runs stored within five minutes of the last cleanup are kept, in order, behind what was
-- there, however many they are: until the next cleanup the maximum size is no limit.
pub store_all_early :
    (xs : List Storing) (s : MetricsStorage)
    → All (IsEarly s.last_cleanup) xs
    → (store_all xs s).metrics ≡ s.metrics ++ map as_stored xs
unfolding store_all appended
store_all_early [] s h = sym (append-nil s.metrics)
store_all_early (x ∷ xs) s h =
    ap (λ t. (store_all xs t).metrics) (store_early x.metrics x.now x.later s h.0)
    ∙ store_all_early xs (appended x.metrics x.now s) h.1
    ∙ append_assoc s.metrics _ _
