-- ===== src/Discovery/Trends.antt =====
-- Trends in the learning data of a week (pkg/discovery/learner.go). Go visits the map of the groups in any
-- order; of the groups only their number, a maximum and a minimum are used.
pub mod Estimates
use patience.Base.{
  ℕ, ◌+◌, ◌-◌, ◌/◌, ◌≤◌, ltb, leb, ◌==◌, ℤ, pos, ◌+ℤ◌, ◌-ℤ◌, ◌*ℤ◌, eqb_ℤ, ltb_ℤ, quot, Bool, true,
  false, not, ◌&&◌, ◌||◌, Option, none, some, List, [], ◌∷◌, map, select, count, length, is_empty,
  Text, if◌then◌else◌, ◌≡◌, refl, arith, Bool-cases, inl, inr, ap, ◌∙◌, sym,
}
use mathlib.Core.Path.{subst}
use patience.Backoff.Floats.{Floats}
use patience.Executor.Coordination.{unix}
use patience.Discovery.{RateLimitInfo, learned, http_header, number, tenths, day, min_of}
use patience.Discovery.Parsing.{second}
use patience.Discovery.Database.{LearningRow, get_learning_data}

abbrev pub instant : LearningRow → ℤ
instant row = row.request_time *ℤ second

-- From the zero of time.Time, 1 January of the year 1, to that of Unix time.
abbrev pub since_year_one : ℤ → ℤ
since_year_one t = t +ℤ pos 62135596800 *ℤ second

-- Time.Truncate, for instants after the year 1, and then Unix. The window is a number of nanoseconds.
unfoldable pub window_start : ℕ → LearningRow → ℤ
window_start window row =
    let age = since_year_one (instant row) in
    unix (instant row -ℤ (age -ℤ quot age window *ℤ pos window))

unfoldable pub insert_time : LearningRow → List LearningRow → List LearningRow
insert_time r [] = r ∷ []
insert_time r (s ∷ rs) =
    let rest = insert_time r rs in if ltb_ℤ (instant s) (instant r) then s ∷ rest else r ∷ s ∷ rs

unfoldable pub sort_by_time : List LearningRow → List LearningRow
sort_by_time [] = []
sort_by_time (r ∷ rs) = insert_time r (sort_by_time rs)

abbrev pub has_key : ℤ → List ℤ → Bool
has_key k [] = false
has_key k (l ∷ ls) = eqb_ℤ k l || has_key k ls

-- The keys of the groups.
unfoldable pub group_keys : ℕ → List LearningRow → List ℤ
group_keys window [] = []
group_keys window (row ∷ rows) =
    let keys = group_keys window rows in
    if has_key (window_start window row) keys then keys else window_start window row ∷ keys

-- The successes and the 429s of a group.
abbrev pub success_count : ℕ → List LearningRow → ℤ → ℕ
success_count window rows key =
    count (λ row. eqb_ℤ (window_start window row) key && row.success) rows

abbrev pub failure_count : ℕ → List LearningRow → ℤ → ℕ
failure_count window rows key =
    count
      (λ row.
        eqb_ℤ (window_start window row) key
        && (not row.success && eqb_ℤ row.response_code (pos 429)))
      rows

unfoldable pub failed_windows : ℕ → List LearningRow → List ℕ
failed_windows window rows =
    map (success_count window rows)
      (select (λ key. ltb 0 (failure_count window rows key)) (group_keys window rows))

unfoldable pub successful_windows : ℕ → List LearningRow → List ℕ
successful_windows window rows = map (success_count window rows) (
    select
      (λ key. not (ltb 0 (failure_count window rows key)) && ltb 0 (success_count window rows key))
      (group_keys window rows))

unfoldable pub max_from : ℕ → List ℕ → ℕ
max_from best [] = best
max_from best (n ∷ ns) = max_from (if ltb best n then n else best) ns

unfoldable pub min_from : ℕ → List ℕ → ℕ
min_from best [] = best
min_from best (n ∷ ns) = min_from (if ltb n best then n else best) ns

-- Between the most successes without a 429 and the fewest with one.
unfoldable pub estimate : List ℕ → List ℕ → ℕ
estimate successful failures =
    let most = max_from 0 successful in
    let middle = (most + min_from 2147483647 failures) / 2 in
    if ltb middle 1 then most + 1 else middle

module _ (fl : Floats) where
  abbrev pub trend_info : ℤ → Text → Text → Text → ℕ → List ℕ → List ℕ → RateLimitInfo fl
  trend_info now resource_id host path window successful failures = record {
    resource_id = resource_id;
    host = host;
    path = path;
    limit = pos (estimate successful failures);
    window = pos window;
    remaining = pos 0;
    reset_time = now +ℤ pos window;
    source = learned;
    confidence =
        min_of fl (tenths fl 8)
          (fl.div (number fl (length successful + length failures)) (number fl 20));
    last_seen = now;
    observation_count = pos (length successful + length failures);
    successful_requests = pos (length successful);
    failed_requests = pos (length failures);
    last_429_response = none;
  }

  unfoldable pub analyze_window_trends :
      ℤ → Text → Text → Text → ℕ → List LearningRow → Option (RateLimitInfo fl)
  analyze_window_trends now resource_id host path window rows =
      let failures = failed_windows window rows in
      let successful = successful_windows window rows in
      if not (is_empty failures) && not (is_empty successful)
      then some (trend_info now resource_id host path window successful failures)
      else none

  abbrev pub trend_windows : List ℕ
  trend_windows = 60000000000 ∷ 300000000000 ∷ 900000000000 ∷ 3600000000000 ∷ []

  -- The best so far with its confidence, at first none with 0.
  abbrev pub better :
      Option (RateLimitInfo fl) → Option (RateLimitInfo fl) → fl.Float → Option (RateLimitInfo fl)
  better none best confidence = best
  better (some info) best confidence =
      if fl.less confidence info.confidence then some info else best

  abbrev pub confidence_of : Option (RateLimitInfo fl) → fl.Float
  confidence_of none = number fl 0
  confidence_of (some info) = info.confidence

  unfoldable pub best_trend :
      (ℕ → Option (RateLimitInfo fl))
      → List ℕ
      → Option (RateLimitInfo fl)
      → Option (RateLimitInfo fl)
  best_trend analyze [] best = best
  best_trend analyze (window ∷ windows) best =
      best_trend analyze windows (better (analyze window) best (confidence_of best))

  abbrev pub if_convincing : Option (RateLimitInfo fl) → Option (RateLimitInfo fl)
  if_convincing none = none
  if_convincing (some info) = if fl.less (tenths fl 5) info.confidence then some info else none

  -- Of the host and path of the first request.
  unfoldable pub analyze_trend_patterns : ℤ → Text → List LearningRow → Option (RateLimitInfo fl)
  analyze_trend_patterns now resource_id rows = first (sort_by_time rows)
    where
      first : List LearningRow → Option (RateLimitInfo fl)
      first [] = none
      first (row ∷ rest) = if_convincing (
          best_trend
            (λ window. analyze_window_trends now resource_id row.host row.path window (row ∷ rest))
            trend_windows none)

  unfoldable pub analyze_rate_limit_trends : ℤ → Text → List LearningRow → Option (RateLimitInfo fl)
  analyze_rate_limit_trends now resource_id table =
      let rows = get_learning_data resource_id (now -ℤ pos 7 *ℤ day) table in
      if ltb (length rows) 10 then none else analyze_trend_patterns now resource_id rows
