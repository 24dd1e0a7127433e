-- ===== src/Discovery/Learner.antt =====
-- Learning rate limits from responses (pkg/discovery/learner.go), over the tables of the discovery
-- database. math.Ceil is an argument; the clock's readings in one call are taken to be equal.
use patience.Base.{
  ℕ, ◌+◌, ltb, ℤ, pos, ◌+ℤ◌, ◌-ℤ◌, ◌*ℤ◌, ltb_ℤ, eqb_ℤ, wrap64, Bool, true, false, not, ◌&&◌, Option,
  none, some, List, [], ◌∷◌, map, select, count, length, Text, if◌then◌else◌,
}
use patience.Backoff.Floats.{Floats}
use patience.Executor.Coordination.{unix}
use patience.Discovery.{
  RateLimitInfo, Source, learned, confidence_score, number, tenths, clamp, day, min_of,
}
use patience.Discovery.Parsing.{second, hour}
use patience.Discovery.Database.{
  Row, LearningRow, get_rate_limit_info, get_rate_limit_info_by_host, save_rate_limit_info,
  save_learning_data, get_learning_data,
}

-- A row as it is read: the request's instant, the code and the success.
pub record Request : Type 0 where
  pub time : ℤ
  pub code : ℤ
  pub success : Bool

unfoldable pub insert_request : Request → List Request → List Request
insert_request r [] = r ∷ []
insert_request r (s ∷ rs) =
    let rest = insert_request r rs in if ltb_ℤ s.time r.time then s ∷ rest else r ∷ s ∷ rs

-- By their times.
unfoldable pub sort_requests : List Request → List Request
sort_requests [] = []
sort_requests (r ∷ rs) = insert_request r (sort_requests rs)

abbrev pub is_limited : Request → Bool
is_limited r = eqb_ℤ r.code (pos 429)

-- Not after the error, and a 429 or a success.
abbrev pub is_recent_429 : ℤ → Request → Bool
is_recent_429 error_time r = not (ltb_ℤ error_time r.time) && is_limited r

abbrev pub is_recent_success : ℤ → Request → Bool
is_recent_success error_time r = not (ltb_ℤ error_time r.time) && (not (is_limited r) && r.success)

-- Strictly between the start of the window and the error.
abbrev pub in_window : ℤ → ℤ → Request → Bool
in_window window error_time r = ltb_ℤ (error_time -ℤ window) r.time && ltb_ℤ r.time error_time

abbrev pub minutes : ℕ → ℤ
minutes n = pos n *ℤ pos 60000000000

abbrev pub window_sizes : List ℤ
window_sizes = minutes 1 ∷ minutes 5 ∷ minutes 15 ∷ minutes 60 ∷ minutes 1440 ∷ []

module _ (fl : Floats) (ceil : fl.Float → fl.Float) where
  abbrev pub window_factor : ℤ → fl.Float
  window_factor window =
      if ltb_ℤ (pos 6 *ℤ hour) window
      then tenths fl 6
      else if ltb_ℤ hour window
      then tenths fl 8
      else number fl 1

  unfoldable pub calculate_learning_confidence : ℕ → ℕ → ℤ → fl.Float
  calculate_learning_confidence successful failures window =
      let data_factor =
        min_of fl (number fl 1) (fl.div (number fl (successful + failures)) (number fl 10)) in
      if ltb successful 2
      then number fl 0
      else clamp fl (fl.mul (fl.mul (tenths fl 4) data_factor) (window_factor window))

  unfoldable pub estimated_limit : ℕ → ℤ
  estimated_limit n = fl.to_int (ceil (fl.mul (number fl n) (tenths fl 12)))

  abbrev pub learned_info : ℤ → Text → Text → Text → ℕ → ℕ → ℤ → ℤ → RateLimitInfo fl
  learned_info now resource_id host path successes failures window error_time = record {
    resource_id = resource_id;
    host = host;
    path = path;
    limit = estimated_limit successes;
    window = window;
    remaining = pos 0;
    reset_time = error_time +ℤ window;
    source = learned;
    confidence = calculate_learning_confidence successes failures window;
    last_seen = now;
    observation_count = pos 1;
    successful_requests = pos successes;
    failed_requests = pos 1;
    last_429_response = some error_time;
  }

  abbrev pub if_confident : RateLimitInfo fl → Option (RateLimitInfo fl)
  if_confident info = if fl.le (tenths fl 3) info.confidence then some info else none

  -- The successes and the 429s are given.
  unfoldable pub analyze_window_pattern :
      ℤ → Text → Text → Text → List Request → List Request → ℤ → ℤ → Option (RateLimitInfo fl)
  analyze_window_pattern now resource_id host path successful failures window error_time =
      let n = count (in_window window error_time) successful in
      let limited = count (in_window window error_time) failures in
      if ltb 0 n && ltb 0 limited
      then if_confident
          (learned_info now resource_id host path n (length failures) window error_time)
      else none

  abbrev pub or_next :
      Option (RateLimitInfo fl) → Option (RateLimitInfo fl) → Option (RateLimitInfo fl)
  or_next (some info) later = some info
  or_next none later = later

  -- The first window that tells something.
  unfoldable pub try_windows :
      ℤ → Text → Text → Text → List Request → List Request → ℤ → List ℤ → Option (RateLimitInfo fl)
  try_windows now resource_id host path successful failures error_time [] = none
  try_windows now resource_id host path successful failures error_time (window ∷ windows) =
      or_next
        (analyze_window_pattern now resource_id host path successful failures window error_time)
        (try_windows now resource_id host path successful failures error_time windows)

  unfoldable pub analyze_request_patterns :
      ℤ → Text → Text → Text → List Request → ℤ → Option (RateLimitInfo fl)
  analyze_request_patterns now resource_id host path requests error_time =
      let sorted = sort_requests requests in
      try_windows now resource_id host path (select (is_recent_success error_time) sorted)
        (select (is_recent_429 error_time) sorted) error_time window_sizes

  -- The two tables.
  pub record Database : Type 0 where
    pub rate_limits : List (Row fl)
    pub learning_data : List LearningRow

  abbrev pub request_of : LearningRow → Request
  request_of row = record {
    time = row.request_time *ℤ second;
    code = row.response_code;
    success = row.success;
  }

  abbrev pub with_info : ℤ → Database → Option (RateLimitInfo fl) → Database
  with_info now db none = db
  with_info now db (some info) = record db {
    rate_limits = save_rate_limit_info fl now info db.rate_limits;
  }

  unfoldable pub learn_from_rate_limit_error : ℤ → Text → Text → Text → ℤ → Database → Database
  learn_from_rate_limit_error now resource_id host path error_time db =
      let requests =
        map request_of (get_learning_data resource_id (error_time -ℤ day) db.learning_data) in
      if ltb (length requests) 2
      then db
      else with_info now db (analyze_request_patterns now resource_id host path requests error_time)

  unfoldable pub learn_from_response : ℤ → Text → Text → Text → ℤ → ℤ → Database → Database
  learn_from_response now resource_id host path response_code request_time db =
      let row : LearningRow = record {
        resource_id = resource_id;
        request_time = unix request_time;
        response_code = response_code;
        success = ltb_ℤ response_code (pos 400);
        host = host;
        path = path;
      } in
      let stored = record db { learning_data = save_learning_data row db.learning_data } in
      if eqb_ℤ response_code (pos 429)
      then learn_from_rate_limit_error now resource_id host path request_time stored
      else stored

  -- By the key, or else by the host and the path.
  abbrev pub known : Text → Text → Text → Database → Option (RateLimitInfo fl)
  known resource_id host path db =
      or_next (get_rate_limit_info fl resource_id host path db.rate_limits)
        (get_rate_limit_info_by_host fl host path db.rate_limits)

  abbrev pub scored : ℤ → RateLimitInfo fl → RateLimitInfo fl
  scored now info = record info { confidence = confidence_score fl now info }

  abbrev pub succeeded_again : ℤ → RateLimitInfo fl → RateLimitInfo fl
  succeeded_again now info = record info {
    successful_requests = wrap64 (info.successful_requests +ℤ pos 1);
    last_seen = now;
    observation_count = wrap64 (info.observation_count +ℤ pos 1);
  }

  abbrev pub map_info :
      (RateLimitInfo fl → RateLimitInfo fl) → Option (RateLimitInfo fl) → Option (RateLimitInfo fl)
  map_info f none = none
  map_info f (some info) = some (f info)

  unfoldable pub update_rate_limit_from_success : ℤ → Text → Text → Text → Database → Database
  update_rate_limit_from_success now resource_id host path db =
      with_info now db
        (map_info (λ info. scored now (succeeded_again now info)) (known resource_id host path db))

  abbrev pub failed_again : ℤ → ℤ → RateLimitInfo fl → RateLimitInfo fl
  failed_again now failure_time info = record info {
    failed_requests = wrap64 (info.failed_requests +ℤ pos 1);
    last_seen = now;
    observation_count = wrap64 (info.observation_count +ℤ pos 1);
    last_429_response = some failure_time;
  }

  abbrev pub at_least_one : ℤ → ℤ
  at_least_one n = if ltb_ℤ n (pos 1) then pos 1 else n

  abbrev pub often_fails : RateLimitInfo fl → Bool
  often_fails info = fl.less (tenths fl 2) (
      fl.div (fl.of_int info.failed_requests)
        (fl.of_int (wrap64 (info.successful_requests +ℤ info.failed_requests))))

  abbrev pub is_learned : Source → Bool
  is_learned learned = true
  is_learned _ = false

  -- A learned limit is reduced by a tenth while more than a fifth of the requests fail.
  abbrev pub reduced : RateLimitInfo fl → RateLimitInfo fl
  reduced info =
      if is_learned info.source && often_fails info
      then record info {
        limit = at_least_one (fl.to_int (fl.mul (fl.of_int info.limit) (tenths fl 9)));
      }
      else info

  unfoldable pub update_rate_limit_from_failure : ℤ → Text → Text → Text → ℤ → Database → Database
  update_rate_limit_from_failure now resource_id host path failure_time db = with_info now db (
      map_info (λ info. scored now (reduced (failed_again now failure_time info)))
        (known resource_id host path db))
