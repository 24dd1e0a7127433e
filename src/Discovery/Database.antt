-- ===== src/Discovery/Database.antt =====
-- The tables of the discovery database (pkg/discovery/database.go), with what its SQL statements say: a
-- table is the list of its rows, in the order in which an unordered query gives them. Errors of the
-- database are left out, as are the columns created_at and updated_at, which nothing reads.
use patience.Base.{
  ℤ, pos, ◌+ℤ◌, ◌-ℤ◌, ◌*ℤ◌, ltb_ℤ, leb_ℤ, wrap64, quot, Bool, not, ◌&&◌, ◌||◌, Option, none, some,
  List, [], ◌∷◌, ◌++◌, map, select, Text, same_text, if◌then◌else◌,
}
use patience.Backoff.Floats.{Floats}
use patience.Executor.Coordination.{unix}
use patience.Discovery.{RateLimitInfo, Source, should_update}
use patience.Discovery.Parsing.{second}

-- A row of rate_limits; its times are whole seconds.
pub record Row (fl : Floats) : Type 0 where
  pub resource_id : Text
  pub host : Text
  pub path : Text
  pub limit_value : ℤ
  pub window_seconds : ℤ
  pub remaining_value : ℤ
  pub reset_time : ℤ
  pub source : Source
  pub confidence : fl.Float
  pub last_seen : ℤ
  pub observation_count : ℤ
  pub successful_requests : ℤ
  pub failed_requests : ℤ
  pub last_429_response : Option ℤ

-- A row of learning_data, whose request time is in seconds; the command and the response time are not read.
pub record LearningRow : Type 0 where
  pub resource_id : Text
  pub request_time : ℤ
  pub response_code : ℤ
  pub success : Bool
  pub host : Text
  pub path : Text

abbrev pub map_option {ℓ κ} : {A : Type ℓ} {B : Type κ} → (A → B) → Option A → Option B
map_option f none = none
map_option f (some a) = some (f a)

module _ (fl : Floats) where
  -- Duration.Seconds
  unfoldable pub seconds : ℤ → fl.Float
  seconds d =
      let whole = quot d 1000000000 in
      fl.add (fl.of_int whole) (fl.div (fl.of_int (d -ℤ whole *ℤ second)) (fl.of_int second))

  abbrev pub is_key : Text → Text → Text → Row fl → Bool
  is_key resource_id host path row =
      same_text row.resource_id resource_id && (same_text row.host host && same_text row.path path)

  -- What a query scans into a record.
  unfoldable pub to_info : Row fl → RateLimitInfo fl
  to_info row = record {
    resource_id = row.resource_id;
    host = row.host;
    path = row.path;
    limit = row.limit_value;
    window = wrap64 (row.window_seconds *ℤ second);
    remaining = row.remaining_value;
    reset_time = row.reset_time *ℤ second;
    source = row.source;
    confidence = row.confidence;
    last_seen = row.last_seen *ℤ second;
    observation_count = row.observation_count;
    successful_requests = row.successful_requests;
    failed_requests = row.failed_requests;
    last_429_response = map_option (λ t. t *ℤ second) row.last_429_response;
  }

  -- INSERT
  unfoldable pub to_row : ℤ → RateLimitInfo fl → Row fl
  to_row now info = record {
    resource_id = info.resource_id;
    host = info.host;
    path = info.path;
    limit_value = info.limit;
    window_seconds = fl.to_int (seconds info.window);
    remaining_value = info.remaining;
    reset_time = unix info.reset_time;
    source = info.source;
    confidence = info.confidence;
    last_seen = unix now;
    observation_count = info.observation_count;
    successful_requests = info.successful_requests;
    failed_requests = info.failed_requests;
    last_429_response = map_option unix info.last_429_response;
  }

  -- The first row with a key; there is one at most.
  unfoldable pub find_row : (Row fl → Bool) → List (Row fl) → Option (Row fl)
  find_row test [] = none
  find_row test (row ∷ rows) = let rest = find_row test rows in if test row then some row else rest

  unfoldable pub get_rate_limit_info :
      Text → Text → Text → List (Row fl) → Option (RateLimitInfo fl)
  get_rate_limit_info resource_id host path rows =
      map_option to_info (find_row (is_key resource_id host path) rows)

  -- UPDATE
  unfoldable pub update_where : (Row fl → Bool) → (Row fl → Row fl) → List (Row fl) → List (Row fl)
  update_where test change [] = []
  update_where test change (row ∷ rows) =
      (if test row then change row else row) ∷ update_where test change rows

  -- The columns that the update sets; the key stays.
  abbrev pub replaced : ℤ → RateLimitInfo fl → Row fl → Row fl
  replaced now info row = record (to_row now info) {
    resource_id = row.resource_id;
    host = row.host;
    path = row.path;
    observation_count = row.observation_count +ℤ pos 1;
  }

  abbrev pub observed_again : ℤ → Row fl → Row fl
  observed_again now row = record row {
    observation_count = row.observation_count +ℤ pos 1;
    last_seen = unix now;
  }

  unfoldable pub update_observation : ℤ → Text → Text → Text → List (Row fl) → List (Row fl)
  update_observation now resource_id host path rows =
      update_where (is_key resource_id host path) (observed_again now) rows

  abbrev pub saved :
      ℤ → RateLimitInfo fl → List (Row fl) → Option (RateLimitInfo fl) → List (Row fl)
  saved now info rows none = rows ++ to_row now info ∷ []
  saved now info rows (some old) =
      if should_update fl now old info
      then update_where (is_key info.resource_id info.host info.path) (replaced now info) rows
      else update_observation now old.resource_id old.host old.path rows

  unfoldable pub save_rate_limit_info : ℤ → RateLimitInfo fl → List (Row fl) → List (Row fl)
  save_rate_limit_info now info rows =
      saved now info rows (get_rate_limit_info info.resource_id info.host info.path rows)

  -- ORDER BY confidence DESC, last_seen DESC
  abbrev pub comes_before : Row fl → Row fl → Bool
  comes_before a b =
      fl.less b.confidence a.confidence
      || (fl.eq a.confidence b.confidence && ltb_ℤ b.last_seen a.last_seen)

  unfoldable pub insert_row : Row fl → List (Row fl) → List (Row fl)
  insert_row row [] = row ∷ []
  insert_row row (other ∷ rows) =
      let rest = insert_row row rows in
      if comes_before other row then other ∷ rest else row ∷ other ∷ rows

  unfoldable pub sort_rows : List (Row fl) → List (Row fl)
  sort_rows [] = []
  sort_rows (row ∷ rows) = insert_row row (sort_rows rows)

  unfoldable pub list_rate_limits : List (Row fl) → List (RateLimitInfo fl)
  list_rate_limits rows = map to_info (sort_rows rows)

  abbrev pub first_row : List (Row fl) → Option (Row fl)
  first_row [] = none
  first_row (row ∷ rows) = some row

  unfoldable pub get_rate_limit_info_by_host :
      Text → Text → List (Row fl) → Option (RateLimitInfo fl)
  get_rate_limit_info_by_host host path rows = map_option to_info (
      first_row
        (sort_rows (select (λ row. same_text row.host host && same_text row.path path) rows)))

  -- DELETE of what was last seen before the cutoff.
  unfoldable pub cleanup_rate_limits : ℤ → ℤ → List (Row fl) → List (Row fl)
  cleanup_rate_limits now max_age rows =
      select (λ row. not (ltb_ℤ row.last_seen (unix (now -ℤ max_age)))) rows

-- Learning data is kept for twice the time.
unfoldable pub cleanup_learning_data : ℤ → ℤ → List LearningRow → List LearningRow
cleanup_learning_data now max_age rows =
    select (λ row. not (ltb_ℤ row.request_time (unix (now -ℤ wrap64 (max_age *ℤ pos 2))))) rows

unfoldable pub save_learning_data : LearningRow → List LearningRow → List LearningRow
save_learning_data row rows = rows ++ row ∷ []

unfoldable pub insert_latest : LearningRow → List LearningRow → List LearningRow
insert_latest row [] = row ∷ []
insert_latest row (other ∷ rows) =
    let rest = insert_latest row rows in
    if ltb_ℤ row.request_time other.request_time then other ∷ rest else row ∷ other ∷ rows

-- ORDER BY request_time DESC
unfoldable pub sort_latest : List LearningRow → List LearningRow
sort_latest [] = []
sort_latest (row ∷ rows) = insert_latest row (sort_latest rows)

unfoldable pub get_learning_data : Text → ℤ → List LearningRow → List LearningRow
get_learning_data resource_id since rows = sort_latest (
    select (λ row. same_text row.resource_id resource_id && leb_ℤ (unix since) row.request_time)
      rows)
