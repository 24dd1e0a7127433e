-- ===== src/Discovery.antt =====
-- What is known of a resource's rate limit (pkg/discovery/types.go): the record, its confidence and when it
-- is replaced. Instants are nanoseconds, `now` is the reading of the clock; a text is the list of its
-- bytes. Float arithmetic is an argument.
pub mod Resources
pub mod Parsing
pub mod Results
pub mod Windows
pub mod Database
pub mod Lookup
pub mod Stored
pub mod Learner
pub mod Evidence
pub mod Trends
use patience.Base.{
  ℕ, ◌-◌, ◌*◌, ◌/◌, ltb, ℤ, pos, ◌+ℤ◌, ◌-ℤ◌, ◌*ℤ◌, ltb_ℤ, eqb_ℤ, wrap64, saturate64, quot, Bool,
  true, false, ◌||◌, Option, none, some, Text, if◌then◌else◌,
}
use patience.Backoff.Floats.{Floats}

-- DiscoverySource; `other_source` is any other text.
pub data Source : Type 0 where
  http_header json_body learned manual other_source : Source

pub record RateLimitInfo (fl : Floats) : Type 0 where
  pub resource_id : Text
  pub host : Text
  pub path : Text
  pub limit : ℤ
  pub window : ℤ
  pub remaining : ℤ
  pub reset_time : ℤ
  pub source : Source
  pub confidence : fl.Float
  pub last_seen : ℤ
  pub observation_count : ℤ
  pub successful_requests : ℤ
  pub failed_requests : ℤ
  pub last_429_response : Option ℤ

unfoldable pub get_source_priority : Source → ℕ
get_source_priority manual = 4
get_source_priority http_header = 3
get_source_priority json_body = 2
get_source_priority learned = 1
get_source_priority other_source = 0

abbrev pub nanoseconds_per_hour : ℕ
nanoseconds_per_hour = 3600000000000

abbrev pub day : ℤ
day = pos 86400000000000

-- time.Since
abbrev pub since : ℤ → ℤ → ℤ
since now t = saturate64 (now -ℤ t)

module _ (fl : Floats) where
  abbrev pub number : ℕ → fl.Float
  number n = fl.of_int (pos n)

  -- A decimal fraction of the source: the nearest float, as the quotient rounds to it.
  abbrev pub tenths : ℕ → fl.Float
  tenths n = fl.div (number n) (number 10)

  abbrev pub base_confidence : Source → fl.Float
  base_confidence http_header = tenths 9
  base_confidence json_body = tenths 8
  base_confidence learned = tenths 6
  base_confidence manual = number 1
  base_confidence other_source = tenths 5

  -- Duration.Hours
  unfoldable pub hours : ℤ → fl.Float
  hours d =
      let whole = quot d nanoseconds_per_hour in
      fl.add (fl.of_int whole)
        (fl.div (fl.of_int (d -ℤ whole *ℤ pos nanoseconds_per_hour)) (number nanoseconds_per_hour))

  abbrev pub success_factor : RateLimitInfo fl → fl.Float
  success_factor r =
      let total = wrap64 (r.successful_requests +ℤ r.failed_requests) in
      if ltb_ℤ (pos 0) total
      then fl.add (tenths 5)
          (fl.mul (fl.div (fl.of_int r.successful_requests) (fl.of_int total)) (tenths 5))
      else number 1

  abbrev pub recency_factor : ℤ → fl.Float
  recency_factor age =
      if ltb_ℤ day age
      then fl.div (number 1)
          (fl.add (number 1) (fl.div (fl.div (hours age) (number 24)) (number 7)))
      else number 1

  -- math.Min
  abbrev pub min_of : fl.Float → fl.Float → fl.Float
  min_of x y = if fl.less y x then y else x

  -- Between 0 and 1.
  unfoldable pub clamp : fl.Float → fl.Float
  clamp x =
      let at_most = if fl.less (number 1) x then number 1 else x in
      if fl.less at_most (number 0) then number 0 else at_most

  unfoldable pub confidence_score : ℤ → RateLimitInfo fl → fl.Float
  confidence_score now r =
      let count = fl.of_int r.observation_count in
      if eqb_ℤ r.observation_count (pos 0)
      then number 0
      else clamp (
          fl.mul
            (fl.mul (fl.mul (base_confidence r.source) (fl.div count (fl.add count (number 10))))
              (success_factor r))
            (recency_factor (since now r.last_seen)))

  unfoldable pub is_expired : ℤ → RateLimitInfo fl → Bool
  is_expired now r = ltb_ℤ (pos 7 *ℤ day) (since now r.last_seen)

  unfoldable pub should_update : ℤ → RateLimitInfo fl → RateLimitInfo fl → Bool
  should_update now r new_info =
      if fl.less (confidence_score now r) (confidence_score now new_info)
      then true
      else if is_expired now r
      then true
      else ltb (get_source_priority r.source) (get_source_priority new_info.source)
