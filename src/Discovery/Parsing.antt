-- ===== src/Discovery/Parsing.antt =====
-- Finding rate limits in what a command writes (pkg/discovery/parser.go). The compiled expressions are an
-- argument. A text is the list of its bytes; the clock's readings in
-- one call are taken to be equal.
use patience.Base.{
  ℕ, ◌==◌, leb, ℤ, pos, ◌+ℤ◌, ◌-ℤ◌, ◌*ℤ◌, ltb_ℤ, eqb_ℤ, wrap64, saturate64, Bool, ◌||◌, Option,
  none, some, List, [], ◌∷◌, Text, codes, index, is_some, is_space, trim, atoi, take, drop,
  if◌then◌else◌, ◌-◌, suc,
}
use patience.Patterns.Multiline.{first_group}

-- FindStringSubmatch of the expressions for the headers.
pub record HeaderPatterns : Type 0 where
  pub ratelimit_limit : Text → List Text
  pub ratelimit_remaining : Text → List Text
  pub ratelimit_reset : Text → List Text
  pub retry_after : Text → List Text
  pub rate_limit_limit : Text → List Text
  pub rate_limit_remaining : Text → List Text
  pub rate_limit_reset : Text → List Text

-- The GitHub fields are copies of the standard ones; the AWS fields are never set.
pub record RateLimitHeaders : Type 0 where
  pub rate_limit : Option ℤ
  pub rate_limit_remaining : Option ℤ
  pub rate_limit_reset : Option ℤ
  pub retry_after : Option ℤ
  pub github_limit : Option ℤ
  pub github_remaining : Option ℤ
  pub github_reset : Option ℤ
  pub twitter_limit : Option ℤ
  pub twitter_remaining : Option ℤ
  pub twitter_reset : Option ℤ

abbrev pub number_of : Option Text → Option ℤ
number_of none = none
number_of (some t) = atoi (trim is_space t)

abbrev pub matched_number : List Text → Option ℤ
matched_number groups = number_of (first_group groups)

abbrev pub second : ℤ
second = pos 1000000000

abbrev pub hour : ℤ
hour = pos 3600000000000

-- time.Unix
abbrev pub instant_of : Option ℤ → Option ℤ
instant_of none = none
instant_of (some seconds) = some (seconds *ℤ second)

unfoldable pub extract_rate_limit_headers : HeaderPatterns → Text → RateLimitHeaders
extract_rate_limit_headers p output =
    let limit = matched_number (p.ratelimit_limit output) in
    let remaining = matched_number (p.ratelimit_remaining output) in
    let reset = instant_of (matched_number (p.ratelimit_reset output)) in
    record {
      rate_limit = limit;
      rate_limit_remaining = remaining;
      rate_limit_reset = reset;
      retry_after = matched_number (p.retry_after output);
      github_limit = limit;
      github_remaining = remaining;
      github_reset = reset;
      twitter_limit = matched_number (p.rate_limit_limit output);
      twitter_remaining = matched_number (p.rate_limit_remaining output);
      twitter_reset = instant_of (matched_number (p.rate_limit_reset output));
    }

unfoldable pub has_rate_limit_info : RateLimitHeaders → Bool
has_rate_limit_info h =
    is_some h.rate_limit
    || (is_some h.rate_limit_remaining
        || (is_some h.rate_limit_reset
            || (is_some h.retry_after
                || (is_some h.github_limit
                    || (is_some h.github_remaining
                        || (is_some h.github_reset
                            || (is_some h.twitter_limit
                                || (is_some h.twitter_remaining || is_some h.twitter_reset))))))))

abbrev pub first_of : Option ℤ → Option ℤ → Option ℤ
first_of none later = later
first_of (some n) later = some n

abbrev pub or_zero : Option ℤ → ℤ
or_zero none = pos 0
or_zero (some n) = n

-- A window and when it ends.
pub record Window : Type 0 where
  pub window : ℤ
  pub reset_time : ℤ

-- time.Until, or an hour if that has passed.
unfoldable pub until : ℤ → ℤ → Window
until now reset =
    let left = saturate64 (reset -ℤ now) in
    record { window = if ltb_ℤ left (pos 0) then hour else left; reset_time = reset }

unfoldable pub after_seconds : ℤ → ℤ → Window
after_seconds now n =
    let window = wrap64 (n *ℤ second) in record { window = window; reset_time = now +ℤ window }

-- The zero of time.Time stands for no reset time: it is 1 January of the year 1.
abbrev pub no_window : Window
no_window = record { window = pos 0; reset_time = pos 0 -ℤ pos 62135596800 *ℤ second }

abbrev pub or_hour : ℤ → Window → Window
or_hour now w =
    if eqb_ℤ w.window (pos 0) then record { window = hour; reset_time = now +ℤ hour } else w

abbrev pub window_by : ℤ → Option ℤ → Option ℤ → Window
window_by now (some reset) retry_after = until now reset
window_by now none (some n) = after_seconds now n
window_by now none none = no_window

unfoldable pub header_window : ℤ → RateLimitHeaders → Window
header_window now h = or_hour now (
    window_by now (first_of h.rate_limit_reset (first_of h.github_reset h.twitter_reset))
      h.retry_after)

pub record RateLimitObject : Type 0 where
  pub limit : Option ℤ
  pub remaining : Option ℤ
  pub reset : Option ℤ

-- Of the error object only retry_after is read.
pub record RateLimitJson : Type 0 where
  pub limit : Option ℤ
  pub remaining : Option ℤ
  pub retry_after : Option ℤ
  pub retry_after_seconds : Option ℤ
  pub rate_limit : Option RateLimitObject
  pub error_retry_after : Option ℤ

abbrev pub object_limit : Option RateLimitObject → Option ℤ
object_limit none = none
object_limit (some o) = o.limit

abbrev pub object_remaining : Option RateLimitObject → Option ℤ
object_remaining none = none
object_remaining (some o) = o.remaining

abbrev pub object_reset : Option RateLimitObject → Option ℤ
object_reset none = none
object_reset (some o) = o.reset

unfoldable pub has_json_rate_limit_info : RateLimitJson → Bool
has_json_rate_limit_info j =
    is_some j.limit
    || (is_some j.remaining
        || (is_some j.retry_after
            || (is_some j.retry_after_seconds
                || ((is_some (object_limit j.rate_limit)
                      || (is_some (object_remaining j.rate_limit)
                          || is_some (object_reset j.rate_limit)))
                    || is_some j.error_retry_after))))

abbrev pub json_retry : RateLimitJson → ℤ
json_retry j = or_zero (first_of j.retry_after (first_of j.retry_after_seconds j.error_retry_after))

unfoldable pub json_window : ℤ → RateLimitJson → Window
json_window now j = or_hour now (
    if ltb_ℤ (pos 0) (json_retry j)
    then after_seconds now (json_retry j)
    else window_by now (instant_of (object_reset j.rate_limit)) none)

-- The last place of a byte.
unfoldable pub last_index : ℕ → Text → Option ℕ
last_index c [] = none
last_index c (x ∷ s) = elim (last_index c s) [
  | some i ↦ some (suc i)
  | none ↦ if x == c then some 0 else none
]

-- From the first opening to the last closing brace.
unfoldable pub json_part : Text → Option Text
json_part output = cut (index output (codes "{")) (last_index 125 output)
  where
    cut : Option ℕ → Option ℕ → Option Text
    cut (some start) (some end) =
        if leb end start then none else some (take (suc end - start) (drop start output))
    cut _ _ = none
