-- ===== src/Examples/DiscoveryRuns.antt =====
-- The discovery of rate limits at concrete inputs.
use patience.Base.{
  ◌-ℤ◌, ◌*ℤ◌, ℕ, ◌+◌, ◌*◌, ◌/◌, select, count, ℤ, pos, ◌≡◌, refl, true, false, Option, none, some,
  List, [], ◌∷◌, Text, codes, arith, same_text, has_prefix, is_empty, index, trim, trim_left,
  trim_right, is_space, atoi, digits, ◌≤ℤ◌, ◌⊎◌, ap,
}
use patience.Examples.Thousandths.{thousandths}
use patience.Patterns.Json.{Value, Fields}
use patience.Discovery.{RateLimitInfo, learned, http_header, clamp}
use patience.Discovery.Resources.{Url, extract_url_from_curl, extract_resource_info}
use patience.Discovery.Parsing.{
  HeaderPatterns, extract_rate_limit_headers, json_part, json_retry, has_rate_limit_info,
}
use patience.Discovery.Results.{
  parse_from_command_output, header_info, examined, decoded, extract_rate_limit_from_json,
  parse_http_headers,
}
use patience.Discovery.Windows.{FitsDuration, IsFound, parse_from_command_output-IsFound}
use patience.Discovery.Database.{Row, to_row, get_rate_limit_info, save_rate_limit_info}
use patience.Discovery.Stored.{IsExact, IsStored, get-save}
use patience.Discovery.Learner.{
  Request, analyze_request_patterns, is_recent_success, is_recent_429, window_sizes, learned_info,
  minutes, try_windows, analyze_window_pattern, sort_requests, insert_request,
  calculate_learning_confidence,
}
use patience.Discovery.Evidence.{Rests, kind_count, analyze_request_patterns-Rests}

-- Every output has Retry-After: 90 and nothing else.
abbrev headers : HeaderPatterns
headers = record {
  ratelimit_limit = λ t. [];
  ratelimit_remaining = λ t. [];
  ratelimit_reset = λ t. [];
  retry_after = λ t. t ∷ codes "90" ∷ [];
  rate_limit_limit = λ t. [];
  rate_limit_remaining = λ t. [];
  rate_limit_reset = λ t. [];
}

abbrev no_url : Text → Option Url
no_url t = none

abbrev no_json : Text → Option (Value ℕ)
no_json t = none

-- The user of -u is taken for the URL.
user_as_url : extract_url_from_curl (codes "-u" ∷ codes "me" ∷ codes "http://a" ∷ []) ≡ codes "me"
unfolding extract_url_from_curl has_prefix same_text is_empty
user_as_url = refl

abbrev ninety : RateLimitInfo thousandths
ninety =
    header_info thousandths (pos 5000000000) (extract_resource_info no_url (codes "make" ∷ []))
      (extract_rate_limit_headers headers (examined thousandths (codes "x") []))

ninety_found :
    parse_from_command_output thousandths headers no_url no_json
      (pos 5000000000)
      (codes "x")
      []
      (codes "make" ∷ [])
    ≡ some ninety
unfolding parse_from_command_output parse_http_headers extract_rate_limit_headers trim trim_left
    trim_right is_space atoi digits has_rate_limit_info is_empty
ninety_found = refl

fits_ninety :
    (n : ℤ)
    → (extract_rate_limit_headers headers (examined thousandths (codes "x") [])).retry_after
      ≡ some n
    → FitsDuration n
unfolding extract_rate_limit_headers trim trim_left trim_right is_space atoi digits
fits_ninety n e = ground (arith, e)

no_values :
    (v : Fields ℕ)
    → decoded thousandths no_json (json_part (examined thousandths (codes "x") [])) ≡ some v
    → json_retry (extract_rate_limit_from_json thousandths v) ≤ℤ pos 9223372036
unfolding json_part index has_prefix
no_values v e = absurd (ground (arith, e))

parse_from_command_output-IsFound_example :
    IsFound thousandths headers no_url no_json (examined thousandths (codes "x") []) ninety
parse_from_command_output-IsFound_example =
    parse_from_command_output-IsFound thousandths headers no_url no_json (pos 5000000000)
      (codes "x") [] (codes "make" ∷ []) ninety fits_ninety no_values ninety_found

abbrev guess : RateLimitInfo thousandths
guess = record {
  resource_id = codes "api";
  host = codes "a";
  path = codes "/";
  limit = pos 12;
  window = pos 60000000000;
  remaining = pos 0;
  reset_time = pos 60000000000;
  source = learned;
  confidence = 400;
  last_seen = pos 0;
  observation_count = pos 1;
  successful_requests = pos 10;
  failed_requests = pos 1;
  last_429_response = none;
}

abbrev rows : List (Row thousandths)
rows = to_row thousandths (pos 0) guess ∷ []

abbrev better : RateLimitInfo thousandths
better = record guess {
  limit = pos 100;
  window = pos 90000000000;
  reset_time = pos 60500000000;
  source = http_header;
}

thousandths-IsExact : IsExact thousandths
thousandths-IsExact = record {
  whole = λ n h. ap pos (omega arith);
  no_part = refl;
  add_nothing = λ n. omega arith;
}

get-save_example :
    IsStored thousandths
      (pos 7000000000)
      better
      (get_rate_limit_info thousandths (codes "api") (codes "a") (codes "/") rows)
      (get_rate_limit_info thousandths
        (codes "api")
        (codes "a")
        (codes "/")
        (save_rate_limit_info thousandths (pos 7000000000) better rows))
    × (((codes "api" ≡ codes "api") × (codes "b" ≡ codes "a") × (codes "/" ≡ codes "/"))
        ⊎ (get_rate_limit_info thousandths
              (codes "api")
              (codes "b")
              (codes "/")
              (save_rate_limit_info thousandths (pos 7000000000) better rows)
            ≡ get_rate_limit_info thousandths (codes "api") (codes "b") (codes "/") rows))
get-save_example =
    get-save thousandths thousandths-IsExact (pos 7000000000) better rows (codes "api") (codes "b")
      (codes "/") (90, refl, omega arith)

abbrev success_at : ℤ → Request
success_at t = record { time = t; code = pos 200; success = true }

abbrev limited_at : ℤ → Request
limited_at t = record { time = t; code = pos 429; success = false }

-- Eight successes and a 429 within ten seconds, before another 429.
abbrev requests : List Request
requests =
    success_at (pos 1000000000)
    ∷ success_at (pos 2000000000)
    ∷ success_at (pos 3000000000)
    ∷ success_at (pos 4000000000)
    ∷ success_at (pos 5000000000)
    ∷ success_at (pos 6000000000)
    ∷ success_at (pos 7000000000)
    ∷ success_at (pos 8000000000)
    ∷ limited_at (pos 9000000000)
    ∷ []

-- Floats are whole thousandths, so the ceiling is one of thousandths.
abbrev ceil : ℕ → ℕ
ceil x = (x + 999) / 1000 * 1000

abbrev eight : RateLimitInfo thousandths
eight =
    learned_info thousandths ceil (pos 11000000000) (codes "api") (codes "a") (codes "/") 8 1
      (minutes 1) (pos 10000000000)

eight_learned :
    analyze_request_patterns thousandths ceil
      (pos 11000000000)
      (codes "api")
      (codes "a")
      (codes "/")
      requests
      (pos 10000000000)
    ≡ some eight
unfolding analyze_request_patterns try_windows analyze_window_pattern sort_requests insert_request
    calculate_learning_confidence clamp select count ◌-ℤ◌ ◌*ℤ◌
eight_learned = refl

analyze_request_patterns-Rests_example :
    Rests thousandths ceil window_sizes
      (λ w. kind_count is_recent_success w (pos 10000000000) requests)
      (λ w. kind_count is_recent_429 w (pos 10000000000) requests)
      eight
analyze_request_patterns-Rests_example =
    analyze_request_patterns-Rests thousandths ceil (pos 11000000000) (codes "api") (codes "a")
      (codes "/") requests (pos 10000000000) eight refl eight_learned
