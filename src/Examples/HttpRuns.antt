-- ===== src/Examples/HttpRuns.antt =====
-- The HTTP-aware strategy at concrete inputs.
use patience.Base.{◌≡◌, refl, pos, none, some, [], ◌∷◌, arith, wrap64, ◌*ℤ◌}
use patience.Backoff.HttpAware.{
  Text, Parsers, HttpAware, http_aware_delay, process_command_output, find_matching_brace,
  brace_loop, search, search_round, from_brace, number, search_loop, retry_in, retry_field,
}
use patience.Backoff.HttpAware.Delays.{IsServed, read_output, http_aware_delay-IsServed}
use patience.Backoff.HttpAware.Search.{search_ends}
use patience.Backoff.HttpAware.Braces.{Closing, opened, find_matching_brace-Closing}

-- A header of 90 seconds is found in every output, and every object asks for 7 seconds.
abbrev parsers : Parsers
parsers = record {
  retry_after = λ output. some output;
  rate_limit = λ _. none;
  rate_limit_reset = λ _. none;
  atoi = λ _. some (pos 90);
  unmarshal = λ _. some (("retry_in", number (pos 7)) ∷ []);
}

abbrev http : HttpAware
http = record {
  fallback = λ _. pos 1000;
  max_retry_after = pos 60000000000;
  last_retry_after = pos 0;
}

http_aware_delay-IsServed_example :
    IsServed parsers
      (pos 0)
      (read_output [] [])
      http
      (pos 1)
      (http_aware_delay (process_command_output parsers (pos 0) [] [] http) (pos 1))
http_aware_delay-IsServed_example =
    http_aware_delay-IsServed parsers (pos 0) [] [] http (pos 1) (omega arith)

-- { "}" }, where the brace in the string does not count.
abbrev object : Text
object = 34 ∷ 125 ∷ 34 ∷ 125 ∷ []

closing_found : find_matching_brace (123 ∷ object) ≡ some 4
unfolding find_matching_brace brace_loop
closing_found = refl

find_matching_brace-Closing_example : Closing 1 opened object (find_matching_brace (123 ∷ object))
find_matching_brace-Closing_example = find_matching_brace-Closing object

-- The first brace is never closed, and the object behind it is found.
abbrev unclosed : Text
unclosed = 123 ∷ 34 ∷ 34 ∷ 123 ∷ 125 ∷ []

unclosed_found : search parsers unclosed ≡ pos 7000000000
unfolding search search_loop from_brace find_matching_brace brace_loop retry_in retry_field wrap64
    ◌*ℤ◌
unclosed_found = refl

search_ends_example :
    (search_loop parsers 9 unclosed ≡ some (search parsers unclosed))
    × (some (search parsers unclosed)
        ≡ search_round parsers (λ rest. some (search parsers rest)) (from_brace unclosed))
search_ends_example = search_ends parsers unclosed 9 (omega arith)
