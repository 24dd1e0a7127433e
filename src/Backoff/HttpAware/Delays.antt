-- ===== src/Backoff/HttpAware/Delays.antt =====
-- The delay after a command's output was read.
use patience.Base.{
  ◌≡◌, ◌≤ℤ◌, ◌<ℤ◌, ℤ, pos, ◌⊎◌, List, [], ◌∷◌, ◌++◌, ◌*◌, take, ltb_ℤ, if◌then◌else◌, arith,
}
use patience.Backoff.Cap.{cap}
use patience.Backoff.HttpAware.{
  Parsers, Text, HttpAware, http_aware_delay, process_command_output, parse_retry_after_header,
  parse_rate_limit_headers, parse_json_response,
}

-- The part of the output that is read: 10 KiB of each stream, with a line break in between.
abbrev pub read_output : Text → Text → Text
read_output stdout stderr = take (10 * 1024) stdout ++ 10 ∷ take (10 * 1024) stderr

-- The first positive delay of a list, capped, or the fallback's.
abbrev pub first_positive : HttpAware → ℤ → List ℤ → ℤ
first_positive h attempt [] = h.fallback attempt
first_positive h attempt (d ∷ ds) =
    if ltb_ℤ (pos 0) d then cap h.max_retry_after d else first_positive h attempt ds

-- The delay of an attempt, after an output was read.
pub record IsServed (p : Parsers) (now : ℤ) (output : Text) (h : HttpAware) (attempt delay : ℤ)
    : Type 0 where
  pub choice :
      delay
      ≡ first_positive h attempt (
          parse_retry_after_header p output
          ∷ parse_rate_limit_headers p now output
          ∷ parse_json_response p output
          ∷ [])
  pub within : (delay ≡ h.fallback attempt) ⊎ ((pos 0 <ℤ delay) × (delay ≤ℤ h.max_retry_after))

-- With a maximum set, whatever a command writes, whatever was read before and whatever is parsed,
-- the next delay is the first positive one of the Retry-After header's, the rate limit headers' and
-- the JSON body's, capped, or else the fallback's; and it is the fallback's or lies above 0 and at
-- most at the maximum.
pub http_aware_delay-IsServed :
    (p : Parsers) (now : ℤ) (stdout stderr : Text) (h : HttpAware) (attempt : ℤ)
    → pos 0 <ℤ h.max_retry_after
    → IsServed p now
        (read_output stdout stderr)
        h
        attempt
        (http_aware_delay (process_command_output p now stdout stderr h) attempt)
unfolding http_aware_delay process_command_output cap
http_aware_delay-IsServed p now stdout stderr h attempt m = record {
  choice = ground arith;
  within = ground arith;
}
