-- ===== src/Discovery/Windows.antt =====
-- The window of a rate limit that was found.
use patience.Base.{
  ℤ, pos, negsuc, ◌*ℤ◌, ◌≤ℤ◌, ◌<ℤ◌, ◌≡◌, refl, ◌⊎◌, inl, inr, Bool, true, false, Option, none, some,
  List, Text, arith, Bool-cases, if◌then◌else◌, ltb_ℤ, wrap64, ltb_ℤ→lt,
}
use mathlib.Core.Path.{subst}
use patience.Backoff.Floats.{Floats}
use patience.Patterns.Json.{Value, Fields}
use patience.Discovery.{RateLimitInfo, http_header, json_body}
use patience.Discovery.Resources.{Url, extract_resource_info, Resource}
use patience.Discovery.Parsing.{
  HeaderPatterns, RateLimitHeaders, extract_rate_limit_headers, RateLimitJson, Window, until,
  after_seconds, or_hour, window_by, header_window, json_window, json_retry, first_of, instant_of,
  object_reset, has_rate_limit_info, has_json_rate_limit_info, json_part,
}
use patience.Discovery.Results.{
  parse_from_command_output, parse_http_headers, parse_json_response, examined, of_fields, decoded,
  header_info, json_info, extract_rate_limit_from_json,
}

-- A number of seconds, not negative, that a duration holds.
abbrev pub FitsDuration : ℤ → Type 0
FitsDuration n = (pos 0 ≤ℤ n) × (n ≤ℤ pos 9223372036)

abbrev NotNegative : Window → Type 0
NotNegative w = pos 0 ≤ℤ w.window

or_hour-positive : (now : ℤ) (w : Window) → NotNegative w → pos 0 <ℤ (or_hour now w).window
or_hour-positive now w h = ground (arith, h)

until-NotNegative : (now reset : ℤ) → NotNegative (until now reset)
unfolding until
until-NotNegative now reset = ground arith

after_seconds-NotNegative : (now n : ℤ) → FitsDuration n → NotNegative (after_seconds now n)
unfolding after_seconds wrap64 ◌*ℤ◌
after_seconds-NotNegative now (pos n) h = ground (arith, h.0, h.1)
after_seconds-NotNegative now (negsuc n) h = absurd (ground (arith, h.0))

window_by-NotNegative :
    (now : ℤ) (reset retry : Option ℤ)
    → ((n : ℤ) → retry ≡ some n → FitsDuration n)
    → NotNegative (window_by now reset retry)
window_by-NotNegative now (some t) retry h = until-NotNegative now t
window_by-NotNegative now none (some n) h = after_seconds-NotNegative now n (h n refl)
window_by-NotNegative now none none h = omega arith

header_window-positive :
    (now : ℤ) (h : RateLimitHeaders)
    → ((n : ℤ) → h.retry_after ≡ some n → FitsDuration n)
    → pos 0 <ℤ (header_window now h).window
unfolding header_window
header_window-positive now h fits =
    let reset = first_of h.rate_limit_reset (first_of h.github_reset h.twitter_reset) in
    or_hour-positive now (window_by now reset h.retry_after)
      (window_by-NotNegative now reset h.retry_after fits)

json_window-positive :
    (now : ℤ) (j : RateLimitJson)
    → json_retry j ≤ℤ pos 9223372036
    → pos 0 <ℤ (json_window now j).window
unfolding json_window
json_window-positive now j fits = elim (Bool-cases (ltb_ℤ (pos 0) (json_retry j))) [
  | inl given ↦
      let positive = ltb_ℤ→lt (pos 0) (json_retry j) given in
      let window = after_seconds now (json_retry j) in
      let later =
        or_hour-positive now window
          (after_seconds-NotNegative now (json_retry j) (omega (arith, positive), fits)) in
      ground (arith, given, later)
  | inr absent ↦
      let reset = instant_of (object_reset j.rate_limit) in
      let later =
        or_hour-positive now (window_by now reset none)
          (window_by-NotNegative now reset none (λ n e. absurd (ground (arith, e)))) in
      ground (arith, absent, later)
]

module _ (fl : Floats) (p : HeaderPatterns) (parse_url : Text → Option Url)
    (unmarshal : Text → Option (Value fl.Float)) where
  -- Where a rate limit was found, and what is known of it.
  abbrev pub IsFound : Text → RateLimitInfo fl → Type 0
  IsFound output info =
      (pos 0 <ℤ info.window)
      × (info.observation_count ≡ pos 1)
      × (((info.source ≡ http_header)
            × (has_rate_limit_info (extract_rate_limit_headers p output) ≡ true))
          ⊎ ((info.source ≡ json_body)
              × (has_rate_limit_info (extract_rate_limit_headers p output) ≡ false)))

  some-injective : {x y : RateLimitInfo fl} → some x ≡ some y → x ≡ y
  some-injective e = cc

  of_headers :
      (now : ℤ) (output : Text) (r : Resource) (info : RateLimitInfo fl) (b : Bool)
      → has_rate_limit_info (extract_rate_limit_headers p output) ≡ b
      → ((n : ℤ) → (extract_rate_limit_headers p output).retry_after ≡ some n → FitsDuration n)
      → (if b then some (header_info fl now r (extract_rate_limit_headers p output)) else none)
        ≡ some info
      → IsFound output info
  of_headers now output r info true has fits e =
      subst (IsFound output) (some-injective e) (
        header_window-positive now (extract_rate_limit_headers p output) fits,
        refl,
        inl (refl, has),
      )
  of_headers now output r info false has fits e = absurd (ground (arith, e))

  of_values :
      (now : ℤ) (output : Text) (r : Resource) (info : RateLimitInfo fl)
      (values : Option (Fields fl.Float))
      → has_rate_limit_info (extract_rate_limit_headers p output) ≡ false
      → ((v : Fields fl.Float)
          → values ≡ some v
          → json_retry (extract_rate_limit_from_json fl v) ≤ℤ pos 9223372036)
      → of_fields fl now r values ≡ some info
      → IsFound output info
  of_values now output r info none has fits e = absurd (ground (arith, e))
  of_values now output r info (some v) has fits e = judged (has_json_rate_limit_info j) e
    where
      j : RateLimitJson
      j = extract_rate_limit_from_json fl v

      judged :
          (b : Bool)
          → (if b then some (json_info fl now r j) else none) ≡ some info
          → IsFound output info
      judged true k =
          subst (IsFound output) (some-injective k)
            (json_window-positive now j (fits v refl), refl, inr (refl, has))
      judged false k = absurd (ground (arith, k))

  -- What is found in a command's output has been observed once and has a window above 0; it comes from the
  -- headers if there is any of them, and only else from JSON. The seconds to wait that the headers and
  -- the JSON give fit into a duration, and those of the headers are not negative.
  pub parse_from_command_output-IsFound :
      (now : ℤ) (stdout stderr : Text) (command : List Text) (info : RateLimitInfo fl)
      → ((n : ℤ)
          → (extract_rate_limit_headers p (examined fl stdout stderr)).retry_after ≡ some n
          → FitsDuration n)
      → ((v : Fields fl.Float)
          → decoded fl unmarshal (json_part (examined fl stdout stderr)) ≡ some v
          → json_retry (extract_rate_limit_from_json fl v) ≤ℤ pos 9223372036)
      → parse_from_command_output fl p parse_url unmarshal now stdout stderr command ≡ some info
      → IsFound (examined fl stdout stderr) info
  unfolding parse_from_command_output parse_http_headers parse_json_response
  parse_from_command_output-IsFound now stdout stderr command info headers json e =
      elim (Bool-cases (has_rate_limit_info (extract_rate_limit_headers p output))) [
        | inl has ↦ of_headers now output r info true has headers (rw has at e)
        | inr hasnt ↦ of_values now output r info _ hasnt json (rw hasnt at e)
      ]
    where
      output : Text
      output = examined fl stdout stderr

      r : Resource
      r = extract_resource_info parse_url command
