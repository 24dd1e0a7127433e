-- ===== src/Discovery/Results.antt =====
-- The rate limit that is found in what a command writes (pkg/discovery/parser.go): by its headers, or else
-- by the JSON in it.
use patience.Base.{ℤ, pos, Option, none, some, List, ◌++◌, Text, codes, take, if◌then◌else◌}
use patience.Backoff.Floats.{Floats}
use patience.Patterns.Json.{Value, float, object, null, Fields, no_fields, get_field, Found, found}
use patience.Discovery.{RateLimitInfo, Source, http_header, json_body, confidence_score}
use patience.Discovery.Resources.{Resource, Url, extract_resource_info}
use patience.Discovery.Parsing.{
  HeaderPatterns, RateLimitHeaders, extract_rate_limit_headers, has_rate_limit_info, first_of,
  or_zero, Window, header_window, json_window, RateLimitObject, RateLimitJson, object_limit,
  object_remaining, has_json_rate_limit_info, json_part,
}

module _ (fl : Floats) where
  -- A number that encoding/json decoded, as an int.
  abbrev pub whole : Found (Value fl.Float) → Option ℤ
  whole (found (float x)) = some (fl.to_int x)
  whole _ = none

  abbrev pub int_field : Text → Fields fl.Float → Option ℤ
  int_field name values = whole (get_field name values)

  abbrev pub rate_limit_object : Found (Value fl.Float) → Option RateLimitObject
  rate_limit_object (found (object values)) = some record {
    limit = int_field (codes "limit") values;
    remaining = int_field (codes "remaining") values;
    reset = int_field (codes "reset") values;
  }
  rate_limit_object _ = none

  abbrev pub error_retry_after : Found (Value fl.Float) → Option ℤ
  error_retry_after (found (object values)) = int_field (codes "retry_after") values
  error_retry_after _ = none

  unfoldable pub extract_rate_limit_from_json : Fields fl.Float → RateLimitJson
  extract_rate_limit_from_json values = record {
    limit = int_field (codes "limit") values;
    remaining = int_field (codes "remaining") values;
    retry_after = int_field (codes "retry_after") values;
    retry_after_seconds = int_field (codes "retry_after_seconds") values;
    rate_limit = rate_limit_object (get_field (codes "rate_limit") values);
    error_retry_after = error_retry_after (get_field (codes "error") values);
  }

  -- A new record, observed once; its confidence is the score.
  abbrev pub scored : ℤ → RateLimitInfo fl → RateLimitInfo fl
  scored now info = record info { confidence = confidence_score fl now info }

  abbrev pub observed : ℤ → Resource → Source → ℤ → ℤ → Window → RateLimitInfo fl
  observed now r source limit remaining w = record {
    resource_id = r.resource_id;
    host = r.host;
    path = r.path;
    limit = limit;
    window = w.window;
    remaining = remaining;
    reset_time = w.reset_time;
    source = source;
    confidence = fl.of_int (pos 0);
    last_seen = now;
    observation_count = pos 1;
    successful_requests = pos 0;
    failed_requests = pos 0;
    last_429_response = none;
  }

  abbrev pub header_info : ℤ → Resource → RateLimitHeaders → RateLimitInfo fl
  header_info now r h = scored now (
      observed now r http_header
        (or_zero (first_of h.rate_limit (first_of h.github_limit h.twitter_limit)))
        (or_zero
          (first_of h.rate_limit_remaining (first_of h.github_remaining h.twitter_remaining)))
        (header_window now h))

  -- Nothing stands for a result that is not found.
  unfoldable pub parse_http_headers :
      HeaderPatterns → ℤ → Text → Resource → Option (RateLimitInfo fl)
  parse_http_headers p now output r =
      let h = extract_rate_limit_headers p output in
      if has_rate_limit_info h then some (header_info now r h) else none

  abbrev pub json_info : ℤ → Resource → RateLimitJson → RateLimitInfo fl
  json_info now r j = scored now (
      observed now r json_body (or_zero (first_of j.limit (object_limit j.rate_limit)))
        (or_zero (first_of j.remaining (object_remaining j.rate_limit))) (json_window now j))

  -- json.Unmarshal into a map: an object, or null for no map.
  abbrev pub fields_of : Option (Value fl.Float) → Option (Fields fl.Float)
  fields_of (some (object values)) = some values
  fields_of (some null) = some no_fields
  fields_of _ = none

  abbrev pub of_fields : ℤ → Resource → Option (Fields fl.Float) → Option (RateLimitInfo fl)
  of_fields now r none = none
  of_fields now r (some values) =
      let j = extract_rate_limit_from_json values in
      if has_json_rate_limit_info j then some (json_info now r j) else none

  abbrev pub decoded : (Text → Option (Value fl.Float)) → Option Text → Option (Fields fl.Float)
  decoded unmarshal none = none
  decoded unmarshal (some t) = fields_of (unmarshal t)

  unfoldable pub parse_json_response :
      (Text → Option (Value fl.Float)) → ℤ → Text → Resource → Option (RateLimitInfo fl)
  parse_json_response unmarshal now output r =
      of_fields now r (decoded unmarshal (json_part output))

  abbrev pub or_json :
      Option (RateLimitInfo fl) → Option (RateLimitInfo fl) → Option (RateLimitInfo fl)
  or_json (some info) later = some info
  or_json none later = later

  -- At most 50 KiB are looked at.
  abbrev pub examined : Text → Text → Text
  examined stdout stderr = take 51200 (stdout ++ codes "\n" ++ stderr)

  unfoldable pub parse_from_command_output :
      HeaderPatterns
      → (Text → Option Url)
      → (Text → Option (Value fl.Float))
      → ℤ
      → Text
      → Text
      → List Text
      → Option (RateLimitInfo fl)
  parse_from_command_output p parse_url unmarshal now stdout stderr command =
      let output = examined stdout stderr in
      let r = extract_resource_info parse_url command in
      or_json (parse_http_headers p now output r) (parse_json_response unmarshal now output r)
