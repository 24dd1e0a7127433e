-- ===== src/Examples/ResponseRuns.antt =====
-- The HTTP matcher at concrete inputs.
use patience.Base.{
  ◌≡◌, ◌≢◌, refl, pos, false, none, some, List, [], ◌∷◌, Text, codes, contains, same_text, index,
  has_prefix, is_empty, split, split_loop, trim, trim_left, trim_right, is_space, atoi, digits,
  arith, inl,
}
use patience.Examples.Thousandths.{thousandths}
use patience.Patterns.Regex.{Regex}
use patience.Patterns.Compare.{Operator}
use patience.Patterns.JsonPattern.{Library, operators, no_metrics}
use patience.Patterns.Http.{
  HttpResponse, HttpMatchResult, untyped, no_context, unknown, get, detect_api,
  get_pattern_type_from_status,
}
use patience.Patterns.Http.Contexts.{
  MessagePatterns, extract_context_from_response, extract_from_json_body, set_retry_strategy,
}
use patience.Patterns.Http.Advice.{get_backoff_recommendation}
use patience.Patterns.Http.Matching.{
  HttpPatternConfig, HttpPatternMatcher, default_http_pattern_config, made_http, result,
  crashed_http, header_match, HttpOutcome,
}
use patience.Patterns.Http.Routing.{
  match_http_response, new_http_pattern_matcher, make_matchers, routed, detect_api_type,
}
use patience.Patterns.Http.Parsing.{parse_http_response, read}
use patience.Patterns.Http.RoundTrip.{printed, put_all, parse_http_response-printed}
use patience.Patterns.Http.Extraction.{minute}
use patience.Patterns.Http.Retries.{retry_after_ignored}
use patience.Patterns.Http.Safety.{served, http_never_crashes}

abbrev never : Regex
never = record { match_string = λ t. false; find_submatch = λ t. []; find_all_submatch = λ t. [] }

abbrev messages : MessagePatterns
messages = record { resource_regex = never; namespace_regex = never; user_regex = never }

-- Nothing is JSON, and no expression compiles.
abbrev lib : Library thousandths
lib = record { compile = λ s. none; parse_float = λ s. none; unmarshal = λ s. none }

abbrev visited : Text → List Operator
visited s = operators

-- Only headers are routed.
abbrev config : HttpPatternConfig
config = record default_http_pattern_config { enable_status_routing = false }

abbrev matcher : HttpPatternMatcher thousandths
matcher = record { config = config; status_matchers = []; metrics = no_metrics }

abbrev limited : HttpResponse
limited = record {
  status_code = pos 429;
  headers =
      some ((codes "X-RateLimit-Limit", codes "60") ∷ (codes "Retry-After", codes "120") ∷ []);
  body = codes "slow down";
  url = codes "https://api.github.com";
}

is_made : new_http_pattern_matcher thousandths lib visited config ≡ made_http matcher
unfolding new_http_pattern_matcher make_matchers
is_made = refl

http_never_crashes_example :
    (match_http_response thousandths lib visited messages
      (some limited)
      (served thousandths lib visited messages (some limited ∷ none ∷ []) matcher)).1
    ≢ crashed_http
http_never_crashes_example =
    http_never_crashes thousandths lib visited messages config matcher (some limited ∷ none ∷ [])
      (some limited) is_made

abbrev limited_result : HttpMatchResult
limited_result =
    of_result (match_http_response thousandths lib visited messages (some limited) matcher).1
  where
    of_result : HttpOutcome → HttpMatchResult
    of_result (result r) = r
    of_result _ = record {
      matched = false;
      pattern_name = [];
      pattern_type = untyped;
      context = no_context;
      api_type = unknown;
    }

-- The response asks for two minutes.
retry_after_ignored_example :
    (get_backoff_recommendation (some limited_result)).initial_delay ≡ minute
unfolding match_http_response routed header_match detect_api_type detect_api get same_text contains
    index has_prefix extract_context_from_response extract_from_json_body set_retry_strategy
    get_pattern_type_from_status is_empty split split_loop atoi digits
retry_after_ignored_example =
    retry_after_ignored thousandths lib visited messages matcher limited limited_result refl refl
      refl (inl refl)

parse_http_response-printed_example :
    parse_http_response
      (printed (codes "503") ((codes "Server", codes "nginx 1.2") ∷ []) (codes "busy"))
    ≡ read record {
      status_code = pos 503;
      headers = some (put_all ((codes "Server", codes "nginx 1.2") ∷ []) []);
      body = codes "busy";
      url = [];
    }
unfolding atoi digits is_space trim trim_left trim_right is_empty
parse_http_response-printed_example =
    parse_http_response-printed (codes "503") (codes "busy")
      ((codes "Server", codes "nginx 1.2") ∷ []) (pos 503) (ground arith) refl
      (
        record {
          named = refl;
          plain = ground arith;
          no_colon = ground arith;
          one_line = ground arith;
          trimmed = refl;
        },
        tt,
      )
      refl
