-- ===== src/Patterns/Http/Routing.antt =====
-- How the HTTP matcher is made and how it routes a response (pkg/patterns/http_pattern_matcher.go).
use patience.Base.{
  ◌+◌, ℤ, eqb_ℤ, true, false, not, ◌&&◌, Option, none, some, List, [], ◌∷◌, String, str_eq,
  if◌then◌else◌, Text, is_empty, codes,
}
use patience.Backoff.Floats.{Floats}
use patience.Patterns.Compare.{Operator}
use patience.Patterns.JsonPattern
use patience.Patterns.JsonPattern.{
  Library, JsonMatcher, MatchMetrics, no_metrics, PatternError, Verdict, verdict, not_json, crashed,
  parse_pattern, match_with_context, made, refused, panicked,
}
use patience.Patterns.Http.{
  HttpResponse, ApiType, PatternType, untyped, default, unknown, detect_api,
  get_pattern_type_from_status, no_context, Context,
}
use patience.Patterns.Http.Contexts.{MessagePatterns, extract_context_from_response}
use patience.Patterns.Http.Matching.{
  HttpPatternConfig, HttpPatternMatcher, MadeHttp, made_http, no_patterns, invalid_pattern,
  panicked_http, HttpOutcome, result, nil_response, crashed_http, header_match, api_match, names_of,
  same_api, match_pattern,
}

module _ (fl : Floats) (lib : Library fl) (order : Text → List Operator) where
  abbrev pub with_matcher :
      HttpPatternConfig
      → (List (ℤ × JsonMatcher fl) → MadeHttp fl)
      → ℤ
      → JsonPattern.Made (JsonMatcher fl)
      → List (ℤ × JsonMatcher fl)
      → MadeHttp fl
  with_matcher config more code (made j) done = more ((code, j) ∷ done)
  with_matcher config more code (refused e) done = invalid_pattern code e
  with_matcher config more code panicked done = panicked_http

  -- The matchers that are made so far, and the patterns that are left.
  unfoldable pub make_matchers :
      HttpPatternConfig → List (ℤ × Text) → List (ℤ × JsonMatcher fl) → MadeHttp fl
  make_matchers config [] done =
      made_http record { config = config; status_matchers = done; metrics = no_metrics }
  make_matchers config (e ∷ es) done =
      with_matcher config (λ ms. make_matchers config es ms) e.0
        (parse_pattern fl lib (order e.1) e.1) done

  unfoldable pub new_http_pattern_matcher : HttpPatternConfig → MadeHttp fl
  new_http_pattern_matcher config =
      if config.enable_status_routing
      then (if is_empty config.status_patterns
          then no_patterns
          else make_matchers config config.status_patterns [])
      else make_matchers config [] []

  unfoldable pub detect_api_type : HttpPatternMatcher fl → HttpResponse → ApiType
  detect_api_type h response =
      if h.config.enable_api_detection then detect_api (some response) else unknown

  -- The answer of the matcher of a status, and that matcher with its counters.
  unfoldable pub status_match :
      ℤ → Text → List (ℤ × JsonMatcher fl) → List (ℤ × JsonMatcher fl) × Verdict
  status_match code body [] = ([], verdict false)
  status_match code body (e ∷ es) =
      let (j, answer) = match_with_context fl lib e.1 [] body in
      let (rest, later) = status_match code body es in
      if eqb_ℤ e.0 code then ((e.0, j) ∷ es, answer) else (e ∷ rest, later)

  abbrev pub pattern_of : ℤ → List (ℤ × Text) → Text
  pattern_of code [] = []
  pattern_of code (e ∷ es) = let rest = pattern_of code es in if eqb_ℤ e.0 code then e.1 else rest

  module _ (patterns : MessagePatterns) where
    abbrev pub finish : HttpResponse → ApiType → Text → PatternType → Context → HttpOutcome
    finish response api name type context = result (
        extract_context_from_response patterns lib.unmarshal response record {
          matched = true;
          pattern_name = name;
          pattern_type = type;
          context = context;
          api_type = api;
        })

    abbrev pub unmatched : ApiType → HttpOutcome
    unmatched api = result record {
      matched = false;
      pattern_name = [];
      pattern_type = untyped;
      context = no_context;
      api_type = api;
    }

    -- The default pattern, at last.
    unfoldable pub by_default : HttpPatternMatcher fl → HttpResponse → ApiType → HttpOutcome
    by_default h response api =
        if not (str_eq h.config.default_pattern "")
          && match_pattern response h.config.default_pattern
        then finish response api (codes h.config.default_pattern) default no_context
        else unmatched api

    abbrev pub by_answer : HttpPatternMatcher fl → HttpResponse → ApiType → Verdict → HttpOutcome
    by_answer h response api (verdict true) =
        finish response api (pattern_of response.status_code h.config.status_patterns)
          (get_pattern_type_from_status response.status_code)
          (record no_context { status_code = some response.status_code })
    by_answer h response api (verdict false) = by_default h response api
    by_answer h response api not_json = by_default h response api
    by_answer h response api crashed = crashed_http

    -- The matchers of the statuses count; so they are returned with the outcome.
    unfoldable pub by_status :
        HttpPatternMatcher fl → HttpResponse → ApiType → List (ℤ × JsonMatcher fl) × HttpOutcome
    by_status h response api =
        let (matchers, answer) =
          status_match response.status_code response.body h.status_matchers in
        if h.config.enable_status_routing
        then (matchers, by_answer h response api answer)
        else (h.status_matchers, by_default h response api)

    abbrev pub by_api :
        HttpPatternMatcher fl
        → HttpResponse
        → ApiType
        → Option String
        → List (ℤ × JsonMatcher fl) × HttpOutcome
    by_api h response api none = by_status h response api
    by_api h response api (some name) = (
      h.status_matchers,
      finish response api (codes name) (get_pattern_type_from_status response.status_code)
          (record no_context { api_type = some api }),
    )

    abbrev pub by_header :
        HttpPatternMatcher fl
        → HttpResponse
        → ApiType
        → Option (String × String)
        → List (ℤ × JsonMatcher fl) × HttpOutcome
    by_header h response api none = by_api h response api (
        if h.config.enable_api_detection && not (same_api api unknown)
        then api_match response (names_of api h.config.api_patterns)
        else none)
    by_header h response api (some (name, pattern)) = (
      h.status_matchers,
      finish response api (codes pattern) (get_pattern_type_from_status response.status_code)
          (record no_context { matched_header = some name; api_type = some api }),
    )

    unfoldable pub routed :
        HttpPatternMatcher fl → HttpResponse → List (ℤ × JsonMatcher fl) × HttpOutcome
    routed h response = by_header h response (detect_api_type h response) (
        if h.config.enable_header_routing
        then header_match response h.config.header_patterns
        else none)

    -- The deferred function counts every call.
    abbrev pub counted : HttpOutcome → MatchMetrics → MatchMetrics
    counted nil_response m = record m {
      total_matches = m.total_matches + 1;
      error_count = m.error_count + 1;
    }
    counted crashed_http m = record m { total_matches = m.total_matches + 1 }
    counted (result r) m =
        if r.matched
        then record m {
          total_matches = m.total_matches + 1;
          successful_matches = m.successful_matches + 1;
        }
        else record m { total_matches = m.total_matches + 1; failed_matches = m.failed_matches + 1 }

    abbrev pub kept :
        HttpPatternMatcher fl
        → List (ℤ × JsonMatcher fl) × HttpOutcome
        → HttpPatternMatcher fl × HttpOutcome
    kept h (matchers, outcome) =
        (record h { status_matchers = matchers; metrics = counted outcome h.metrics }, outcome)

    unfoldable pub match_http_response :
        Option HttpResponse → HttpPatternMatcher fl → HttpPatternMatcher fl × HttpOutcome
    match_http_response none h = kept h (h.status_matchers, nil_response)
    match_http_response (some response) h = kept h (routed h response)
