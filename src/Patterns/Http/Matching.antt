-- ===== src/Patterns/Http/Matching.antt =====
-- The HTTP matcher (pkg/patterns/http_pattern_matcher.go): its configuration, how it is made and how a
-- response is routed. Maps stand in the order in which Go visits them. Times are left out.
use patience.Base.{
  ℕ, ◌+◌, ℤ, pos, leb_ℤ, Bool, true, false, not, ◌&&◌, ◌||◌, Option, none, some, List, [], ◌∷◌,
  String, str_eq, if◌then◌else◌, Text, codes, is_empty, contains,
}
use patience.Backoff.Floats.{Floats}
use patience.Patterns.JsonPattern.{JsonMatcher, MatchMetrics, PatternError}
use patience.Patterns.Http.{
  HttpResponse, HttpMatchResult, ApiType, github, aws, kubernetes, generic, unknown, header,
}

pub record HttpPatternConfig : Type 0 where
  pub enable_status_routing : Bool
  pub enable_header_routing : Bool
  pub enable_api_detection : Bool
  pub status_patterns : List (ℤ × Text)
  pub header_patterns : List (String × String)
  pub api_patterns : List (ApiType × List String)
  pub default_pattern : String

abbrev pub default_http_pattern_config : HttpPatternConfig
default_http_pattern_config =
    let any = codes "$.* != null" in
    record {
      enable_status_routing = true;
      enable_header_routing = true;
      enable_api_detection = true;
      status_patterns =
          (pos 200, any)
          ∷ (pos 400, any)
          ∷ (pos 401, any)
          ∷ (pos 403, any)
          ∷ (pos 404, any)
          ∷ (pos 429, any)
          ∷ (pos 500, any)
          ∷ (pos 502, any)
          ∷ (pos 503, any)
          ∷ [];
      header_patterns =
          ("Content-Type", "json_error")
          ∷ ("X-RateLimit-Limit", "rate_limit_detailed")
          ∷ ("X-GitHub-Media-Type", "github_api_error")
          ∷ ("X-Amzn-ErrorType", "aws_throttling")
          ∷ [];
      api_patterns =
          (github, "github_rate_limit" ∷ "github_api_error" ∷ [])
          ∷ (aws, "aws_throttling" ∷ "aws_access_denied" ∷ [])
          ∷ (kubernetes, "k8s_forbidden" ∷ "k8s_not_found" ∷ "k8s_conflict" ∷ [])
          ∷ (generic, "generic_json_error" ∷ "generic_success" ∷ [])
          ∷ [];
      default_pattern = "generic_json_error";
    }

pub data ConfigError : Type 0 where
  no_status_patterns no_header_patterns no_api_patterns invalid_default : ConfigError
  empty_status invalid_status : ℤ → ConfigError
  empty_header invalid_header : String → ConfigError
  empty_api : ApiType → ConfigError
  empty_api_pattern invalid_api_pattern : ApiType → ℕ → ConfigError

abbrev pub first_error : Option ConfigError → Option ConfigError → Option ConfigError
first_error none rest = rest
first_error (some e) rest = some e

-- `compiles` says whether regexp.Compile accepts a text.
module _ (compiles : Text → Bool) where
  unfoldable pub status_error : List (ℤ × Text) → Option ConfigError
  status_error [] = none
  status_error (e ∷ es) =
      let rest = status_error es in
      if is_empty e.1
      then some (empty_status e.0)
      else if compiles e.1
      then rest
      else some (invalid_status e.0)

  unfoldable pub header_error : List (String × String) → Option ConfigError
  header_error [] = none
  header_error (e ∷ es) =
      let rest = header_error es in
      if str_eq e.1 ""
      then some (empty_header e.0)
      else if compiles (codes e.1)
      then rest
      else some (invalid_header e.0)

  unfoldable pub names_error : ApiType → ℕ → List String → Option ConfigError
  names_error api i [] = none
  names_error api i (name ∷ names) =
      let rest = names_error api (i + 1) names in
      if str_eq name ""
      then some (empty_api_pattern api i)
      else if compiles (codes name)
      then rest
      else some (invalid_api_pattern api i)

  unfoldable pub api_error : List (ApiType × List String) → Option ConfigError
  api_error [] = none
  api_error (e ∷ es) =
      first_error (if is_empty e.1 then some (empty_api e.0) else names_error e.0 0 e.1)
        (api_error es)

  unfoldable pub validate_http_pattern_config : HttpPatternConfig → Option ConfigError
  validate_http_pattern_config c =
      if c.enable_status_routing && is_empty c.status_patterns
      then some no_status_patterns
      else if c.enable_header_routing && is_empty c.header_patterns
      then some no_header_patterns
      else if c.enable_api_detection && is_empty c.api_patterns
      then some no_api_patterns
      else first_error (status_error c.status_patterns) (
          first_error (header_error c.header_patterns) (
            first_error (api_error c.api_patterns) (
              if not (str_eq c.default_pattern "") && not (compiles (codes c.default_pattern))
              then some invalid_default
              else none)))

abbrev pub same_api : ApiType → ApiType → Bool
same_api github github = true
same_api aws aws = true
same_api kubernetes kubernetes = true
same_api generic generic = true
same_api unknown unknown = true
same_api _ _ = false

abbrev pub names_of : ApiType → List (ApiType × List String) → List String
names_of api [] = []
names_of api (e ∷ es) = let rest = names_of api es in if same_api e.0 api then e.1 else rest

-- Whether the result has this response header, and what of it matches.
abbrev pub content_type_name : Text → HttpResponse → Option String
content_type_name value response =
    let error = contains response.body (codes "error") in
    let message = contains response.body (codes "message") in
    let missing_page =
      error || contains response.body (codes "Not Found") || leb_ℤ (pos 400) response.status_code in
    if contains value (codes "application/json") && (error || message)
    then some "json_error"
    else if contains value (codes "application/xml") && (error || message)
    then some "xml_error"
    else if contains value (codes "text/html") && missing_page
    then some "html_error"
    else none

abbrev pub header_name : String × String → HttpResponse → Option Text → Option String
header_name e response none = none
header_name e response (some value) =
    if str_eq e.0 "Content-Type" then content_type_name value response else some e.1

-- The first header that matches, with the pattern's name.
unfoldable pub header_match : HttpResponse → List (String × String) → Option (String × String)
header_match response [] = none
header_match response (e ∷ es) = elim (header_name e response (header e.0 response.headers)) [
  | some name ↦ some (e.0, name)
  | none ↦ header_match response es
]

-- A named pattern matches any body that is not empty.
unfoldable pub match_pattern : HttpResponse → String → Bool
match_pattern response name = not (is_empty response.body)

unfoldable pub api_match : HttpResponse → List String → Option String
api_match response [] = none
api_match response (name ∷ names) =
    let rest = api_match response names in if match_pattern response name then some name else rest

pub record HttpPatternMatcher (fl : Floats) : Type 0 where
  pub config : HttpPatternConfig
  pub status_matchers : List (ℤ × JsonMatcher fl)
  pub metrics : MatchMetrics

pub data MadeHttp (fl : Floats) : Type 0 where
  made_http : HttpPatternMatcher fl → MadeHttp fl
  no_patterns : MadeHttp fl
  invalid_pattern : ℤ → PatternError → MadeHttp fl
  panicked_http : MadeHttp fl

-- A result, the error of a nil response, or a panic.
pub data HttpOutcome : Type 0 where
  result : HttpMatchResult → HttpOutcome
  nil_response : HttpOutcome
  crashed_http : HttpOutcome
