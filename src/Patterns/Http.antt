-- ===== src/Patterns/Http.antt =====
-- HTTP responses and match results, and the detection of the API
-- (pkg/patterns/http_pattern_matcher.go). A nil map of headers is `none`.
pub mod Contexts
pub mod Advice
pub mod Parsing
pub mod Extraction
pub mod Retries
pub mod RoundTrip
pub mod Safety
pub mod Matching
pub mod Routing
use patience.Base.{
  ℕ, ℤ, pos, ◌*ℤ◌, leb_ℤ, ltb_ℤ, eqb_ℤ, wrap64, Bool, true, false, not, ◌&&◌, ◌||◌, Option, none,
  some, List, [], ◌∷◌, String, str_eq, if◌then◌else◌, Text, codes, is_empty, same_text, contains,
  split, atoi, is_some,
}

abbrev pub Headers : Type 0
Headers = List (Text × Text)

pub record HttpResponse : Type 0 where
  pub status_code : ℤ
  pub headers : Option Headers
  pub body : Text
  pub url : Text

pub data ApiType : Type 0 where
  github aws kubernetes generic unknown : ApiType

-- The types of a pattern; `untyped` is the empty string.
pub data PatternType : Type 0 where
  untyped success auth_error rate_limit client_error server_error unknown_status default :
      PatternType

-- The retry_after of a context: the header's text, or a float64 of a whole number.
pub data RetryAfter : Type 0 where
  header_text : Text → RetryAfter
  seconds : ℤ → RetryAfter

pub data RetryStrategy : Type 0 where
  fixed_delay exponential no_retry : RetryStrategy

-- The map of the context, as fields.
pub record Context : Type 0 where
  pub matched_header : Option String
  pub api_type : Option ApiType
  pub status_code : Option ℤ
  pub rate_limit : Option Text
  pub remaining : Option Text
  pub reset_time : Option Text
  pub retry_after : Option RetryAfter
  pub error_type : Option Text
  pub request_id : Option Text
  pub service : Option Text
  pub status : Option Text
  pub resource : Option Text
  pub namespace : Option Text
  pub user : Option Text
  pub retry_strategy : Option RetryStrategy

abbrev pub no_context : Context
no_context = record {
  matched_header = none;
  api_type = none;
  status_code = none;
  rate_limit = none;
  remaining = none;
  reset_time = none;
  retry_after = none;
  error_type = none;
  request_id = none;
  service = none;
  status = none;
  resource = none;
  namespace = none;
  user = none;
  retry_strategy = none;
}

pub record HttpMatchResult : Type 0 where
  pub matched : Bool
  pub pattern_name : Text
  pub pattern_type : PatternType
  pub context : Context
  pub api_type : ApiType

unfoldable pub get : Text → Headers → Option Text
get key [] = none
get key (e ∷ es) = let rest = get key es in if same_text e.0 key then some e.1 else rest

abbrev pub header : String → Option Headers → Option Text
header key none = none
header key (some headers) = get (codes key) headers

abbrev pub by_headers : Option Headers → ApiType → ApiType
by_headers headers other =
    if is_some (header "X-GitHub-Media-Type" headers)
    then github
    else if is_some (header "X-Amzn-ErrorType" headers)
    then aws
    else if is_some (header "X-Amzn-RequestId" headers)
    then aws
    else other

abbrev pub by_body : Text → ApiType
by_body body =
    if contains body (codes "\"kind\":\"Status\"") || contains body (codes "\"apiVersion\"")
    then kubernetes
    else generic

abbrev pub detected : HttpResponse → ApiType
detected response =
    let rest = by_headers response.headers (by_body response.body) in
    if contains response.url (codes "api.github.com") || contains response.url (codes "github.com")
    then github
    else if contains response.url (codes "amazonaws.com")
    then aws
    else if contains response.url (codes "kubernetes") || contains response.url (codes "k8s.io")
    then kubernetes
    else rest

-- An empty URL contains none of these texts.
unfoldable pub detect_api : Option HttpResponse → ApiType
detect_api none = unknown
detect_api (some response) = detected response

unfoldable pub get_pattern_type_from_status : ℤ → PatternType
get_pattern_type_from_status code =
    if leb_ℤ (pos 200) code && ltb_ℤ code (pos 300)
    then success
    else if eqb_ℤ code (pos 401) || eqb_ℤ code (pos 403)
    then auth_error
    else if eqb_ℤ code (pos 429)
    then rate_limit
    else if leb_ℤ (pos 400) code && ltb_ℤ code (pos 500)
    then client_error
    else if leb_ℤ (pos 500) code
    then server_error
    else unknown_status
