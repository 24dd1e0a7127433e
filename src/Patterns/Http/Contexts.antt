-- ===== src/Patterns/Http/Contexts.antt =====
-- The context of an HTTP match (pkg/patterns/http_pattern_matcher.go): what is taken from the headers,
-- the URL and the body, and the retry strategy.
use patience.Base.{
  ℤ, pos, eqb_ℤ, Bool, true, false, Option, none, some, List, [], ◌∷◌, if◌then◌else◌, Text, codes,
  is_empty, same_text, contains, split, atoi, is_some,
}
use patience.Patterns.Json.{Value, text, Fields, no_fields, get_field, Found, found, object, null}
use patience.Patterns.Multiline.{first_group}
use patience.Patterns.Regex.{Regex}
use patience.Patterns.Http.{
  HttpResponse, HttpMatchResult, Context, Headers, ApiType, PatternType, RetryAfter, RetryStrategy,
  github, aws, kubernetes, generic, unknown, auth_error, rate_limit, server_error, header_text,
  seconds, fixed_delay, exponential, no_retry, header,
}

abbrev pub or_old {ℓ} : {A : Type ℓ} → Option A → Option A → Option A
or_old none old = old
or_old (some a) old = some a

abbrev pub header_retry : Option Text → Option RetryAfter
header_retry none = none
header_retry (some t) = some (header_text t)

abbrev pub from_headers : Option Headers → Context → Context
from_headers headers c = record c {
  rate_limit = or_old (header "X-RateLimit-Limit" headers) c.rate_limit;
  remaining = or_old (header "X-RateLimit-Remaining" headers) c.remaining;
  reset_time = or_old (header "X-RateLimit-Reset" headers) c.reset_time;
  retry_after = or_old (header_retry (header "Retry-After" headers)) c.retry_after;
  error_type = or_old (header "X-Amzn-ErrorType" headers) c.error_type;
  request_id = or_old (header "X-Amzn-RequestId" headers) c.request_id;
}

abbrev pub first_part : List Text → Text
first_part [] = []
first_part (t ∷ ts) = t

abbrev pub second_part : List Text → Option Text
second_part (a ∷ b ∷ cs) = some b
second_part _ = none

-- The service is the first label of the URL's host.
abbrev pub from_url : Text → Context → Context
from_url url c =
    if contains url (codes "amazonaws.com")
    then record c {
      service =
          or_old (second_part (split (first_part (split url (codes "."))) (codes "://"))) c.service;
    }
    else c

abbrev pub string_field : {F : Type 0} → Found (Value F) → Option Text
string_field (found (text t)) = some t
string_field _ = none

-- A field of the body that is a string.
abbrev pub body_string : {F : Type 0} → Text → Fields F → Option Text
body_string name values = string_field (get_field name values)

abbrev pub group : Regex → Option Text → Option Text
group regex none = none
group regex (some message) = first_group (regex.find_submatch message)

-- The three expressions of parseKubernetesMessage, compiled.
pub record MessagePatterns : Type 0 where
  pub resource_regex : Regex
  pub namespace_regex : Regex
  pub user_regex : Regex

abbrev pub limits : PatternType → Bool
limits rate_limit = true
limits auth_error = true
limits _ = false

module _ {F : Type 0} (patterns : MessagePatterns) where
  abbrev pub kubernetes_context : Fields F → Context → Context
  kubernetes_context values c =
      let message = body_string (codes "message") values in
      record c {
        error_type = or_old (body_string (codes "reason") values) c.error_type;
        resource = or_old (group patterns.resource_regex message) c.resource;
        namespace = or_old (group patterns.namespace_regex message) c.namespace;
        user = or_old (group patterns.user_regex message) c.user;
      }

  abbrev pub api_context : ApiType → PatternType → Fields F → Context → Context
  api_context github type values c =
      if limits type then record c { error_type = some (codes "rate_limit") } else c
  api_context aws type values c = record c {
    error_type = or_old (body_string (codes "__type") values) c.error_type;
  }
  api_context kubernetes type values c = kubernetes_context values c
  api_context generic type values c = record c {
    status = or_old (body_string (codes "status") values) c.status;
  }
  api_context unknown type values c = c

  abbrev pub with_body : Option (Fields F) → ApiType → PatternType → Context → Context
  with_body none api type c = c
  with_body (some values) api type c =
      let specific = api_context api type values c in
      record specific { status = or_old (body_string (codes "status") values) specific.status }

  -- json.Unmarshal into a map: an object, or null for no map; `unmarshal` is into an interface{}.
  abbrev pub fields_of : Option (Value F) → Option (Fields F)
  fields_of (some (object values)) = some values
  fields_of (some null) = some no_fields
  fields_of _ = none

  unfoldable pub extract_from_json_body :
      (Text → Option (Value F)) → HttpResponse → HttpMatchResult → HttpMatchResult
  extract_from_json_body unmarshal response r = if is_empty response.body then r else record r {
    context = with_body (fields_of (unmarshal response.body)) r.api_type r.pattern_type r.context;
  }

abbrev pub number_or : Option ℤ → Option RetryAfter → Option RetryAfter
number_or none old = old
number_or (some n) old = some (seconds n)

-- The float64 takes the place of the header's text, if the header is a number.
abbrev pub fixed : Option Text → Option Text → Context → Context
fixed (some after) reset c = record c {
  retry_strategy = some fixed_delay;
  retry_after = number_or (atoi after) c.retry_after;
}
fixed none (some reset) c = record c {
  retry_strategy = some fixed_delay;
  retry_after = number_or (atoi reset) c.retry_after;
}
fixed none none c = record c { retry_strategy = some fixed_delay }

abbrev pub by_type : PatternType → RetryStrategy
by_type rate_limit = fixed_delay
by_type server_error = exponential
by_type _ = no_retry

abbrev pub throttled : Option Text → Bool
throttled none = false
throttled (some t) = same_text t (codes "Throttling")

unfoldable pub set_retry_strategy : HttpResponse → HttpMatchResult → HttpMatchResult
set_retry_strategy response r =
    let after = header "Retry-After" response.headers in
    let reset = header "X-Rate-Limit-Reset" response.headers in
    let fallback = record r.context { retry_strategy = some (by_type r.pattern_type) } in
    record r {
      context =
          if is_some response.headers
          then (if is_some (header "X-RateLimit-Limit" response.headers)
              then fixed after reset r.context
              else if throttled (header "X-Amzn-ErrorType" response.headers)
              then record r.context { retry_strategy = some exponential }
              else if eqb_ℤ response.status_code (pos 429)
              then fixed after reset r.context
              else fallback)
          else fallback;
    }

unfoldable pub extract_context_from_response :
    {F : Type 0}
    → MessagePatterns
    → (Text → Option (Value F))
    → HttpResponse
    → HttpMatchResult
    → HttpMatchResult
extract_context_from_response patterns unmarshal response r =
    let known = from_url response.url (from_headers response.headers r.context) in
    set_retry_strategy response
      (extract_from_json_body patterns unmarshal response (record r { context = known }))
