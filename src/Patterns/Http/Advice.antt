-- ===== src/Patterns/Http/Advice.antt =====
-- The backoff that is recommended for an HTTP match (pkg/patterns/http_pattern_matcher.go).
use patience.Base.{ℕ, ℤ, pos, ◌*ℤ◌, wrap64, Option, none, some, if◌then◌else◌, atoi}
use patience.Patterns.Http.{
  HttpMatchResult, Context, PatternType, RetryAfter, success, auth_error, rate_limit, client_error,
  server_error, header_text,
}

pub data Strategy : Type 0 where
  none_needed fixed_strategy exponential_strategy : Strategy

pub record BackoffRecommendation : Type 0 where
  pub strategy : Strategy
  pub initial_delay : ℤ
  pub max_retries : ℕ
  pub max_delay : ℤ

abbrev pub no_backoff : BackoffRecommendation
no_backoff = record {
  strategy = none_needed;
  initial_delay = pos 0;
  max_retries = 0;
  max_delay = pos 0;
}

abbrev pub second : ℤ
second = pos 1000000000

abbrev pub delay_of : Option ℤ → ℤ
delay_of none = pos 60000000000
delay_of (some n) = wrap64 (n *ℤ second)

-- Only a text is read here, not a float64.
abbrev pub recommended_delay : Option RetryAfter → ℤ
recommended_delay (some (header_text t)) = delay_of (atoi t)
recommended_delay _ = pos 60000000000

abbrev pub by_pattern_type : PatternType → Context → BackoffRecommendation
by_pattern_type rate_limit c = record {
  strategy = fixed_strategy;
  initial_delay = recommended_delay c.retry_after;
  max_retries = 3;
  max_delay = pos 0;
}
by_pattern_type server_error c = record {
  strategy = exponential_strategy;
  initial_delay = second;
  max_retries = 5;
  max_delay = pos 30000000000;
}
by_pattern_type auth_error c = no_backoff
by_pattern_type client_error c = no_backoff
by_pattern_type success c = no_backoff
by_pattern_type _ c = record {
  strategy = exponential_strategy;
  initial_delay = second;
  max_retries = 3;
  max_delay = pos 10000000000;
}

unfoldable pub get_backoff_recommendation : Option HttpMatchResult → BackoffRecommendation
get_backoff_recommendation none = no_backoff
get_backoff_recommendation (some r) =
    if r.matched then by_pattern_type r.pattern_type r.context else no_backoff
