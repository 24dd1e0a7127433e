-- ===== src/Patterns/Http/Extraction.antt =====
-- What the extraction of a context leaves of a match, and which wait it leads to.
use patience.Base.{
  ℤ, pos, ◌≡◌, refl, ◌⊎◌, inl, inr, ap, ◌∙◌, true, false, Option, none, some, Text, arith,
  Bool-cases, Option-cases, is_some, is_empty, atoi, eqb_ℤ,
}
use patience.Patterns.Json.{Value, Fields}
use patience.Patterns.Http.{
  HttpResponse, HttpMatchResult, ApiType, PatternType, Context, RetryAfter, header, github, aws,
  kubernetes, generic, unknown,
}
use patience.Patterns.Http.Contexts.{
  MessagePatterns, extract_context_from_response, extract_from_json_body, set_retry_strategy, fixed,
  number_or, from_headers, from_url, with_body, api_context, fields_of, throttled, or_old,
  header_retry,
}
use patience.Patterns.Http.Advice.{recommended_delay, delay_of}

-- One minute, which is recommended where no time is known.
abbrev pub minute : ℤ
minute = pos 60000000000

fixed-minute :
    (after reset : Option Text) (c : Context)
    → c.retry_after ≡ header_retry after
    → recommended_delay (fixed after reset c).retry_after ≡ minute
fixed-minute (some t) reset c h = at_number (atoi t) refl
  where
    at_number : (n : Option ℤ) → atoi t ≡ n → recommended_delay (number_or n c.retry_after) ≡ minute
    at_number (some n) e = refl
    at_number none e = ap recommended_delay h ∙ ap delay_of e
fixed-minute none (some t) c h = at_number (atoi t)
  where
    at_number : (n : Option ℤ) → recommended_delay (number_or n c.retry_after) ≡ minute
    at_number (some n) = refl
    at_number none = ap recommended_delay h
fixed-minute none none c h = ap recommended_delay h

module _ {F : Type 0} (patterns : MessagePatterns) (unmarshal : Text → Option (Value F)) where
  api_context-retry_after :
      (api : ApiType) (type : PatternType) (values : Fields F) (c : Context)
      → (api_context patterns api type values c).retry_after ≡ c.retry_after
  api_context-retry_after github type values c = ground arith
  api_context-retry_after aws type values c = refl
  api_context-retry_after kubernetes type values c = refl
  api_context-retry_after generic type values c = refl
  api_context-retry_after unknown type values c = refl

  with_body-retry_after :
      (fields : Option (Fields F)) (api : ApiType) (type : PatternType) (c : Context)
      → (with_body patterns fields api type c).retry_after ≡ c.retry_after
  with_body-retry_after none api type c = refl
  with_body-retry_after (some values) api type c = api_context-retry_after api type values c

  extract_from_json_body-retry_after :
      (response : HttpResponse) (r : HttpMatchResult)
      → (extract_from_json_body patterns unmarshal response r).context.retry_after
        ≡ r.context.retry_after
  unfolding extract_from_json_body
  extract_from_json_body-retry_after response r = elim (Bool-cases (is_empty response.body)) [
    | inl empty ↦ rw empty refl
    | inr full ↦ rw full (
        with_body-retry_after (fields_of patterns (unmarshal response.body)) r.api_type
          r.pattern_type r.context)
  ]

  pub extract-pattern_type :
      (response : HttpResponse) (r : HttpMatchResult)
      → (extract_context_from_response patterns unmarshal response r).pattern_type ≡ r.pattern_type
  unfolding extract_context_from_response set_retry_strategy extract_from_json_body
  extract-pattern_type response r = ground arith

  -- The condition under which a number in the header takes the place of its text.
  abbrev pub Overwrites : HttpResponse → Type 0
  Overwrites response =
      (is_some (header "X-RateLimit-Limit" response.headers) ≡ true)
      ⊎ (throttled (header "X-Amzn-ErrorType" response.headers) ≡ false)

  set_retry_strategy-minute :
      (response : HttpResponse) (r : HttpMatchResult)
      → eqb_ℤ response.status_code (pos 429) ≡ true
      → Overwrites response
      → r.context.retry_after ≡ header_retry (header "Retry-After" response.headers)
      → recommended_delay (set_retry_strategy response r).context.retry_after ≡ minute
  unfolding set_retry_strategy
  set_retry_strategy-minute response r is_limit condition h =
      let after = header "Retry-After" response.headers in
      let reset = header "X-Rate-Limit-Reset" response.headers in
      let number = fixed-minute after reset r.context h in
      elim (Option-cases response.headers) [
        | inl none_there ↦
            let absent = ap is_some none_there in
            let nothing = h ∙ ap (λ hs. header_retry (header "Retry-After" hs)) none_there in
            ground (arith, absent, nothing)
        | inr (hs, some_there) ↦
            let present = ap is_some some_there in
            ground (arith, present, number, is_limit, condition)
      ]

  or_old-none : (o : Option RetryAfter) → or_old o none ≡ o
  or_old-none none = refl
  or_old-none (some a) = refl

  from_url-retry_after : (url : Text) (c : Context) → (from_url url c).retry_after ≡ c.retry_after
  from_url-retry_after url c = ground arith

  pub extract-minute :
      (response : HttpResponse) (r : HttpMatchResult)
      → eqb_ℤ response.status_code (pos 429) ≡ true
      → Overwrites response
      → r.context.retry_after ≡ none
      → recommended_delay
          (extract_context_from_response patterns unmarshal response r).context.retry_after
        ≡ minute
  unfolding extract_context_from_response
  extract-minute response r is_limit condition h =
      let known = from_url response.url (from_headers response.headers r.context) in
      set_retry_strategy-minute response _ is_limit condition (
        extract_from_json_body-retry_after response (record r { context = known })
        ∙ from_url-retry_after response.url (from_headers response.headers r.context)
        ∙ ap (λ o. or_old (header_retry (header "Retry-After" response.headers)) o) h
        ∙ or_old-none (header_retry (header "Retry-After" response.headers)))
