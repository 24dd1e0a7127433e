-- ===== src/Patterns/Http/Retries.antt =====
-- What becomes of a Retry-After header, and which type a match has.
use patience.Base.{
  pos, ◌≡◌, refl, ◌⊎◌, inl, inr, ap, sym, ◌∙◌, Bool, true, false, Option, none, some, List, String,
  Text, arith, Bool-cases, if◌then◌else◌, eqb_ℤ, codes,
}
use patience.Backoff.Floats.{Floats}
use patience.Patterns.Compare.{Operator}
use patience.Patterns.JsonPattern.{Library, Verdict, verdict, not_json, crashed}
use patience.Patterns.Http.{
  HttpResponse, HttpMatchResult, ApiType, PatternType, default, rate_limit,
  get_pattern_type_from_status, no_context,
}
use patience.Patterns.Http.Contexts.{MessagePatterns, extract_context_from_response}
use patience.Patterns.Http.Advice.{recommended_delay, get_backoff_recommendation}
use patience.Patterns.Http.Matching.{HttpPatternMatcher, result}
use patience.Patterns.Http.Routing.{
  routed, by_header, by_api, by_status, by_answer, by_default, match_http_response, finish,
  unmatched,
}
use patience.Patterns.Http.Extraction.{minute, Overwrites, extract-pattern_type, extract-minute}

module _ (fl : Floats) (lib : Library fl) (order : Text → List Operator)
    (patterns : MessagePatterns) where
  -- A result that matched: what was known before the context was extracted. Its type is that of the
  -- response's status, or that of the default pattern.
  abbrev pub IsMatch : HttpResponse → HttpMatchResult → Type 0
  IsMatch response r =
      (before : HttpMatchResult) × (before.context.retry_after ≡ none)
      × ((before.pattern_type ≡ get_pattern_type_from_status response.status_code)
          ⊎ (before.pattern_type ≡ default))
      × (r ≡ extract_context_from_response patterns lib.unmarshal response before)

  module _ (h : HttpPatternMatcher fl) (response : HttpResponse) (r : HttpMatchResult)
      (is_match : r.matched ≡ true) where
    result-injective : {a : HttpMatchResult} → result a ≡ result r → r ≡ a
    result-injective e = cc

    default_tried :
        (api : ApiType) (fits : Bool)
        → (if fits
            then finish fl lib order patterns response api
                (codes h.config.default_pattern)
                default
                no_context
            else unmatched fl lib order patterns api)
          ≡ result r
        → IsMatch response r
    default_tried api true e = (_, refl, inr refl, result-injective e)
    default_tried api false e = absurd (ground (arith, e, is_match))

    by_default-IsMatch :
        (api : ApiType)
        → by_default fl lib order patterns h response api ≡ result r
        → IsMatch response r
    unfolding by_default
    by_default-IsMatch api e = default_tried api _ e

    by_answer-IsMatch :
        (api : ApiType) (answer : Verdict)
        → by_answer fl lib order patterns h response api answer ≡ result r
        → IsMatch response r
    by_answer-IsMatch api (verdict true) e = (_, refl, inl refl, result-injective e)
    by_answer-IsMatch api (verdict false) e = by_default-IsMatch api e
    by_answer-IsMatch api not_json e = by_default-IsMatch api e
    by_answer-IsMatch api crashed e = absurd (ground (arith, e))

    by_status-IsMatch :
        (api : ApiType)
        → (by_status fl lib order patterns h response api).1 ≡ result r
        → IsMatch response r
    unfolding by_status by_default
    by_status-IsMatch api e = elim (Bool-cases h.config.enable_status_routing) [
      | inl on ↦ by_answer-IsMatch api _ (rw on at e)
      | inr off ↦ by_default-IsMatch api (rw off at e)
    ]

    by_api-IsMatch :
        (api : ApiType) (name : Option String)
        → (by_api fl lib order patterns h response api name).1 ≡ result r
        → IsMatch response r
    by_api-IsMatch api none e = by_status-IsMatch api e
    by_api-IsMatch api (some name) e = (_, refl, inl refl, result-injective e)

    by_header-IsMatch :
        (api : ApiType) (name : Option (String × String))
        → (by_header fl lib order patterns h response api name).1 ≡ result r
        → IsMatch response r
    by_header-IsMatch api none e = by_api-IsMatch api _ e
    by_header-IsMatch api (some (name, pattern)) e = (_, refl, inl refl, result-injective e)

    routed-IsMatch : (routed fl lib order patterns h response).1 ≡ result r → IsMatch response r
    unfolding routed
    routed-IsMatch e = by_header-IsMatch _ _ e

  rate_limit-status :
      (response : HttpResponse) (t : PatternType)
      → (t ≡ get_pattern_type_from_status response.status_code) ⊎ (t ≡ default)
      → t ≡ rate_limit
      → eqb_ℤ response.status_code (pos 429) ≡ true
  unfolding get_pattern_type_from_status
  rate_limit-status response t (inl e) k = ground (arith, e, k)
  rate_limit-status response t (inr e) k = absurd (ground (arith, e, k))

  -- A match of the type of a rate limit is recommended a wait of one minute, whatever time its Retry-After
  -- header gives, unless the response reports Throttling in X-Amzn-ErrorType and no X-RateLimit-Limit.
  pub retry_after_ignored :
      (h : HttpPatternMatcher fl) (response : HttpResponse) (r : HttpMatchResult)
      → (match_http_response fl lib order patterns (some response) h).1 ≡ result r
      → r.matched ≡ true
      → r.pattern_type ≡ rate_limit
      → Overwrites patterns lib.unmarshal response
      → (get_backoff_recommendation (some r)).initial_delay ≡ minute
  unfolding match_http_response get_backoff_recommendation
  retry_after_ignored h response r e is_match type condition =
      let (before, fresh, origin, same) = routed-IsMatch h response r is_match e in
      let before_type : before.pattern_type ≡ rate_limit =
        sym (extract-pattern_type patterns lib.unmarshal response before)
        ∙ sym (ap (λ (x : HttpMatchResult). x.pattern_type) same)
        ∙ type in
      let is_limit = rate_limit-status response before.pattern_type origin before_type in
      let delay =
        ap (λ (x : HttpMatchResult). recommended_delay x.context.retry_after) same
        ∙ extract-minute patterns lib.unmarshal response before is_limit condition fresh in
      ground (arith, is_match, type, delay)

  -- The type of a match is that of the response's status, or that of the default pattern.
  pub match-pattern_type :
      (h : HttpPatternMatcher fl) (response : HttpResponse) (r : HttpMatchResult)
      → (match_http_response fl lib order patterns (some response) h).1 ≡ result r
      → r.matched ≡ true
      → (r.pattern_type ≡ get_pattern_type_from_status response.status_code)
        ⊎ (r.pattern_type ≡ default)
  unfolding match_http_response
  match-pattern_type h response r e is_match =
      let (before, fresh, origin, same) = routed-IsMatch h response r is_match e in
      let type =
        ap (λ (x : HttpMatchResult). x.pattern_type) same
        ∙ extract-pattern_type patterns lib.unmarshal response before in
      with_type type origin
    where
      with_type : {s t u v : PatternType} → s ≡ t → (t ≡ u) ⊎ (t ≡ v) → (s ≡ u) ⊎ (s ≡ v)
      with_type e (inl k) = inl (e ∙ k)
      with_type e (inr k) = inr (e ∙ k)
