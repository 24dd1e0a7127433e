-- ===== src/Patterns/Http/Safety.antt =====
-- An HTTP matcher that was made does not panic.
use patience.Base.{
  ℤ, ◌≡◌, refl, ◌≢◌, inl, inr, Bool, true, false, Option, none, some, List, [], ◌∷◌, All, String,
  Text, arith, Bool-cases, if◌then◌else◌, eqb_ℤ, is_empty, codes,
}
use patience.Backoff.Floats.{Floats}
use patience.Patterns.Compare.{Operator}
use patience.Patterns.JsonPattern
use patience.Patterns.JsonPattern.{
  Library, JsonMatcher, Verdict, verdict, not_json, crashed, made, refused, panicked, parse_pattern,
  match_with_context,
}
use patience.Patterns.JsonPattern.Safety.{
  IsParsed, parse_pattern-IsParsed, match-ne-crashed, match-IsParsed,
}
use patience.Patterns.Http.{HttpResponse, ApiType, default, no_context}
use patience.Patterns.Http.Contexts.{MessagePatterns}
use patience.Patterns.Http.Matching.{
  HttpPatternConfig, HttpPatternMatcher, MadeHttp, made_http, no_patterns, HttpOutcome,
  crashed_http,
}
use patience.Patterns.Http.Routing.{
  routed, by_header, by_api, by_status, by_answer, by_default, match_http_response, finish,
  unmatched, status_match, make_matchers, new_http_pattern_matcher, with_matcher,
}
use mathlib.Core.Path.{subst}

module _ (fl : Floats) (lib : Library fl) (order : Text → List Operator) where
  -- Each of these matchers was made from a pattern.
  abbrev pub AllParsed : List (ℤ × JsonMatcher fl) → Type 0
  AllParsed ms = All (λ (e : ℤ × JsonMatcher fl). IsParsed fl e.1) ms

  with_matcher-AllParsed :
      (config : HttpPatternConfig) (more : List (ℤ × JsonMatcher fl) → MadeHttp fl) (code : ℤ)
      (p : Text) (m : JsonPattern.Made (JsonMatcher fl)) (done : List (ℤ × JsonMatcher fl))
      (h : HttpPatternMatcher fl)
      → parse_pattern fl lib (order p) p ≡ m
      → AllParsed done
      → ((ms : List (ℤ × JsonMatcher fl))
          → AllParsed ms
          → more ms ≡ made_http h
          → AllParsed h.status_matchers)
      → with_matcher fl lib order config more code m done ≡ made_http h
      → AllParsed h.status_matchers
  with_matcher-AllParsed config more code p (made j) done h e parsed ih k =
      ih ((code, j) ∷ done) (parse_pattern-IsParsed fl lib (order p) p j e, parsed) k
  with_matcher-AllParsed config more code p (refused x) done h e parsed ih k =
      absurd (ground (arith, k))
  with_matcher-AllParsed config more code p panicked done h e parsed ih k =
      absurd (ground (arith, k))

  made_http-injective : (i h : HttpPatternMatcher fl) → made_http i ≡ made_http h → i ≡ h
  made_http-injective i h e = cc

  make_matchers-AllParsed :
      (config : HttpPatternConfig) (es : List (ℤ × Text)) (done : List (ℤ × JsonMatcher fl))
      (h : HttpPatternMatcher fl)
      → AllParsed done
      → make_matchers fl lib order config es done ≡ made_http h
      → AllParsed h.status_matchers
  unfolding make_matchers
  make_matchers-AllParsed config [] done h parsed e =
      subst (λ (x : HttpPatternMatcher fl). AllParsed x.status_matchers) (made_http-injective _ h e)
        parsed
  make_matchers-AllParsed config (p ∷ es) done h parsed e =
      with_matcher-AllParsed config (λ ms. make_matchers fl lib order config es ms) p.0 p.1 _ done h
        refl parsed (λ ms k same. make_matchers-AllParsed config es ms h k same) e

  new-AllParsed :
      (config : HttpPatternConfig) (h : HttpPatternMatcher fl)
      → new_http_pattern_matcher fl lib order config ≡ made_http h
      → AllParsed h.status_matchers
  unfolding new_http_pattern_matcher
  new-AllParsed config h e =
      made_with config.enable_status_routing (is_empty config.status_patterns) e
    where
      made_with :
          (routing empty : Bool)
          → (if routing
              then (if empty
                  then no_patterns
                  else make_matchers fl lib order config config.status_patterns [])
              else make_matchers fl lib order config [] [])
            ≡ made_http h
          → AllParsed h.status_matchers
      made_with true true k = absurd (ground (arith, k))
      made_with true false k = make_matchers-AllParsed config config.status_patterns [] h tt k
      made_with false empty k = make_matchers-AllParsed config [] [] h tt k

  status_match-AllParsed :
      (code : ℤ) (body : Text) (ms : List (ℤ × JsonMatcher fl))
      → AllParsed ms
      → AllParsed (status_match fl lib order code body ms).0
  unfolding status_match
  status_match-AllParsed code body [] h = tt
  status_match-AllParsed code body (e ∷ es) h = elim (Bool-cases (eqb_ℤ e.0 code)) [
    | inl here ↦ rw here (match-IsParsed fl lib e.1 [] body h.0, h.1)
    | inr later ↦ rw later (h.0, status_match-AllParsed code body es h.1)
  ]

  status_match-ne-crashed :
      (code : ℤ) (body : Text) (ms : List (ℤ × JsonMatcher fl))
      → AllParsed ms
      → (status_match fl lib order code body ms).1 ≢ crashed
  unfolding status_match
  status_match-ne-crashed code body [] h = λ e. ground (arith, e)
  status_match-ne-crashed code body (m ∷ ms) h = elim (Bool-cases (eqb_ℤ m.0 code)) [
    | inl here ↦ rw here (match-ne-crashed fl lib m.1 [] body h.0 tt)
    | inr later ↦ rw later (status_match-ne-crashed code body ms h.1)
  ]

  module _ (patterns : MessagePatterns) (h : HttpPatternMatcher fl) (response : HttpResponse) where
    -- An outcome that is no panic, and matchers that are still sound.
    abbrev IsSound : List (ℤ × JsonMatcher fl) × HttpOutcome → Type 0
    IsSound s = AllParsed s.0 × (s.1 ≢ crashed_http)

    default_tried :
        (api : ApiType) (fits : Bool)
        → (if fits
            then finish fl lib order patterns response api
                (codes h.config.default_pattern)
                default
                no_context
            else unmatched fl lib order patterns api)
          ≢ crashed_http
    default_tried api true = λ e. ground (arith, e)
    default_tried api false = λ e. ground (arith, e)

    by_default-ne-crashed :
        (api : ApiType) → by_default fl lib order patterns h response api ≢ crashed_http
    unfolding by_default
    by_default-ne-crashed api = default_tried api _

    by_answer-ne-crashed :
        (api : ApiType) (answer : Verdict)
        → answer ≢ crashed
        → by_answer fl lib order patterns h response api answer ≢ crashed_http
    by_answer-ne-crashed api (verdict true) k = λ e. ground (arith, e)
    by_answer-ne-crashed api (verdict false) k = by_default-ne-crashed api
    by_answer-ne-crashed api not_json k = by_default-ne-crashed api
    by_answer-ne-crashed api crashed k = absurd (k refl)

    by_status-IsSound :
        (api : ApiType)
        → AllParsed h.status_matchers
        → IsSound (by_status fl lib order patterns h response api)
    unfolding by_status
    by_status-IsSound api parsed = chosen h.config.enable_status_routing
      where
        chosen :
            (routing : Bool)
            → IsSound (
                if routing
                then (
                  (status_match fl lib order response.status_code response.body
                      h.status_matchers).0,
                  by_answer fl lib order patterns h response api
                      (status_match fl lib order response.status_code response.body
                        h.status_matchers).1,
                )
                else (h.status_matchers, by_default fl lib order patterns h response api))
        chosen true = (
          status_match-AllParsed response.status_code response.body h.status_matchers parsed,
          by_answer-ne-crashed api _
              (status_match-ne-crashed response.status_code response.body h.status_matchers parsed),
        )
        chosen false = (parsed, by_default-ne-crashed api)

    by_api-IsSound :
        (api : ApiType) (name : Option String)
        → AllParsed h.status_matchers
        → IsSound (by_api fl lib order patterns h response api name)
    by_api-IsSound api none parsed = by_status-IsSound api parsed
    by_api-IsSound api (some name) parsed = (parsed, λ e. ground (arith, e))

    by_header-IsSound :
        (api : ApiType) (name : Option (String × String))
        → AllParsed h.status_matchers
        → IsSound (by_header fl lib order patterns h response api name)
    by_header-IsSound api none parsed = by_api-IsSound api _ parsed
    by_header-IsSound api (some (name, pattern)) parsed = (parsed, λ e. ground (arith, e))

    routed-IsSound : AllParsed h.status_matchers → IsSound (routed fl lib order patterns h response)
    unfolding routed
    routed-IsSound parsed = by_header-IsSound _ _ parsed

  module _ (patterns : MessagePatterns) where
    match-AllParsed :
        (response : Option HttpResponse) (h : HttpPatternMatcher fl)
        → AllParsed h.status_matchers
        → AllParsed (match_http_response fl lib order patterns response h).0.status_matchers
    unfolding match_http_response
    match-AllParsed none h parsed = parsed
    match-AllParsed (some response) h parsed = (routed-IsSound patterns h response parsed).0

    -- The matcher after these responses.
    unfoldable pub served :
        List (Option HttpResponse) → HttpPatternMatcher fl → HttpPatternMatcher fl
    served [] h = h
    served (r ∷ rs) h = served rs (match_http_response fl lib order patterns r h).0

    served-AllParsed :
        (rs : List (Option HttpResponse)) (h : HttpPatternMatcher fl)
        → AllParsed h.status_matchers
        → AllParsed (served rs h).status_matchers
    unfolding served
    served-AllParsed [] h parsed = parsed
    served-AllParsed (r ∷ rs) h parsed = served-AllParsed rs _ (match-AllParsed r h parsed)

    match-ne-crashed_http :
        (response : Option HttpResponse) (h : HttpPatternMatcher fl)
        → AllParsed h.status_matchers
        → (match_http_response fl lib order patterns response h).1 ≢ crashed_http
    unfolding match_http_response
    match-ne-crashed_http none h parsed = λ e. ground (arith, e)
    match-ne-crashed_http (some response) h parsed = (routed-IsSound patterns h response parsed).1

    -- A matcher that was made from a configuration does not panic, whatever responses it is given.
    pub http_never_crashes :
        (config : HttpPatternConfig) (h : HttpPatternMatcher fl) (rs : List (Option HttpResponse))
        (response : Option HttpResponse)
        → new_http_pattern_matcher fl lib order config ≡ made_http h
        → (match_http_response fl lib order patterns response (served rs h)).1 ≢ crashed_http
    http_never_crashes config h rs response e =
        match-ne-crashed_http response (served rs h)
          (served-AllParsed rs h (new-AllParsed config h e))
