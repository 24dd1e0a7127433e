-- ===== src/Patterns/Sets/Validity.antt =====
-- What the validation of a set makes sure of.
use patience.Base.{
  ◌≡◌, refl, ◌≢◌, Bool, true, false, Option, some, none, List, [], ◌∷◌, All, Text, arith, String,
  ap, trim_prefix, All-map, ◌∙◌,
}
use patience.Backoff.Floats.{Floats}
use patience.Patterns.Json.{Value, Found, found, missing, panics}
use patience.Patterns.Json.Safety.{calm}
use patience.Patterns.Compare.{Operator}
use patience.Patterns.JsonPattern
use patience.Patterns.JsonPattern.{
  Library, JsonMatcher, made, refused, panicked, parse_pattern, Verdict, verdict, not_json, crashed,
  match_with_context, find_operator, halves, invalid_format,
}
use patience.Patterns.Compare.Safety.{scalar}
use patience.Patterns.JsonPattern.Safety.{parsed_never_crashes}
use patience.Patterns.JsonPattern.Orders.{VisitsKeys, IsUnambiguous, parse_pattern_any_order}
use patience.Patterns.Multiline
use patience.Patterns.Multiline.{MultilineMatcher, match}
use patience.Patterns.Sets.{
  PatternDefinition, PatternSet, Entry, SetError, tried, match_loop, match_set, try_pattern,
  result_of, validate, patterns_error, pattern_error, syntax_error, or_next, of_json, of_verdict,
  of_multiline, new_multiline, multiline_prefix, of_answer,
}
use patience.Patterns.Sets.Best.{In, of_In}

module _ (fl : Floats) (lib : Library fl) (order : Text → List Operator) where
  -- What parses, as a JSON pattern.
  abbrev Parses : Entry → Type 0
  Parses e = (j : JsonMatcher fl) × (parse_pattern fl lib (order e.1.pattern) e.1.pattern ≡ made j)

  syntax_error-made :
      (name : String) (m : JsonPattern.Made (JsonMatcher fl))
      → syntax_error fl lib order name m ≡ found none
      → (j : JsonMatcher fl) × (m ≡ made j)
  syntax_error-made name (made j) h = (j, refl)
  syntax_error-made name (refused e) h = absurd (ground (arith, h))
  syntax_error-made name panicked h = absurd (ground (arith, h))

  pattern_error-Parses : (e : Entry) → pattern_error fl lib order e ≡ found none → Parses e
  unfolding pattern_error
  pattern_error-Parses e h = syntax_error-made e.0 _ (ground (arith, h))

  both :
      (a b : Found (Option SetError))
      → or_next fl lib order a b ≡ found none
      → (a ≡ found none) × (b ≡ found none)
  both (found none) b h = (refl, h)
  both (found (some e)) b h = absurd (ground (arith, h))
  both missing b h = absurd (ground (arith, h))
  both panics b h = absurd (ground (arith, h))

  patterns_error-Parses :
      (es : List Entry) → patterns_error fl lib order es ≡ found none → All Parses es
  unfolding patterns_error
  patterns_error-Parses [] h = tt
  patterns_error-Parses (e ∷ es) h =
      let (first, rest) = both (pattern_error fl lib order e) (patterns_error fl lib order es) h in
      (pattern_error-Parses e first, patterns_error-Parses es rest)

  parse_pattern-none :
      (p : Text) (j : JsonMatcher fl)
      → find_operator (order p) p ≡ none
      → parse_pattern fl lib (order p) p ≢ made j
  unfolding parse_pattern halves
  parse_pattern-none p j h e = absurd (ground (arith, h, e))

  validate-Parses :
      (ps : PatternSet) → validate fl lib order ps ≡ found none → All Parses ps.patterns
  unfolding validate
  validate-Parses ps h = patterns_error-Parses ps.patterns (ground (arith, h))

  of_answer-calm : (o : Option Bool) → calm (of_answer fl lib order o) ≡ true
  of_answer-calm none = refl
  of_answer-calm (some b) = refl

  of_verdict-calm : (v : Verdict) → v ≢ crashed → calm (of_verdict fl lib order v) ≡ true
  of_verdict-calm (verdict b) h = refl
  of_verdict-calm not_json h = refl
  of_verdict-calm crashed h = absurd (h refl)

  of_multiline-calm :
      (input : Text) (m : Multiline.Made MultilineMatcher)
      → calm (of_multiline fl lib order input m) ≡ true
  of_multiline-calm input (Multiline.made m) = of_answer-calm ((match input m).1)
  of_multiline-calm input (Multiline.refused e) = refl

  module _ (context : List (Text × Value fl.Float)) (input : Text)
      (scalars : All (λ (c : Text × Value fl.Float). scalar c.1 ≡ true) context) where
    of_json-calm :
        (p : Text) (m : JsonPattern.Made (JsonMatcher fl)) (j : JsonMatcher fl)
        → parse_pattern fl lib (order p) p ≡ m
        → m ≡ made j
        → calm (of_json fl lib order context input m) ≡ true
    of_json-calm p (made i) j e h =
        of_verdict-calm _ (parsed_never_crashes fl lib (order p) p input i context e scalars)
    of_json-calm p (refused x) j e h = absurd (ground (arith, h))
    of_json-calm p panicked j e h = absurd (ground (arith, h))

    try_pattern-calm :
        (e : Entry) → Parses e → calm (try_pattern fl lib order context input e.1) ≡ true
    unfolding try_pattern
    try_pattern-calm e (j, h) = ground (
      arith,
      of_json-calm e.1.pattern (parse_pattern fl lib (order e.1.pattern) e.1.pattern) j refl h,
      of_multiline-calm input
          (new_multiline fl lib order (trim_prefix e.1.pattern multiline_prefix)),
    )

  tried-calm :
      (loop : Option Entry → Found (Option Entry))
      → ((b : Option Entry) → calm (loop b) ≡ true)
      → (e : Entry) (best : Option Entry) (v : Found Bool) → calm v ≡ true
      → calm (tried loop e best v) ≡ true
  tried-calm loop h e best (found true) k = h _
  tried-calm loop h e best (found false) k = h best
  tried-calm loop h e best missing k = h best
  tried-calm loop h e best panics k = k

  match_loop-calm :
      (try : PatternDefinition → Found Bool) (es : List Entry) (best : Option Entry)
      → All (λ (e : Entry). calm (try e.1) ≡ true) es
      → calm (match_loop try es best) ≡ true
  unfolding match_loop
  match_loop-calm try [] best h = refl
  match_loop-calm try (e ∷ es) best h =
      tried-calm (λ b. match_loop try es b) (λ b. match_loop-calm try es b h.1) e best (try e.1) h.0

  result_of-calm :
      (es : List Entry) (o : Found (Option Entry)) → calm o ≡ true → calm (result_of es o) ≡ true
  result_of-calm es (found none) h = refl
  result_of-calm es (found (some best)) h = refl
  result_of-calm es missing h = refl
  result_of-calm es panics h = h

  Parses-calm :
      (ps : PatternSet) (context : List (Text × Value fl.Float)) (input : Text)
      → All Parses ps.patterns
      → All (λ (c : Text × Value fl.Float). scalar c.1 ≡ true) context
      → match_set fl lib order ps context input ≢ panics
  unfolding match_set
  Parses-calm ps context input parses scalars crash =
      let tries = All-map (λ e p. try_pattern-calm context input scalars e p) ps.patterns parses in
      let calm_result =
        result_of-calm ps.patterns _ (
          match_loop-calm (λ p. try_pattern fl lib order context input p) ps.patterns none tries) in
      absurd (ground (arith, ap calm crash, calm_result))

  -- A pattern that holds none of the operators, as a multi-line pattern does, keeps a set from being valid.
  pub validate_needs_operator :
      (ps : PatternSet) (e : Entry)
      → In e ps.patterns
      → find_operator (order e.1.pattern) e.1.pattern ≡ none
      → validate fl lib order ps ≢ found none
  validate_needs_operator ps e inside none_found h =
      let (j, made_j) = of_In Parses e ps.patterns (validate-Parses ps h) inside in
      absurd (parse_pattern-none e.1.pattern j none_found made_j)

module _ (fl : Floats) (lib : Library fl) (order order' : Text → List Operator)
    (keys : (pattern : Text) → VisitsKeys (order pattern))
    (keys' : (pattern : Text) → VisitsKeys (order' pattern)) where
  reordered :
      (e : Entry) (o : Option Operator)
      → find_operator (order e.1.pattern) e.1.pattern ≡ o
      → IsUnambiguous e.1.pattern
      → Parses fl lib order e
      → Parses fl lib order' e
  reordered e none none_found few (j, made_j) =
      absurd (parse_pattern-none fl lib order e.1.pattern j none_found made_j)
  reordered e (some op) some_found few (j, made_j) = (
    j,
    parse_pattern_any_order fl lib e.1.pattern (order e.1.pattern) (order' e.1.pattern)
          (keys e.1.pattern) (keys' e.1.pattern) few op some_found
        ∙ made_j,
  )

  All-reordered :
      (es : List Entry)
      → All (λ (e : Entry). IsUnambiguous e.1.pattern) es
      → All (Parses fl lib order) es
      → All (Parses fl lib order') es
  All-reordered [] few parses = tt
  All-reordered (e ∷ es) few parses =
      (reordered e _ refl few.0 parses.0, All-reordered es few.1 parses.1)

  -- Matching any text against a set that passed the validation does not panic, whatever order Go visits
  -- the operators in when it validates the patterns and when it parses them again for the match, with any
  -- context that holds neither arrays nor objects, if each pattern contains at most one of the operators.
  pub validate-calm :
      (ps : PatternSet) (context : List (Text × Value fl.Float)) (input : Text)
      → All (λ (e : Entry). IsUnambiguous e.1.pattern) ps.patterns
      → validate fl lib order ps ≡ found none
      → All (λ (c : Text × Value fl.Float). scalar c.1 ≡ true) context
      → match_set fl lib order' ps context input ≢ panics
  validate-calm ps context input few valid scalars =
      Parses-calm fl lib order' ps context input
        (All-reordered ps.patterns few (validate-Parses fl lib order ps valid)) scalars
