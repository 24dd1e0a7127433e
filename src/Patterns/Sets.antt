-- ===== src/Patterns/Sets.antt =====
-- Pattern sets (pkg/patterns/pattern_set.go). Go visits the map of the patterns in any order: a set holds
-- them in the order in which they are visited. Metadata, times and the reading of YAML are left out.
pub mod Best
pub mod Validity
pub mod Words
use patience.Base.{
  ℕ, ltb, leb, ◌==◌, Bool, true, false, Option, none, some, List, [], ◌∷◌, String, Text, codes,
  is_empty, same_text, has_prefix, trim_prefix, to_lower, select, if◌then◌else◌, is_some,
}
use patience.Backoff.Floats.{Floats}
use patience.Patterns.Regex.{Regex}
use patience.Patterns.Json.{Value, Found, found, missing, panics}
use patience.Patterns.Compare.{Operator}
use patience.Patterns.JsonPattern
use patience.Patterns.JsonPattern.{
  Library, parse_pattern, match_with_context, Verdict, verdict, not_json, crashed, made, refused,
  panicked, JsonMatcher, PatternError,
}
use patience.Patterns.Multiline
use patience.Patterns.Multiline.{
  MultilineMatcher, find_predefined, new_multi_line_pattern_matcher,
  new_stack_trace_pattern_matcher, new_structured_log_pattern_matcher, match,
}
use patience.Patterns.Multiline.Tables.{stack_trace_patterns, structured_log_patterns}

pub data Priority : Type 0 where
  priority_low priority_medium priority_high priority_critical : Priority

pub data Category : Type 0 where
  category_success category_error category_warning category_info category_retry : Category

-- The number that the source gives the constant.
abbrev pub rank : Priority → ℕ
rank priority_low = 0
rank priority_medium = 1
rank priority_high = 2
rank priority_critical = 3

abbrev pub category_number : Category → ℕ
category_number category_success = 0
category_number category_error = 1
category_number category_warning = 2
category_number category_info = 3
category_number category_retry = 4

unfoldable pub priority_string : Priority → Text
priority_string priority_low = codes "low"
priority_string priority_medium = codes "medium"
priority_string priority_high = codes "high"
priority_string priority_critical = codes "critical"

unfoldable pub category_string : Category → Text
category_string category_success = codes "success"
category_string category_error = codes "error"
category_string category_warning = codes "warning"
category_string category_info = codes "info"
category_string category_retry = codes "retry"

-- UnmarshalYAML of a node that decodes to this text.
unfoldable pub unmarshal_priority : (ℕ → ℕ) → Text → Option Priority
unmarshal_priority unicode s =
    let word = to_lower unicode s in
    if same_text word (codes "low")
    then some priority_low
    else if same_text word (codes "medium")
    then some priority_medium
    else if same_text word (codes "high")
    then some priority_high
    else if same_text word (codes "critical")
    then some priority_critical
    else none

unfoldable pub unmarshal_category : (ℕ → ℕ) → Text → Option Category
unmarshal_category unicode s =
    let word = to_lower unicode s in
    if same_text word (codes "success")
    then some category_success
    else if same_text word (codes "error")
    then some category_error
    else if same_text word (codes "warning")
    then some category_warning
    else if same_text word (codes "info")
    then some category_info
    else if same_text word (codes "retry")
    then some category_retry
    else none

pub record PatternDefinition : Type 0 where
  pub pattern : Text
  pub description : Text
  pub priority : Priority
  pub category : Category
  pub tags : List Text

-- A key of the map and its value.
abbrev pub Entry : Type 0
Entry = String × PatternDefinition

pub record PatternSet : Type 0 where
  pub name : Text
  pub version : Text
  pub patterns : List Entry

-- The pattern is a pointer to the loop variable.
pub record SetMatch : Type 0 where
  pub pattern_name : String
  pub pattern : PatternDefinition

pub data SetError : Type 0 where
  no_name no_version no_patterns : SetError
  empty_pattern empty_description : String → SetError
  invalid_syntax : String → PatternError → SetError

abbrev pub multiline_prefix : Text
multiline_prefix = codes "multiline:"

-- Before the first match the best priority is -1.
abbrev pub outranks : Entry → Option Entry → Bool
outranks e none = true
outranks e (some best) = ltb (rank best.1.priority) (rank e.1.priority)

abbrev pub tried :
    (Option Entry → Found (Option Entry)) → Entry → Option Entry → Found Bool → Found (Option Entry)
tried loop e best (found true) = loop (if outranks e best then some e else best)
tried loop e best (found false) = loop best
tried loop e best missing = loop best
tried loop e best panics = panics

-- The best entry, or a panic.
unfoldable pub match_loop :
    (PatternDefinition → Found Bool) → List Entry → Option Entry → Found (Option Entry)
match_loop try [] best = found best
match_loop try (e ∷ es) best = tried (λ b. match_loop try es b) e best (try e.1)

-- The loop variable after the loop. The module is compiled with the semantics of Go 1.21, where all
-- rounds share the variable.
unfoldable pub last_visited : PatternDefinition → List Entry → PatternDefinition
last_visited p [] = p
last_visited p (e ∷ es) = last_visited e.1 es

abbrev pub result_of : List Entry → Found (Option Entry) → Found (Option SetMatch)
result_of es (found none) = found none
result_of es (found (some best)) =
    found (some record { pattern_name = best.0; pattern = last_visited best.1 es })
result_of es missing = missing
result_of es panics = panics

-- `order` is the order in which the operators are visited when a pattern is parsed.
module _ (fl : Floats) (lib : Library fl) (order : Text → List Operator) where
  abbrev pub of_answer : Option Bool → Found Bool
  of_answer none = missing
  of_answer (some b) = found b

  -- A pattern that errs, when it is made or when it is matched, is skipped.
  abbrev pub of_multiline : Text → Multiline.Made MultilineMatcher → Found Bool
  of_multiline input (Multiline.made m) = of_answer ((match input m).1)
  of_multiline input (Multiline.refused e) = missing

  abbrev pub of_verdict : Verdict → Found Bool
  of_verdict (verdict b) = found b
  of_verdict not_json = missing
  of_verdict crashed = panics

  abbrev pub of_json :
      List (Text × Value fl.Float) → Text → JsonPattern.Made (JsonMatcher fl) → Found Bool
  of_json context input (made j) = of_verdict ((match_with_context fl lib j context input).1)
  of_json context input (refused e) = missing
  of_json context input panicked = panics

  unfoldable pub new_multiline : Text → Multiline.Made MultilineMatcher
  new_multiline pattern =
      if is_some (find_predefined stack_trace_patterns pattern)
      then new_stack_trace_pattern_matcher lib.compile pattern
      else if is_some (find_predefined structured_log_patterns pattern)
      then new_structured_log_pattern_matcher lib.compile pattern
      else new_multi_line_pattern_matcher lib.compile pattern

  -- One pattern of the set on an input.
  unfoldable pub try_pattern : List (Text × Value fl.Float) → Text → PatternDefinition → Found Bool
  try_pattern context input p =
      if has_prefix p.pattern multiline_prefix
      then of_multiline input (new_multiline (trim_prefix p.pattern multiline_prefix))
      else of_json context input (parse_pattern fl lib (order p.pattern) p.pattern)

  -- A match, no match, or a panic.
  unfoldable pub match_set :
      PatternSet → List (Text × Value fl.Float) → Text → Found (Option SetMatch)
  match_set ps context input =
      result_of ps.patterns (match_loop (λ p. try_pattern context input p) ps.patterns none)

  abbrev pub syntax_error : String → JsonPattern.Made (JsonMatcher fl) → Found (Option SetError)
  syntax_error name (made j) = found none
  syntax_error name (refused e) = found (some (invalid_syntax name e))
  syntax_error name panicked = panics

  abbrev pub or_next : Found (Option SetError) → Found (Option SetError) → Found (Option SetError)
  or_next (found none) rest = rest
  or_next first rest = first

  unfoldable pub pattern_error : Entry → Found (Option SetError)
  pattern_error e =
      if is_empty e.1.pattern
      then found (some (empty_pattern e.0))
      else if is_empty e.1.description
      then found (some (empty_description e.0))
      else syntax_error e.0 (parse_pattern fl lib (order e.1.pattern) e.1.pattern)

  unfoldable pub patterns_error : List Entry → Found (Option SetError)
  patterns_error [] = found none
  patterns_error (e ∷ es) = or_next (pattern_error e) (patterns_error es)

  -- The error, no error, or a panic.
  unfoldable pub validate : PatternSet → Found (Option SetError)
  validate ps =
      if is_empty ps.name
      then found (some no_name)
      else if is_empty ps.version
      then found (some no_version)
      else if is_empty ps.patterns
      then found (some no_patterns)
      else patterns_error ps.patterns

unfoldable pub get_patterns_by_category : Category → PatternSet → List Entry
get_patterns_by_category category ps =
    select (λ (e : Entry). category_number e.1.category == category_number category) ps.patterns

unfoldable pub get_patterns_by_priority : Priority → PatternSet → List Entry
get_patterns_by_priority min_priority ps =
    select (λ (e : Entry). leb (rank min_priority) (rank e.1.priority)) ps.patterns

unfoldable pub has_tag : Text → List Text → Bool
has_tag tag [] = false
has_tag tag (t ∷ ts) = let rest = has_tag tag ts in if same_text t tag then true else rest

unfoldable pub get_patterns_by_tag : Text → PatternSet → List Entry
get_patterns_by_tag tag ps = select (λ (e : Entry). has_tag tag e.1.tags) ps.patterns
