-- ===== src/Patterns/Multiline.antt =====
-- The matchers for whole multi-line texts (pkg/patterns/multiline_matcher.go): basic, stack trace,
-- structured log and scenario matchers. The times of the metrics are left out. Go compiles the
-- extractors in any order, so which of several errors is returned is not told apart.
pub mod Tables
use patience.Base.{
  ℕ, ◌+◌, ltb, ◌==◌, Bool, true, false, not, ◌&&◌, ◌||◌, Option, none, some, List, [], ◌∷◌, ◌++◌,
  String, str_eq, if◌then◌else◌, Text, codes, is_empty, contains, is_space, trim, same_text,
  is_some,
}
use patience.Patterns.Regex.{Regex}
use patience.Patterns.JsonPattern.{MatchMetrics, no_metrics}
use patience.Patterns.Multiline.Tables.{Predefined, stack_trace_patterns, structured_log_patterns}

pub data MultilineError : Type 0 where
  empty_pattern compilation_error not_compiled : MultilineError

pub data Made (A : Type 0) : Type 0 where
  made : A → Made A
  refused : MultilineError → Made A

-- The four matchers have these in common; `extractors` and `kind` (the language or the format) are those
-- of the stack trace and structured log matchers.
pub record MultilineMatcher : Type 0 where
  pub pattern : Text
  pub pattern_type : Text
  pub regex : Option Regex
  pub extractors : List (String × Regex)
  pub kind : String
  pub metrics : MatchMetrics
  pub complexity : ℕ

-- len: the bytes of a text in UTF-8.
unfoldable pub byte_length : Text → ℕ
byte_length [] = 0
byte_length (c ∷ s) =
    let bytes = if ltb c 128 then 1 else if ltb c 2048 then 2 else if ltb c 65536 then 3 else 4 in
    bytes + byte_length s

-- The flag that lets a dot match a newline, unless the pattern sets it.
unfoldable pub with_dotall : Text → Text
with_dotall pattern =
    if not (contains pattern (codes "(?s)")) && not (contains pattern (codes "(?ms)"))
    then codes "(?s)" ++ pattern
    else pattern

abbrev pub compiled :
    Text → Text → List (String × Regex) → String → ℕ → Option Regex → Made MultilineMatcher
compiled pattern pattern_type extractors kind complexity none = refused compilation_error
compiled pattern pattern_type extractors kind complexity (some regex) = made record {
  pattern = pattern;
  pattern_type = pattern_type;
  regex = some regex;
  extractors = extractors;
  kind = kind;
  metrics = no_metrics;
  complexity = complexity;
}

-- The entry of a table with this name.
unfoldable pub find_predefined : List Predefined → Text → Option Predefined
find_predefined [] name = none
find_predefined (p ∷ ps) name =
    let rest = find_predefined ps name in if same_text (codes p.name) name then some p else rest

module _ (compile : Text → Option Regex) where
  unfoldable pub new_multi_line_pattern_matcher : Text → Made MultilineMatcher
  new_multi_line_pattern_matcher pattern =
      if is_empty pattern
      then refused empty_pattern
      else compiled pattern [] [] "" (byte_length pattern) (compile (with_dotall pattern))

  abbrev pub with_extractor :
      String → Option Regex → Option (List (String × Regex)) → Option (List (String × Regex))
  with_extractor name (some regex) (some rest) = some ((name, regex) ∷ rest)
  with_extractor name _ _ = none

  unfoldable pub compile_extractors : List (String × Text) → Option (List (String × Regex))
  compile_extractors [] = some []
  compile_extractors (e ∷ es) = with_extractor e.0 (compile e.1) (compile_extractors es)

  abbrev pub with_extractors :
      Text → Predefined → Option (List (String × Regex)) → Made MultilineMatcher
  with_extractors pattern p none = refused compilation_error
  with_extractors pattern p (some extractors) =
      compiled pattern pattern extractors p.kind (byte_length p.pattern) (compile p.pattern)

  abbrev pub from_table : Text → Option Predefined → Made MultilineMatcher
  from_table pattern (some p) = with_extractors pattern p (compile_extractors p.extractors)
  from_table pattern none =
      compiled pattern (codes "custom") [] "unknown" (byte_length pattern)
        (compile (with_dotall pattern))

  unfoldable pub new_stack_trace_pattern_matcher : Text → Made MultilineMatcher
  new_stack_trace_pattern_matcher pattern =
      if is_empty pattern
      then refused empty_pattern
      else from_table pattern (find_predefined stack_trace_patterns pattern)

  unfoldable pub new_structured_log_pattern_matcher : Text → Made MultilineMatcher
  new_structured_log_pattern_matcher pattern =
      if is_empty pattern
      then refused empty_pattern
      else from_table pattern (find_predefined structured_log_patterns pattern)

  -- `quote_meta` is regexp.QuoteMeta.
  abbrev pub from_scenario : (Text → Text) → Text → Option Predefined → Made MultilineMatcher
  from_scenario quote_meta scenario (some p) =
      compiled scenario [] [] "" (byte_length p.pattern) (compile p.pattern)
  from_scenario quote_meta scenario none =
      compiled scenario [] [] "" (byte_length scenario)
        (compile (codes "(?s).*" ++ quote_meta scenario ++ codes ".*"))

  unfoldable pub new_real_world_scenario_matcher : (Text → Text) → Text → Made MultilineMatcher
  new_real_world_scenario_matcher quote_meta scenario =
      if is_empty scenario
      then refused empty_pattern
      else from_scenario quote_meta scenario (find_predefined structured_log_patterns scenario)

unfoldable pub validate : MultilineMatcher → Option MultilineError
validate m =
    if is_empty m.pattern
    then some empty_pattern
    else if is_some m.regex
    then none
    else some not_compiled

-- The deferred function counts every call.
abbrev pub counted : Option Bool → MatchMetrics → MatchMetrics
counted none m = record m { total_matches = m.total_matches + 1; error_count = m.error_count + 1 }
counted (some true) m = record m {
  total_matches = m.total_matches + 1;
  successful_matches = m.successful_matches + 1;
}
counted (some false) m = record m {
  total_matches = m.total_matches + 1;
  failed_matches = m.failed_matches + 1;
}

abbrev pub verdict : Option Regex → Text → Option Bool
verdict none input = none
verdict (some regex) input = some (regex.match_string input)

-- Match of all four; nothing is the error of a matcher without a regex.
unfoldable pub match : Text → MultilineMatcher → MultilineMatcher × Option Bool
match input m =
    let result = verdict m.regex input in (record m { metrics = counted result m.metrics }, result)

-- What MatchWithExtraction finds; the map of its context as fields.
pub record StackTrace : Type 0 where
  pub matched : Bool
  pub language : String
  pub root_cause : Text
  pub stack_trace : List Text
  pub exception_type : Option Text
  pub error_type : Option Text
  pub panic_message : Option Text
  pub message : Option Text
  pub stack_frames : Option (List Text)

abbrev pub no_trace : String → Bool → StackTrace
no_trace language b = record {
  matched = b;
  language = language;
  root_cause = [];
  stack_trace = [];
  exception_type = none;
  error_type = none;
  panic_message = none;
  message = none;
  stack_frames = none;
}

abbrev pub get : String → List (String × Regex) → Option Regex
get key [] = none
get key (e ∷ es) = let rest = get key es in if str_eq e.0 key then some e.1 else rest

-- matches[1], where there is one.
abbrev pub first_group : List Text → Option Text
first_group (whole ∷ group ∷ groups) = some group
first_group _ = none

abbrev pub group_of : Option Regex → Text → Option Text
group_of none input = none
group_of (some regex) input = first_group (regex.find_submatch input)

unfoldable pub first_groups : List (List Text) → List Text
first_groups [] = []
first_groups (m ∷ ms) = elim (first_group m) [
  | none ↦ first_groups ms
  | some g ↦ g ∷ first_groups ms
]

abbrev pub text_or : Text → Option Text → Text
text_or t none = t
text_or t (some s) = s

-- The root cause by the first of the three extractors that the matcher has.
abbrev pub with_cause : Option Regex → Option Regex → Option Regex → Text → StackTrace → StackTrace
with_cause (some e) b c input t =
    let cause = group_of (some e) input in
    record t { root_cause = text_or t.root_cause cause; exception_type = cause }
with_cause none (some e) c input t =
    let cause = group_of (some e) input in
    record t { root_cause = text_or t.root_cause cause; error_type = cause }
with_cause none none c input t =
    let cause = group_of c input in
    record t { root_cause = text_or t.root_cause cause; panic_message = cause }

abbrev pub with_message : Option Regex → Text → StackTrace → StackTrace
with_message e input t = record t { message = group_of e input }

abbrev pub with_frames : Option Regex → Text → StackTrace → StackTrace
with_frames none input t = t
with_frames (some e) input t =
    let frames = first_groups (e.find_all_submatch input) in
    if is_empty frames then t else record t { stack_trace = frames; stack_frames = some frames }

unfoldable pub extracted : List (String × Regex) → Text → StackTrace → StackTrace
extracted extractors input t = with_frames (get "stack_frames" extractors) input (
    with_message (get "message" extractors) input (
      with_cause (get "exception_type" extractors) (get "error_type" extractors)
        (get "panic_message" extractors) input t))

-- Without a root cause, the first group of the pattern itself, trimmed.
abbrev pub or_main_match : Option Regex → Text → StackTrace → StackTrace
or_main_match regex input t =
    if is_empty t.root_cause
    then record t { root_cause = trim is_space (text_or [] (group_of regex input)) }
    else t

abbrev pub trace_of : MultilineMatcher → Text → Option Bool → Option StackTrace
trace_of m input none = none
trace_of m input (some false) = some (no_trace m.kind false)
trace_of m input (some true) =
    some (or_main_match m.regex input (extracted m.extractors input (no_trace m.kind true)))

unfoldable pub match_with_extraction :
    Text → MultilineMatcher → MultilineMatcher × Option StackTrace
match_with_extraction input m =
    let result = verdict m.regex input in
    (record m { metrics = counted result m.metrics }, trace_of m input result)
