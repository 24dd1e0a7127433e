-- ===== src/Examples/SetRuns.antt =====
-- Sets of patterns at concrete inputs.
use patience.Base.{
  ℕ, ◌≡◌, ◌≢◌, refl, pos, none, some, List, [], ◌∷◌, Text, codes, contains, same_text, index,
  has_prefix, has_suffix, is_empty, split, split_loop, trim, trim_left, trim_right, is_space, atoi,
  digits, if◌then◌else◌, trim_prefix, All, count, arith,
}
use patience.Examples.Thousandths.{thousandths}
use patience.Patterns.Json.{
  Value, panics, int, object, no_fields, field, found, extract_value, extract_value_recursive,
  extract_part, navigate_to_field, get_field,
}
use patience.Patterns.Compare.{
  Operator, compare_values, compare_equal, compare_numeric, to_float64, op_regex_match,
  op_less_than_or_equal, op_greater_than_or_equal, op_less_than, op_greater_than, op_not_equal,
  op_equal,
}
use patience.Patterns.JsonPattern.{
  Library, parse_pattern, find_operator, spaced, operator_string, halves, validate_json_path,
  segments_error, segment_error, parse_expected_value, with_path, with_regex, operators,
  match_with_context, judged, resolve_context_value,
}
use patience.Patterns.Sets.{
  PatternDefinition, PatternSet, SetMatch, priority_low, priority_high, category_error,
  category_retry, match_set, match_loop, last_visited, try_pattern, validate, pattern_error,
  patterns_error, Entry,
}
use patience.Patterns.Sets.Best.{IsBest, match_set-IsBest}
use patience.Patterns.Sets.Validity.{validate-calm}
use patience.Patterns.JsonPattern.Orders.{VisitsKeys, IsUnambiguous}

abbrev failing : Value ℕ
failing = object (field (codes "code") (int (pos 503)) no_fields)

-- Only the text "down" is JSON, with the code 503; no expression compiles.
abbrev lib : Library thousandths
lib = record {
  compile = λ s. none;
  parse_float = λ s. none;
  unmarshal = λ s. if same_text s (codes "down") then some failing else none;
}

abbrev visited : Text → List Operator
visited s = operators

abbrev any_error : PatternDefinition
any_error = record {
  pattern = codes "$.code > 499";
  description = codes "an error of the server";
  priority = priority_low;
  category = category_error;
  tags = [];
}

abbrev unavailable : PatternDefinition
unavailable = record {
  pattern = codes "$.code == 503";
  description = codes "try again later";
  priority = priority_high;
  category = category_retry;
  tags = [];
}

abbrev server_errors : PatternSet
server_errors = record {
  name = codes "server";
  version = codes "1";
  patterns = ("unavailable", unavailable) ∷ ("any_error", any_error) ∷ [];
}

is_valid : validate thousandths lib visited server_errors ≡ found none
unfolding validate pattern_error patterns_error parse_pattern find_operator spaced operator_string
    halves contains index has_prefix has_suffix split split_loop trim trim_left trim_right is_space
    is_empty atoi digits validate_json_path segments_error segment_error parse_expected_value
    with_path with_regex same_text
is_valid = refl

-- Go may visit the operators in another order when it parses the patterns again.
abbrev visited_again : Text → List Operator
visited_again s =
    op_regex_match ∷ op_less_than_or_equal ∷ op_greater_than_or_equal ∷ op_less_than
    ∷ op_greater_than ∷ op_not_equal ∷ op_equal ∷ []

visited-VisitsKeys : (s : Text) → VisitsKeys (visited s)
visited-VisitsKeys s op = refl

visited_again-VisitsKeys : (s : Text) → VisitsKeys (visited_again s)
unfolding operator_string same_text
visited_again-VisitsKeys s op_equal = refl
visited_again-VisitsKeys s _ = refl

server_errors-IsUnambiguous : All (λ (e : Entry). IsUnambiguous e.1.pattern) server_errors.patterns
unfolding count contains index has_prefix spaced operator_string is_empty
server_errors-IsUnambiguous = (omega arith, (omega arith, tt))

validate-calm_example :
    match_set thousandths lib visited_again server_errors [] (codes "down") ≢ panics
validate-calm_example =
    validate-calm thousandths lib visited visited_again visited-VisitsKeys visited_again-VisitsKeys
      server_errors [] (codes "down") server_errors-IsUnambiguous is_valid tt

-- A pattern with two operators: a set of it is valid if ">" is visited first.
abbrev ambiguous : PatternSet
ambiguous = record {
  name = codes "ambiguous";
  version = codes "1";
  patterns = ("both", record any_error { pattern = codes "$.code > 3 =~ 5" }) ∷ [];
}

ambiguous_is_valid : validate thousandths lib visited ambiguous ≡ found none
unfolding validate pattern_error patterns_error parse_pattern find_operator spaced operator_string
    halves contains index has_prefix has_suffix split split_loop trim trim_left trim_right is_space
    is_empty atoi digits validate_json_path segments_error segment_error parse_expected_value
    with_path with_regex same_text
ambiguous_is_valid = refl

-- If "=~" is visited first, the same set panics, both when it is validated and when it is matched.
ambiguous_panics :
    (validate thousandths lib visited_again ambiguous ≡ panics)
    × (match_set thousandths lib visited_again ambiguous [] (codes "down") ≡ panics)
unfolding validate pattern_error patterns_error parse_pattern find_operator spaced operator_string
    halves contains index has_prefix has_suffix split split_loop trim trim_left trim_right is_space
    is_empty atoi digits validate_json_path segments_error segment_error parse_expected_value
    with_path with_regex same_text match_set match_loop try_pattern trim_prefix
ambiguous_panics = (refl, refl)

-- The name is that of the best pattern, the definition that of the last one.
abbrev shared_variable : SetMatch
shared_variable = record { pattern_name = "unavailable"; pattern = any_error }

wrong_definition :
    match_set thousandths lib visited server_errors [] (codes "down") ≡ found (some shared_variable)
unfolding match_set match_loop last_visited try_pattern match_with_context judged
    resolve_context_value compare_values compare_equal compare_numeric to_float64 extract_value
    extract_value_recursive extract_part navigate_to_field get_field parse_pattern find_operator
    spaced operator_string halves contains index has_prefix has_suffix split split_loop trim
    trim_left trim_right is_space is_empty atoi digits validate_json_path segments_error
    segment_error parse_expected_value with_path with_regex same_text trim_prefix
wrong_definition = refl

match_set-IsBest_example :
    IsBest
      (λ p. try_pattern thousandths lib visited [] (codes "down") p)
      server_errors.patterns
      (some shared_variable)
match_set-IsBest_example =
    match_set-IsBest thousandths lib visited server_errors [] (codes "down") (some shared_variable)
      wrong_definition
