-- ===== src/Examples/PatternRuns.antt =====
-- Patterns for JSON texts and sets of them at concrete inputs.
use patience.Base.{
  String, ℕ, ◌≡◌, ◌≢◌, refl, pos, Option, none, some, [], ◌∷◌, Text, codes, contains, same_text,
  index, has_prefix, has_suffix, is_empty, split, split_loop, trim, trim_left, trim_right, is_space,
  atoi, digits, drop, arith, if◌then◌else◌,
}
use patience.Examples.Thousandths.{thousandths}
use patience.Patterns.Regex.{Regex}
use patience.Patterns.Json.{
  Value, int, text, array, object, no_items, item, no_fields, field, extract_value_recursive,
  navigate_to_field, get_field,
}
use patience.Patterns.Compare.{op_equal, op_regex_match}
use patience.Patterns.JsonPattern.{
  Library, JsonMatcher, parse_pattern, find_operator, spaced, operator_string, halves,
  validate_json_path, segments_error, segment_error, parse_expected_value, with_path, with_regex,
  operators, made, panicked, no_metrics, match_with_context, crashed,
}
use patience.Patterns.JsonPattern.Accounting.{Counts, match_all, match_all-Counts}
use patience.Patterns.JsonPattern.RoundTrip.{parse_pattern-written, written}
use patience.Patterns.JsonPattern.Safety.{parsed_never_crashes}
use patience.Patterns.JsonPattern.Wildcards.{holds, holds_of_some, wildcard_equal}

-- A regular expression that finds its own text, after the flag (?i).
abbrev finds_itself : Text → Option Regex
finds_itself s = some record {
  match_string = λ t. contains t (drop 4 s);
  find_submatch = λ t. [];
  find_all_submatch = λ t. [];
}

abbrev failing : Value ℕ
failing = object (field (codes "code") (int (pos 500)) no_fields)

-- Only the text "down" is JSON, with the code 500.
abbrev lib : Library thousandths
lib = record {
  compile = finds_itself;
  parse_float = λ s. none;
  unmarshal = λ s. if same_text s (codes "down") then some failing else none;
}

abbrev five_hundred : JsonMatcher thousandths
five_hundred = record {
  json_path = codes "$.code";
  operator = op_equal;
  expected_value = int (pos 500);
  compiled_regex = none;
  metrics = no_metrics;
}

parsed_five_hundred :
    parse_pattern thousandths lib operators (codes "$.code == 500") ≡ made five_hundred
unfolding parse_pattern find_operator spaced operator_string halves contains index has_prefix
    has_suffix split split_loop trim trim_left trim_right is_space is_empty atoi digits
    validate_json_path segments_error segment_error parse_expected_value with_path with_regex
    same_text
parsed_five_hundred = refl

-- An expected value that is not a string panics with this operator.
regex_of_number : parse_pattern thousandths lib operators (codes "$.code =~ 500") ≡ panicked
unfolding parse_pattern find_operator spaced operator_string halves contains index has_prefix
    has_suffix split split_loop trim trim_left trim_right is_space is_empty atoi digits
    validate_json_path segments_error segment_error parse_expected_value with_path with_regex
    same_text
regex_of_number = refl

parsed_never_crashes_example :
    (match_with_context thousandths lib five_hundred [] (codes "down")).1 ≢ crashed
parsed_never_crashes_example =
    parsed_never_crashes thousandths lib operators (codes "$.code == 500") (codes "down")
      five_hundred [] parsed_five_hundred tt

match_all-Counts_example :
    Counts five_hundred.metrics
      (match_all thousandths lib [] five_hundred (codes "down" ∷ codes "up" ∷ [])).0.metrics
      (match_all thousandths lib [] five_hundred (codes "down" ∷ codes "up" ∷ [])).1
match_all-Counts_example =
    match_all-Counts thousandths lib [] five_hundred (codes "down" ∷ codes "up" ∷ [])

parse_pattern-written_example :
    parse_pattern thousandths lib operators
      (written (codes "$.state") op_regex_match (codes "failed"))
    ≡ with_regex thousandths lib (codes "$.state") op_regex_match (text (codes "failed"))
unfolding validate_json_path segments_error segment_error has_prefix contains index is_empty split
    split_loop is_space same_text operator_string
parse_pattern-written_example =
    parse_pattern-written thousandths lib (codes "$.state") (codes "failed") op_regex_match
      operators (ground arith) (ground arith) refl refl

-- Two jobs, of which one has failed.
abbrev job : String → Value ℕ
job s = object (field (codes "state") (text (codes s)) no_fields)

abbrev jobs : Value ℕ
jobs =
    object
      (field (codes "jobs") (array (item (job "done") (item (job "failed") no_items))) no_fields)

wildcard_equal_example :
    holds thousandths
      (text (codes "failed"))
      (extract_value_recursive (codes "jobs[*]" ∷ codes "state" ∷ []) jobs)
    ≡ holds_of_some thousandths
        (text (codes "failed"))
        (λ v. extract_value_recursive (codes "state" ∷ []) v)
        (item (job "done") (item (job "failed") no_items))
unfolding segments_error segment_error contains index has_prefix is_empty same_text
    navigate_to_field get_field
wildcard_equal_example =
    wildcard_equal thousandths (text (codes "failed")) (codes "jobs[*]") (codes "state" ∷ []) jobs
      (item (job "done") (item (job "failed") no_items)) refl refl refl refl refl
