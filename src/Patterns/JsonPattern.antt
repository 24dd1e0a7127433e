-- ===== src/Patterns/JsonPattern.antt =====
-- The JSON matcher (pkg/patterns/json_matcher.go): how a pattern is parsed, and how a text is matched
-- and counted. Go visits the map of the operators in any order: the order is an argument. The times
-- of the metrics are left out.
pub mod Accounting
pub mod RoundTrip
pub mod Orders
pub mod Safety
pub mod Wildcards
use patience.Base.{
  ℕ, ◌+◌, leb, Bool, true, false, not, ◌&&◌, ◌||◌, Option, none, some, List, [], ◌∷◌, ◌++◌, drop,
  if◌then◌else◌, Text, codes, is_empty, same_text, has_prefix, has_suffix, contains, split,
  is_space, trim, atoi, ◌==◌, ℤ,
}
use patience.Patterns.Regex.{Regex}
use patience.Backoff.Floats.{Floats}
use patience.Patterns.Json.{
  Value, null, boolean, int, float, text, Found, found, missing, panics, star, opening, closing,
  index_part, extract_value,
}
use patience.Patterns.Compare.{
  Operator, op_equal, op_not_equal, op_greater_than, op_less_than, op_greater_than_or_equal,
  op_less_than_or_equal, op_regex_match, op_contains, op_starts_with, op_ends_with, compare_values,
}

unfoldable pub operator_string : Operator → Text
operator_string op_equal = codes "=="
operator_string op_not_equal = codes "!="
operator_string op_greater_than = codes ">"
operator_string op_less_than = codes "<"
operator_string op_greater_than_or_equal = codes ">="
operator_string op_less_than_or_equal = codes "<="
operator_string op_regex_match = codes "=~"
operator_string op_contains = codes "contains"
operator_string op_starts_with = codes "startsWith"
operator_string op_ends_with = codes "endsWith"

-- The keys of the map of operators, each with its value.
abbrev pub operators : List Operator
operators =
    op_equal ∷ op_not_equal ∷ op_greater_than ∷ op_less_than ∷ op_greater_than_or_equal
    ∷ op_less_than_or_equal ∷ op_regex_match ∷ []

pub data PatternError : Type 0 where
  invalid_format no_root consecutive_dots empty_path empty_segment missing_bracket : PatternError
  malformed_brackets invalid_index invalid_regex : PatternError

-- A matcher, an error, or a panic.
pub data Made (A : Type 0) : Type 0 where
  made : A → Made A
  refused : PatternError → Made A
  panicked : Made A

unfoldable pub spaced : Operator → Text
spaced op = codes " " ++ operator_string op ++ codes " "

-- The first operator, in the order in which they are visited, that the pattern contains.
unfoldable pub find_operator : List Operator → Text → Option Operator
find_operator [] pattern = none
find_operator (op ∷ ops) pattern =
    let rest = find_operator ops pattern in if contains pattern (spaced op) then some op else rest

unfoldable pub segment_error : Text → Option PatternError
segment_error part =
    if is_empty part
    then some empty_segment
    else if contains part (codes "[")
    then (if not (contains part (codes "]"))
        then some missing_bracket
        else if leb (closing part) (opening part)
        then some malformed_brackets
        else if same_text (index_part part) star
        then none
        else elim (atoi (index_part part)) [ none ↦ some invalid_index | some n ↦ none ])
    else none

abbrev pub first_error : Option PatternError → Option PatternError → Option PatternError
first_error none rest = rest
first_error (some e) rest = some e

unfoldable pub segments_error : List Text → Option PatternError
segments_error [] = none
segments_error (part ∷ parts) = first_error (segment_error part) (segments_error parts)

unfoldable pub validate_json_path : Text → Option PatternError
validate_json_path path =
    if not (has_prefix path (codes "$."))
    then some no_root
    else if contains path (codes "..")
    then some consecutive_dots
    else if is_empty (drop 2 path)
    then some empty_path
    else segments_error (split (drop 2 path) (codes "."))

abbrev pub among : Text → List Text → Bool
among s [] = false
among s (t ∷ ts) = same_text s t || among s ts

abbrev pub true_words : List Text
true_words = codes "1" ∷ codes "t" ∷ codes "T" ∷ codes "TRUE" ∷ codes "true" ∷ codes "True" ∷ []

abbrev pub false_words : List Text
false_words = codes "0" ∷ codes "f" ∷ codes "F" ∷ codes "FALSE" ∷ codes "false" ∷ codes "False" ∷ []

-- The halves of a text that was split in two.
unfoldable pub halves : List Text → Option (Text × Text)
halves (a ∷ b ∷ []) = some (a, b)
halves _ = none

abbrev pub split_by : Text → Option Operator → List Text
split_by pattern none = []
split_by pattern (some op) = split pattern (spaced op)

-- What the code takes of other libraries: regexp.Compile, strconv.ParseFloat, and json.Unmarshal into an interface{}.
pub record Library (fl : Floats) : Type 0 where
  pub compile : Text → Option Regex
  pub parse_float : Text → Option fl.Float
  pub unmarshal : Text → Option (Value fl.Float)

pub record MatchMetrics : Type 0 where
  pub total_matches : ℕ
  pub successful_matches : ℕ
  pub failed_matches : ℕ
  pub error_count : ℕ

abbrev pub no_metrics : MatchMetrics
no_metrics = record {
  total_matches = 0;
  successful_matches = 0;
  failed_matches = 0;
  error_count = 0;
}

pub record JsonMatcher (fl : Floats) : Type 0 where
  pub json_path : Text
  pub operator : Operator
  pub expected_value : Value fl.Float
  pub compiled_regex : Option Regex
  pub metrics : MatchMetrics

-- What a match returns: a verdict, the error of json.Unmarshal, or a panic.
pub data Verdict : Type 0 where
  verdict : Bool → Verdict
  not_json : Verdict
  crashed : Verdict

module _ (fl : Floats) (lib : Library fl) where
  abbrev pub word_value : Text → Value fl.Float
  word_value s =
      if among s true_words
      then boolean true
      else if among s false_words
      then boolean false
      else if same_text s (codes "null")
      then null
      else text s

  abbrev pub number_value : Option ℤ → Option fl.Float → Text → Value fl.Float
  number_value (some n) parsed s = int n
  number_value none (some x) s = float x
  number_value none none s = word_value s

  unfoldable pub parse_expected_value : Text → Value fl.Float
  parse_expected_value s =
      if has_prefix s (codes "\"") && has_suffix s (codes "\"")
      then text (trim (λ c. c == 34) s)
      else number_value (atoi s) (lib.parse_float s) s

  abbrev pub with_compiled : Text → Operator → Value fl.Float → Option Regex → Made (JsonMatcher fl)
  with_compiled path op expected none = refused invalid_regex
  with_compiled path op expected (some regex) = made record {
    json_path = path;
    operator = op;
    expected_value = expected;
    compiled_regex = some regex;
    metrics = no_metrics;
  }

  -- The type assertion of the expected value to a string panics on any other.
  unfoldable pub with_regex : Text → Operator → Value fl.Float → Made (JsonMatcher fl)
  with_regex path op_regex_match (text s) =
      with_compiled path op_regex_match (text s) (lib.compile (codes "(?i)" ++ s))
  with_regex path op_regex_match expected = panicked
  with_regex path op expected = made record {
    json_path = path;
    operator = op;
    expected_value = expected;
    compiled_regex = none;
    metrics = no_metrics;
  }

  unfoldable pub with_path :
      Text → Operator → Value fl.Float → Option PatternError → Made (JsonMatcher fl)
  with_path path op expected (some e) = refused e
  with_path path op expected none = with_regex path op expected

  abbrev pub with_halves : Option Operator → Option (Text × Text) → Made (JsonMatcher fl)
  with_halves (some op) (some (left, right)) =
      with_path (trim is_space left) op (parse_expected_value (trim is_space right))
        (validate_json_path (trim is_space left))
  with_halves _ _ = refused invalid_format

  unfoldable pub parse_pattern : List Operator → Text → Made (JsonMatcher fl)
  parse_pattern order pattern =
      let op = find_operator order pattern in with_halves op (halves (split_by pattern op))

  abbrev pub value_or : Value fl.Float → Option (Value fl.Float) → Value fl.Float
  value_or v none = v
  value_or v (some w) = w

  abbrev pub get : Text → List (Text × Value fl.Float) → Option (Value fl.Float)
  get key [] = none
  get key (e ∷ es) = let rest = get key es in if same_text e.0 key then some e.1 else rest

  -- A nil context holds nothing.
  unfoldable pub resolve_context_value :
      List (Text × Value fl.Float) → Value fl.Float → Value fl.Float
  resolve_context_value context (text s) =
      if has_prefix s (codes "$ctx.") then value_or (text s) (get (drop 5 s) context) else text s
  resolve_context_value context value = value

  abbrev pub compared :
      JsonMatcher fl → List (Text × Value fl.Float) → Found (Value fl.Float) → Found Bool
  compared j context (found value) =
      compare_values fl lib.compile j.operator j.compiled_regex value
        (resolve_context_value context j.expected_value)
  compared j context missing = missing
  compared j context panics = panics

  -- What is found in a text that is JSON.
  unfoldable pub judged :
      JsonMatcher fl → List (Text × Value fl.Float) → Value fl.Float → Found Bool
  judged j context value = compared j context (extract_value j.json_path value)

  abbrev pub map_found :
      (Value fl.Float → Found Bool) → Option (Value fl.Float) → Option (Found Bool)
  map_found f none = none
  map_found f (some v) = some (f v)

  abbrev pub outcome : JsonMatcher fl → List (Text × Value fl.Float) → Text → Option (Found Bool)
  outcome j context input = map_found (λ value. judged j context value) (lib.unmarshal input)

  -- The deferred update counts every call; a path that leads nowhere counts as neither.
  abbrev pub counted : Option (Found Bool) → MatchMetrics → MatchMetrics
  counted none m = record m { total_matches = m.total_matches + 1; error_count = m.error_count + 1 }
  counted (some (found true)) m = record m {
    total_matches = m.total_matches + 1;
    successful_matches = m.successful_matches + 1;
  }
  counted (some (found false)) m = record m {
    total_matches = m.total_matches + 1;
    failed_matches = m.failed_matches + 1;
  }
  counted (some missing) m = record m { total_matches = m.total_matches + 1 }
  counted (some panics) m = record m { total_matches = m.total_matches + 1 }

  abbrev pub returned : Option (Found Bool) → Verdict
  returned none = not_json
  returned (some (found b)) = verdict b
  returned (some missing) = verdict false
  returned (some panics) = crashed

  unfoldable pub match_with_context :
      JsonMatcher fl → List (Text × Value fl.Float) → Text → JsonMatcher fl × Verdict
  match_with_context j context input =
      let result = outcome j context input in
      (record j { metrics = counted result j.metrics }, returned result)
