-- ===== src/Patterns/Compare.antt =====
-- The comparisons of the JSON matcher (pkg/patterns/json_matcher.go). Float arithmetic and the
-- compilation of regular expressions are arguments.
pub mod Safety
use patience.Base.{Bool, true, false, not, Option, none, some, ◌++◌, Text, codes, same_text}
use patience.Patterns.Regex.{Regex}
use patience.Backoff.Floats.{Floats}
use patience.Patterns.Json.{
  Value, Items, null, boolean, int, float, text, array, object, no_items, item, Found, found,
  missing, panics,
}

pub data Operator : Type 0 where
  op_equal op_not_equal op_greater_than op_less_than op_greater_than_or_equal : Operator
  op_less_than_or_equal op_regex_match op_contains op_starts_with op_ends_with : Operator

module _ (fl : Floats) where
  unfoldable pub to_float64 : Value fl.Float → Option fl.Float
  to_float64 (int n) = some (fl.of_int n)
  to_float64 (float x) = some x
  to_float64 _ = none

  -- `==` of two interfaces: it panics on two maps or two slices.
  abbrev pub same_value : Value fl.Float → Value fl.Float → Found Bool
  same_value null null = found true
  same_value (boolean true) (boolean b) = found b
  same_value (boolean false) (boolean b) = found (not b)
  same_value (text s) (text t) = found (same_text s t)
  same_value (array xs) (array ys) = panics
  same_value (object xs) (object ys) = panics
  same_value _ _ = found false

  abbrev pub same_number :
      Value fl.Float → Value fl.Float → Option fl.Float → Option fl.Float → Found Bool
  same_number v w (some x) (some y) = found (fl.eq x y)
  same_number v w _ _ = same_value v w

  abbrev pub either : Found Bool → Found Bool → Found Bool
  either (found true) rest = found true
  either (found false) rest = rest
  either missing rest = missing
  either panics rest = panics

  unfoldable mutual
    pub compare_equal : Value fl.Float → Value fl.Float → Found Bool
    compare_equal (array items) expected = compare_items items expected
    compare_equal v expected = same_number v expected (to_float64 v) (to_float64 expected)

    pub compare_items : Items fl.Float → Value fl.Float → Found Bool
    compare_items no_items expected = found false
    compare_items (item v rest) expected =
        either (compare_equal v expected) (compare_items rest expected)

  abbrev pub ordered : (fl.Float → fl.Float → Bool) → Option fl.Float → Option fl.Float → Found Bool
  ordered test (some x) (some y) = found (test x y)
  ordered test _ _ = found false

  unfoldable pub compare_numeric :
      (fl.Float → fl.Float → Bool) → Value fl.Float → Value fl.Float → Found Bool
  compare_numeric test actual expected = ordered test (to_float64 actual) (to_float64 expected)

  abbrev pub matches : Option Regex → Text → Found Bool
  matches none s = found false
  matches (some regex) s = found (regex.match_string s)

  -- `compile` is regexp.Compile; a compiled expression is a Regex.
  unfoldable pub compare_regex :
      (Text → Option Regex) → Option Regex → Value fl.Float → Value fl.Float → Found Bool
  compare_regex compile (some regex) (text s) expected = found (regex.match_string s)
  compare_regex compile none (text s) (text t) = matches (compile (codes "(?i)" ++ t)) s
  compare_regex compile regex _ expected = found false

  abbrev pub negated : Found Bool → Found Bool
  negated (found b) = found (not b)
  negated missing = missing
  negated panics = panics

  unfoldable pub compare_values :
      (Text → Option Regex) → Operator → Option Regex → Value fl.Float → Value fl.Float → Found Bool
  compare_values compile op_equal regex actual expected = compare_equal actual expected
  compare_values compile op_not_equal regex actual expected =
      negated (compare_equal actual expected)
  compare_values compile op_greater_than regex actual expected =
      compare_numeric (λ x y. fl.less y x) actual expected
  compare_values compile op_less_than regex actual expected =
      compare_numeric fl.less actual expected
  compare_values compile op_greater_than_or_equal regex actual expected =
      compare_numeric (λ x y. fl.le y x) actual expected
  compare_values compile op_less_than_or_equal regex actual expected =
      compare_numeric fl.le actual expected
  compare_values compile op_regex_match regex actual expected =
      compare_regex compile regex actual expected
  compare_values compile _ regex actual expected = found false
