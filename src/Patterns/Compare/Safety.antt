-- ===== src/Patterns/Compare/Safety.antt =====
-- No comparison with a value that is neither an array nor an object panics.
use patience.Base.{◌≡◌, refl, Option, none, some, Bool, true, false, Text, arith, codes, ◌++◌}
use patience.Patterns.Regex.{Regex}
use patience.Backoff.Floats.{Floats}
use patience.Patterns.Json.{
  Value, Items, null, boolean, int, float, text, array, object, no_items, item, Found, found,
  missing, panics,
}
use patience.Patterns.Json.Safety.{calm}
use patience.Patterns.Compare.{
  Operator, op_equal, op_not_equal, op_greater_than, op_less_than, op_greater_than_or_equal,
  op_less_than_or_equal, op_regex_match, compare_values, compare_equal, compare_items,
  compare_numeric, compare_regex, same_number, same_value, either, negated, to_float64, ordered,
  matches,
}

abbrev pub scalar : {F : Type 0} → Value F → Bool
scalar (array _) = false
scalar (object _) = false
scalar _ = true

module _ (fl : Floats) where
  same_value-calm : (v w : Value fl.Float) → scalar w ≡ true → calm (same_value fl v w) ≡ true
  same_value-calm v (array ws) h = absurd (ground (arith, h))
  same_value-calm v (object ws) h = absurd (ground (arith, h))
  same_value-calm null _ h = refl
  same_value-calm (boolean true) _ h = refl
  same_value-calm (boolean false) _ h = refl
  same_value-calm (text s) _ h = refl
  same_value-calm (int n) _ h = refl
  same_value-calm (float x) _ h = refl
  same_value-calm (array xs) _ h = refl
  same_value-calm (object xs) _ h = refl

  same_number-calm :
      (v w : Value fl.Float) (x y : Option fl.Float)
      → scalar w ≡ true
      → calm (same_number fl v w x y) ≡ true
  same_number-calm v w (some x) (some y) h = refl
  same_number-calm v w (some x) none h = same_value-calm v w h
  same_number-calm v w none y h = same_value-calm v w h

  either-calm : (a b : Found Bool) → calm a ≡ true → calm b ≡ true → calm (either fl a b) ≡ true
  either-calm (found true) b h k = refl
  either-calm (found false) b h k = k
  either-calm missing b h k = refl
  either-calm panics b h k = h

  mutual
    unfolding compare_equal

    compare_equal-calm :
        (v w : Value fl.Float) → scalar w ≡ true → calm (compare_equal fl v w) ≡ true
    compare_equal-calm (array items) w h = compare_items-calm items w h
    compare_equal-calm v w h = same_number-calm v w (to_float64 fl v) (to_float64 fl w) h

    compare_items-calm :
        (vs : Items fl.Float) (w : Value fl.Float)
        → scalar w ≡ true
        → calm (compare_items fl vs w) ≡ true
    compare_items-calm no_items w h = refl
    compare_items-calm (item v vs) w h =
        either-calm (compare_equal fl v w) (compare_items fl vs w) (compare_equal-calm v w h)
          (compare_items-calm vs w h)

  ordered-calm :
      (test : fl.Float → fl.Float → Bool) (x y : Option fl.Float)
      → calm (ordered fl test x y) ≡ true
  ordered-calm test (some x) (some y) = refl
  ordered-calm test (some x) none = refl
  ordered-calm test none y = refl

  negated-calm : (a : Found Bool) → calm a ≡ true → calm (negated fl a) ≡ true
  negated-calm (found b) h = refl
  negated-calm missing h = refl
  negated-calm panics h = h

  matches-calm : (regex : Option Regex) (s : Text) → calm (matches fl regex s) ≡ true
  matches-calm none s = refl
  matches-calm (some regex) s = refl

  compare_regex-calm :
      (compile : Text → Option Regex) (regex : Option Regex) (v w : Value fl.Float)
      → calm (compare_regex fl compile regex v w) ≡ true
  unfolding compare_regex
  compare_regex-calm compile (some regex) (text s) w = refl
  compare_regex-calm compile none (text s) (text t) = matches-calm (compile (codes "(?i)" ++ t)) s
  compare_regex-calm compile none (text s) _ = refl
  compare_regex-calm compile _ _ w = refl

  pub compare_values-calm :
      (compile : Text → Option Regex) (op : Operator) (regex : Option Regex) (v w : Value fl.Float)
      → scalar w ≡ true
      → calm (compare_values fl compile op regex v w) ≡ true
  unfolding compare_values compare_numeric
  compare_values-calm compile op_equal regex v w h = compare_equal-calm v w h
  compare_values-calm compile op_not_equal regex v w h =
      negated-calm (compare_equal fl v w) (compare_equal-calm v w h)
  compare_values-calm compile op_greater_than regex v w h = ordered-calm _ _ _
  compare_values-calm compile op_less_than regex v w h = ordered-calm _ _ _
  compare_values-calm compile op_greater_than_or_equal regex v w h = ordered-calm _ _ _
  compare_values-calm compile op_less_than_or_equal regex v w h = ordered-calm _ _ _
  compare_values-calm compile op_regex_match regex v w h = compare_regex-calm compile regex v w
  compare_values-calm compile _ regex v w h = refl
