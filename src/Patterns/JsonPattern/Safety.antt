-- ===== src/Patterns/JsonPattern/Safety.antt =====
-- A matcher that was made from a pattern does not panic.
use patience.Base.{
  ◌≡◌, refl, Option, none, some, Bool, true, Text, arith, codes, ◌++◌, split, drop, Bool-cases, inl,
  inr, All, is_space, trim, has_prefix, has_suffix, ◌&&◌, atoi, ◌≢◌, ℤ, List, ◌∷◌, [],
}
use patience.Patterns.Regex.{Regex}
use patience.Backoff.Floats.{Floats}
use patience.Patterns.Json.{
  Value, text, array, object, Found, found, missing, panics, extract_value,
}
use patience.Patterns.Json.Safety.{calm, extract_value_recursive-calm}
use patience.Patterns.Compare.{Operator, op_regex_match}
use patience.Patterns.Compare.Safety.{scalar, compare_values-calm}
use patience.Patterns.JsonPattern.{
  validate_json_path, Library, JsonMatcher, made, PatternError, parse_pattern, with_regex,
  with_path, with_halves, with_compiled, parse_expected_value, resolve_context_value, get,
  match_with_context, judged, compared, returned, crashed, number_value, value_or, map_found,
}
use mathlib.Core.Path.{subst}

pub extract_value-calm :
    {F : Type 0} (path : Text) (v : Value F)
    → validate_json_path path ≡ none
    → calm (extract_value path v) ≡ true
unfolding extract_value validate_json_path
extract_value-calm path v ok =
    ground (arith, ok, extract_value_recursive-calm (split (drop 2 path) (codes ".")) v)

-- What parsing makes sure of.
pub record IsParsed (fl : Floats) (j : JsonMatcher fl) : Type 0 where
  pub path : validate_json_path j.json_path ≡ none
  pub expected : scalar j.expected_value ≡ true

module _ (fl : Floats) (lib : Library fl) where
  number_value-scalar :
      (n : Option ℤ) (x : Option fl.Float) (s : Text) → scalar (number_value fl lib n x s) ≡ true
  number_value-scalar (some n) x s = refl
  number_value-scalar none (some x) s = refl
  number_value-scalar none none s = ground arith

  parse_expected_value-scalar : (s : Text) → scalar (parse_expected_value fl lib s) ≡ true
  unfolding parse_expected_value
  parse_expected_value-scalar s =
      elim (Bool-cases (has_prefix s (codes "\"") && has_suffix s (codes "\""))) [
        | inl quoted ↦ rw quoted refl
        | inr bare ↦ rw bare (number_value-scalar (atoi s) (lib.parse_float s) s)
      ]

  made-injective : (i j : JsonMatcher fl) → made i ≡ made j → i ≡ j
  made-injective i j e = cc

  with_compiled-IsParsed :
      (path : Text) (op : Operator) (v : Value fl.Float) (regex : Option Regex) (j : JsonMatcher fl)
      → validate_json_path path ≡ none
      → scalar v ≡ true
      → with_compiled fl lib path op v regex ≡ made j
      → IsParsed fl j
  with_compiled-IsParsed path op v none j h k e = absurd (ground (arith, e))
  with_compiled-IsParsed path op v (some regex) j h k e =
      subst (IsParsed fl) (made-injective _ j e) record { path = h; expected = k }

  with_regex-IsParsed :
      (path : Text) (op : Operator) (v : Value fl.Float) (j : JsonMatcher fl)
      → validate_json_path path ≡ none
      → scalar v ≡ true
      → with_regex fl lib path op v ≡ made j
      → IsParsed fl j
  unfolding with_regex
  with_regex-IsParsed path op_regex_match (text s) j h k e =
      with_compiled-IsParsed path op_regex_match (text s) (lib.compile (codes "(?i)" ++ s)) j h k e
  with_regex-IsParsed path op_regex_match _ j h k e = absurd (ground (arith, e))
  with_regex-IsParsed path _ v j h k e =
      subst (IsParsed fl) (made-injective _ j e) record { path = h; expected = k }

  with_path-IsParsed :
      (path : Text) (op : Operator) (v : Value fl.Float) (e : Option PatternError)
      (j : JsonMatcher fl)
      → validate_json_path path ≡ e
      → scalar v ≡ true
      → with_path fl lib path op v e ≡ made j
      → IsParsed fl j
  unfolding with_path
  with_path-IsParsed path op v none j h k eq = with_regex-IsParsed path op v j h k eq
  with_path-IsParsed path op v (some e) j h k eq = absurd (ground (arith, eq))

  with_halves-IsParsed :
      (op : Option Operator) (hs : Option (Text × Text)) (j : JsonMatcher fl)
      → with_halves fl lib op hs ≡ made j
      → IsParsed fl j
  with_halves-IsParsed (some op) (some (left, right)) j e =
      with_path-IsParsed (trim is_space left) op (parse_expected_value fl lib (trim is_space right))
        _ j refl (parse_expected_value-scalar (trim is_space right)) e
  with_halves-IsParsed (some op) none j e = absurd (ground (arith, e))
  with_halves-IsParsed none hs j e = absurd (ground (arith, e))

  pub parse_pattern-IsParsed :
      (order : List Operator) (pattern : Text) (j : JsonMatcher fl)
      → parse_pattern fl lib order pattern ≡ made j
      → IsParsed fl j
  unfolding parse_pattern
  parse_pattern-IsParsed order pattern j e = with_halves-IsParsed _ _ j e

  get-scalar :
      (key : Text) (context : List (Text × Value fl.Float)) (v : Value fl.Float)
      → All (λ (e : Text × Value fl.Float). scalar e.1 ≡ true) context
      → get fl lib key context ≡ some v
      → scalar v ≡ true
  get-scalar key [] v h e = absurd (ground (arith, e))
  get-scalar key (c ∷ cs) v h e = ground (arith, e, h.0, get-scalar key cs v h.1)

  value_or-scalar :
      (s : Text) (o : Option (Value fl.Float))
      → ((v : Value fl.Float) → o ≡ some v → scalar v ≡ true)
      → scalar (value_or fl lib (text s) o) ≡ true
  value_or-scalar s none h = refl
  value_or-scalar s (some v) h = h v refl

  resolve_context_value-scalar :
      (context : List (Text × Value fl.Float)) (v : Value fl.Float)
      → All (λ (e : Text × Value fl.Float). scalar e.1 ≡ true) context
      → scalar v ≡ true
      → scalar (resolve_context_value fl lib context v) ≡ true
  unfolding resolve_context_value
  resolve_context_value-scalar context (text s) h k = ground (
    arith,
    value_or-scalar s (get fl lib (drop 5 s) context) (λ v e. get-scalar (drop 5 s) context v h e),
  )
  resolve_context_value-scalar context (array items) h k = k
  resolve_context_value-scalar context (object values) h k = k
  resolve_context_value-scalar context _ h k = refl

  compared-calm :
      (j : JsonMatcher fl) (context : List (Text × Value fl.Float)) (v : Found (Value fl.Float))
      → scalar (resolve_context_value fl lib context j.expected_value) ≡ true
      → calm v ≡ true
      → calm (compared fl lib j context v) ≡ true
  compared-calm j context (found v) h k = compare_values-calm fl lib.compile j.operator _ v _ h
  compared-calm j context missing h k = refl
  compared-calm j context panics h k = k

  calm-ne-crashed : (r : Found Bool) → calm r ≡ true → returned fl lib (some r) ≢ crashed
  calm-ne-crashed (found b) h e = ground (arith, e)
  calm-ne-crashed missing h e = ground (arith, e)
  calm-ne-crashed panics h e = ground (arith, h)

  returned-ne-crashed :
      (f : Value fl.Float → Found Bool) (o : Option (Value fl.Float))
      → ((v : Value fl.Float) → calm (f v) ≡ true)
      → returned fl lib (map_found fl lib f o) ≢ crashed
  returned-ne-crashed f none h e = ground (arith, e)
  returned-ne-crashed f (some v) h e = calm-ne-crashed (f v) (h v) e

  pub match-ne-crashed :
      (j : JsonMatcher fl) (context : List (Text × Value fl.Float)) (input : Text)
      → IsParsed fl j
      → All (λ (e : Text × Value fl.Float). scalar e.1 ≡ true) context
      → (match_with_context fl lib j context input).1 ≢ crashed
  unfolding match_with_context judged
  match-ne-crashed j context input p h =
      let w = resolve_context_value-scalar context j.expected_value h p.expected in
      returned-ne-crashed (λ v. judged fl lib j context v) (lib.unmarshal input)
        (λ v.
          compared-calm j context (extract_value j.json_path v) w
            (extract_value-calm j.json_path v p.path))

  pub match-IsParsed :
      (j : JsonMatcher fl) (context : List (Text × Value fl.Float)) (input : Text)
      → IsParsed fl j
      → IsParsed fl (match_with_context fl lib j context input).0
  unfolding match_with_context
  match-IsParsed j context input p = record { path = p.path; expected = p.expected }

  -- A matcher that was made from a pattern, in whichever order the operators were visited, does not
  -- panic on any input, with any context that holds neither arrays nor objects.
  pub parsed_never_crashes :
      (order : List Operator) (pattern input : Text) (j : JsonMatcher fl)
      (context : List (Text × Value fl.Float))
      → parse_pattern fl lib order pattern ≡ made j
      → All (λ (e : Text × Value fl.Float). scalar e.1 ≡ true) context
      → (match_with_context fl lib j context input).1 ≢ crashed
  parsed_never_crashes order pattern input j context e h =
      match-ne-crashed j context input (parse_pattern-IsParsed order pattern j e) h
