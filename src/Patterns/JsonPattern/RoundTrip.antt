-- ===== src/Patterns/JsonPattern/RoundTrip.antt =====
-- A pattern that is written from its parts is parsed into them.
use patience.Base.{
  ◌≡◌, refl, sym, ap, ◌∙◌, ◌==◌, Option, none, some, Bool, true, false, ◌||◌, List, [], ◌∷◌, ◌++◌,
  Text, All, All-map, All-append, arith, Bool-cases, inl, inr, Without, contains_word, split_once,
  trim_none, trim_delimited, has_suffix_last, has_prefix, is_space, same_text, same_text-eq, codes,
  contains, trim, if◌then◌else◌,
}
use patience.Backoff.Floats.{Floats}
use patience.Patterns.Json.{text}
use patience.Patterns.Compare.{
  Operator, op_equal, op_not_equal, op_greater_than, op_less_than, op_greater_than_or_equal,
  op_less_than_or_equal, op_regex_match, op_contains, op_starts_with, op_ends_with,
}
use patience.Patterns.JsonPattern.{
  Library, parse_pattern, with_regex, with_path, with_halves, halves, split_by, find_operator,
  parse_expected_value, validate_json_path, operator_string, spaced,
}

-- A path, an operator and a quoted value.
unfoldable pub written : Text → Operator → Text → Text
unfolding spaced
written path op value = path ++ (spaced op ++ (34 ∷ (value ++ 34 ∷ [])))

-- A text with neither white space nor a quote.
abbrev pub IsPlain : Text → Type 0
IsPlain s = All (λ c. (is_space c ≡ false) × ((c == 34) ≡ false)) s

plain-Without : (s : Text) → IsPlain s → Without 32 s
unfolding is_space
plain-Without s h = All-map (λ c k. ground (arith, k.0)) s h

operator_of : Text → Option Operator
operator_of s =
    if same_text s (codes "==")
    then some op_equal
    else if same_text s (codes "!=")
    then some op_not_equal
    else if same_text s (codes ">")
    then some op_greater_than
    else if same_text s (codes "<")
    then some op_less_than
    else if same_text s (codes ">=")
    then some op_greater_than_or_equal
    else if same_text s (codes "<=")
    then some op_less_than_or_equal
    else if same_text s (codes "=~")
    then some op_regex_match
    else if same_text s (codes "contains")
    then some op_contains
    else if same_text s (codes "startsWith")
    then some op_starts_with
    else some op_ends_with

operator_of-operator_string : (op : Operator) → operator_of (operator_string op) ≡ some op
unfolding operator_of operator_string same_text
operator_of-operator_string op_equal = refl
operator_of-operator_string _ = refl

pub some-injective : {A : Type 0} {a b : A} → some a ≡ some b → a ≡ b
some-injective e = cc

pub operator_string-injective :
    (op other : Operator)
    → same_text (operator_string op) (operator_string other) ≡ true
    → op ≡ other
operator_string-injective op other h =
    let strings = ap operator_of (same_text-eq (operator_string op) (operator_string other) h) in
    some-injective
      (sym (operator_of-operator_string op) ∙ strings ∙ operator_of-operator_string other)

operator_string-Without : (op : Operator) → Without 32 (operator_string op)
unfolding operator_string
operator_string-Without op_equal = ground arith
operator_string-Without _ = ground arith

-- Whether an operator is visited at all.
abbrev pub visited : Operator → List Operator → Bool
visited op [] = false
visited op (other ∷ rest) =
    same_text (operator_string op) (operator_string other) || visited op rest

quoted-Without : (value : Text) → IsPlain value → Without 32 (34 ∷ (value ++ 34 ∷ []))
quoted-Without value v =
    (ground arith, All-append _ value (34 ∷ []) (plain-Without value v) (ground arith, tt))

contains-written :
    (path value : Text) (op other : Operator)
    → IsPlain path
    → IsPlain value
    → contains (written path op value) (spaced other)
      ≡ same_text (operator_string op) (operator_string other)
unfolding written spaced
contains-written path value op other p v =
    contains_word 32 path (operator_string op) (operator_string other) (34 ∷ (value ++ 34 ∷ []))
      (plain-Without path p) (operator_string-Without op) (operator_string-Without other)
      (quoted-Without value v)

find_operator-written :
    (path value : Text) (op : Operator) (order : List Operator)
    → IsPlain path
    → IsPlain value
    → visited op order ≡ true
    → find_operator order (written path op value) ≡ some op
unfolding find_operator
find_operator-written path value op [] p v h = absurd (ground (arith, h))
find_operator-written path value op (other ∷ rest) p v h =
    elim (Bool-cases (same_text (operator_string op) (operator_string other))) [
      | inl same ↦
          rw (contains-written path value op other p v ∙ same)
            (ap some (sym (operator_string-injective op other same)))
      | inr different ↦
          let later : visited op rest ≡ true = rw different at h in
          rw (contains-written path value op other p v ∙ different)
            (find_operator-written path value op rest p v later)
    ]

split_by-written :
    (path value : Text) (op : Operator)
    → IsPlain path
    → IsPlain value
    → split_by (written path op value) (some op) ≡ path ∷ (34 ∷ (value ++ 34 ∷ [])) ∷ []
unfolding written spaced
split_by-written path value op p v =
    split_once 32 (operator_string op ++ 32 ∷ []) path (34 ∷ (value ++ 34 ∷ []))
      (plain-Without path p) (quoted-Without value v)

trim-quoted :
    (value : Text)
    → IsPlain value
    → trim is_space (34 ∷ (value ++ 34 ∷ [])) ≡ 34 ∷ (value ++ 34 ∷ [])
unfolding is_space
trim-quoted value v =
    trim_none is_space (34 ∷ (value ++ 34 ∷ []))
      (ground arith, All-append _ value (34 ∷ []) (All-map (λ c k. k.0) value v) (ground arith, tt))

module _ (fl : Floats) (lib : Library fl) where
  parse_expected_value-quoted :
      (value : Text)
      → IsPlain value
      → parse_expected_value fl lib (34 ∷ (value ++ 34 ∷ [])) ≡ text value
  unfolding parse_expected_value has_prefix
  parse_expected_value-quoted value v = rw (has_suffix_last 34 (34 ∷ value)) (
      ap text
        (trim_delimited (λ c. c == 34) 34 value (All-map (λ c k. k.1) value v) (ground arith)))

  -- A pattern of a valid path, an operator that is visited and a quoted value, where neither path nor
  -- value contains white space or a quote, is parsed back into these, in whichever order the operators
  -- are visited. (For a regular expression it is still to be compiled.)
  pub parse_pattern-written :
      (path value : Text) (op : Operator) (order : List Operator)
      → IsPlain path
      → IsPlain value
      → validate_json_path path ≡ none
      → visited op order ≡ true
      → parse_pattern fl lib order (written path op value) ≡ with_regex fl lib path op (text value)
  unfolding parse_pattern with_path halves
  parse_pattern-written path value op order p v valid h =
      let quoted = 34 ∷ (value ++ 34 ∷ []) in
      let bare = trim_none is_space path (All-map (λ c k. k.0) path p) in
      let expected =
        ap (λ s. parse_expected_value fl lib s) (trim-quoted value v)
        ∙ parse_expected_value-quoted value v in
      ap (λ o. with_halves fl lib o (halves (split_by (written path op value) o)))
        (find_operator-written path value op order p v h)
      ∙ ap (λ parts. with_halves fl lib (some op) (halves parts))
          (split_by-written path value op p v)
      ∙ ap
          (λ s.
            with_path fl lib s op (parse_expected_value fl lib (trim is_space quoted))
              (validate_json_path s))
          bare
      ∙ ap (λ w. with_path fl lib path op w (validate_json_path path)) expected
      ∙ ap (λ e. with_path fl lib path op (text value) e) valid
