-- ===== src/Patterns/JsonPattern/Orders.antt =====
-- The order in which the loop of pkg/patterns/json_matcher.go visits the map of the operators makes no
-- difference to a pattern that contains one operator at most.
use patience.Base.{
  ◌≡◌, ◌≤◌, refl, sym, ap, ◌∙◌, inl, inr, Bool, true, some, List, [], ◌∷◌, Text, count, contains,
  arith, Bool-cases, same_text, same_text_refl,
}
use mathlib.Core.Path.{subst}
use patience.Backoff.Floats.{Floats}
use patience.Patterns.Compare.{Operator}
use patience.Patterns.JsonPattern.{
  Library, operators, operator_string, spaced, find_operator, parse_pattern, split_by, halves,
  with_halves,
}
use patience.Patterns.JsonPattern.RoundTrip.{visited, operator_string-injective, some-injective}

-- An order in which the keys of the map are visited, and nothing else.
abbrev pub VisitsKeys : List Operator → Type 0
VisitsKeys order = (op : Operator) → visited op order ≡ visited op operators

-- At most one of the operators stands between spaces in the pattern.
abbrev pub IsUnambiguous : Text → Type 0
IsUnambiguous pattern = count (λ op. contains pattern (spaced op)) operators ≤ 1

module _ (test : Operator → Bool) where
  test_same :
      (a b : Operator)
      → same_text (operator_string a) (operator_string b) ≡ true
      → test a ≡ true
      → test b ≡ true
  test_same a b h t = subst (λ op. test op ≡ true) (operator_string-injective a b h) t

  visited-count :
      (a : Operator) (ops : List Operator)
      → visited a ops ≡ true
      → test a ≡ true
      → 1 ≤ count test ops
  unfolding count
  visited-count a [] v t = absurd (ground (arith, v))
  visited-count a (x ∷ ops) v t =
      elim (Bool-cases (same_text (operator_string a) (operator_string x))) [
        | inl same ↦ rw (test_same a x same t) (omega arith)
        | inr other ↦
            let later : visited a ops ≡ true = rw other at v in
            ground (arith, visited-count a ops later t)
      ]

  at_most_one :
      (a b : Operator) (ops : List Operator)
      → count test ops ≤ 1
      → visited a ops ≡ true
      → test a ≡ true
      → visited b ops ≡ true
      → test b ≡ true
      → a ≡ b
  unfolding count
  at_most_one a b [] few v t w u = absurd (ground (arith, v))
  at_most_one a b (x ∷ ops) few v t w u =
      elim (Bool-cases (same_text (operator_string a) (operator_string x))) [
        | inl same_a ↦ elim (Bool-cases (same_text (operator_string b) (operator_string x))) [
          | inl same_b ↦
              operator_string-injective a x same_a ∙ sym (operator_string-injective b x same_b)
          | inr other_b ↦
              let later : visited b ops ≡ true = rw other_b at w in
              absurd (ground (arith, few, test_same a x same_a t, visited-count b ops later u))
        ]
        | inr other_a ↦
            let later : visited a ops ≡ true = rw other_a at v in
            elim (Bool-cases (same_text (operator_string b) (operator_string x))) [
              | inl same_b ↦
                  absurd (ground (arith, few, test_same b x same_b u, visited-count a ops later t))
              | inr other_b ↦
                  let later_b : visited b ops ≡ true = rw other_b at w in
                  at_most_one a b ops (ground (arith, few)) later t later_b u
            ]
      ]

module _ (pattern : Text) where
  find_operator-visited :
      (op : Operator) (order : List Operator)
      → find_operator order pattern ≡ some op
      → (visited op order ≡ true) × (contains pattern (spaced op) ≡ true)
  unfolding find_operator
  find_operator-visited op [] h = absurd (ground (arith, h))
  find_operator-visited op (x ∷ order) h = elim (Bool-cases (contains pattern (spaced x))) [
    | inl hit ↦
        let same : x ≡ op = some-injective (rw hit at h) in
        let itself =
          ap (λ o. same_text (operator_string op) (operator_string o)) same ∙ same_text_refl _ in
        (ground (arith, itself), subst (λ o. contains pattern (spaced o) ≡ true) same hit)
    | inr miss ↦
        let (v, c) = find_operator-visited op order (rw miss at h) in (ground (arith, v), c)
  ]

  visited-find_operator :
      (op : Operator) (order : List Operator)
      → visited op order ≡ true
      → contains pattern (spaced op) ≡ true
      → (found : Operator) × (find_operator order pattern ≡ some found)
  unfolding find_operator
  visited-find_operator op [] v h = absurd (ground (arith, v))
  visited-find_operator op (x ∷ order) v h = elim (Bool-cases (contains pattern (spaced x))) [
    | inl hit ↦ rw hit (x, refl)
    | inr miss ↦ rw miss (elim (Bool-cases (same_text (operator_string op) (operator_string x))) [
      | inl same ↦
          absurd (ground (arith, miss, test_same (λ o. contains pattern (spaced o)) op x same h))
      | inr other ↦ visited-find_operator op order (rw other at v) h
    ])
  ]

  -- Two orders find the same operator.
  find_operator_any_order :
      (order order' : List Operator)
      → VisitsKeys order
      → VisitsKeys order'
      → IsUnambiguous pattern
      → (op : Operator) → find_operator order pattern ≡ some op
      → find_operator order' pattern ≡ some op
  find_operator_any_order order order' keys keys' few op h =
      let (v, c) = find_operator-visited op order h in
      let key = sym (keys op) ∙ v in
      let (other, h') = visited-find_operator op order' (keys' op ∙ key) c in
      let (v', c') = find_operator-visited other order' h' in
      let key' = sym (keys' other) ∙ v' in
      let same =
        at_most_one (λ o. contains pattern (spaced o)) other op operators few key' c' key c in
      h' ∙ ap some same

-- A pattern that one order finds an operator in is parsed in the same way with any other order.
pub parse_pattern_any_order :
    (fl : Floats) (lib : Library fl) (pattern : Text) (order order' : List Operator)
    → VisitsKeys order
    → VisitsKeys order'
    → IsUnambiguous pattern
    → (op : Operator) → find_operator order pattern ≡ some op
    → parse_pattern fl lib order' pattern ≡ parse_pattern fl lib order pattern
unfolding parse_pattern
parse_pattern_any_order fl lib pattern order order' keys keys' few op h =
    let same = find_operator_any_order pattern order order' keys keys' few op h ∙ sym h in
    ap (λ o. with_halves fl lib o (halves (split_by pattern o))) same
