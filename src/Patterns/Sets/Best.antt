-- ===== src/Patterns/Sets/Best.antt =====
-- Which pattern of a set is returned.
use patience.Base.{
  ◌≡◌, refl, ◌≢◌, ◌⊎◌, inl, inr, ◌↔◌, ◌≤◌, Bool, true, false, Option, some, none, List, [], ◌∷◌,
  All, Text, arith, Bool-cases, ◌∙◌, sym, ap, if◌then◌else◌, ltb→lt, ltb→ge, ◌<◌, is_some,
}
use patience.Backoff.Floats.{Floats}
use patience.Patterns.Json.{Value, Found, found, missing, panics}
use patience.Patterns.Compare.{Operator}
use patience.Patterns.JsonPattern.{Library}
use patience.Patterns.Sets.{
  PatternDefinition, PatternSet, Entry, SetMatch, rank, outranks, tried, match_loop, match_set,
  try_pattern, result_of, last_visited,
}
use mathlib.Core.Path.{subst}

-- The entry is one of these.
abbrev pub In : Entry → List Entry → Type 0
In e [] = ⊥
In e (x ∷ xs) = (e ≡ x) ⊎ In e xs

-- No entry that matches has a higher priority.
abbrev pub IsHighest : (PatternDefinition → Found Bool) → List Entry → Entry → Type 0
IsHighest try es best =
    All (λ (e : Entry). try e.1 ≡ found true → rank e.1.priority ≤ rank best.1.priority) es

-- What a loop that had this best entry and visits these entries ends with.
abbrev Ends : (PatternDefinition → Found Bool) → List Entry → Option Entry → Option Entry → Type 0
Ends try es old none = (old ≡ none) × All (λ (e : Entry). try e.1 ≢ found true) es
Ends try es old (some best) =
    ((old ≡ some best) ⊎ (In best es × (try best.1 ≡ found true)))
    × IsHighest try es best
    × ((o : Entry) → old ≡ some o → rank o.1.priority ≤ rank best.1.priority)

rank-old :
    (o x best : Entry)
    → some o ≡ some x
    → rank o.1.priority ≤ rank best.1.priority
    → rank x.1.priority ≤ rank best.1.priority
rank-old o x best same le =
    let same_entry : o ≡ x = cc in
    subst (λ (y : Entry). rank y.1.priority ≤ rank best.1.priority) same_entry le

module _ (try : PatternDefinition → Found Bool) where
  later :
      (e best : Entry) (es : List Entry) {old : Option Entry}
      → (old ≡ some best) ⊎ (In best es × (try best.1 ≡ found true))
      → (old ≡ some best) ⊎ (In best (e ∷ es) × (try best.1 ≡ found true))
  later e best es (inl same) = inl same
  later e best es (inr (i, t)) = inr (inr i, t)

  Ends-miss :
      (e : Entry) (es : List Entry) (old r : Option Entry)
      → try e.1 ≢ found true
      → Ends try es old r
      → Ends try (e ∷ es) old r
  Ends-miss e es old none miss h = (h.0, (miss, h.1))
  Ends-miss e es old (some best) miss h = (later e best es h.0, (λ t. absurd (miss t), h.1), h.2)

  taken :
      (e best : Entry) (es : List Entry) (old : Option Entry)
      → try e.1 ≡ found true
      → (some e ≡ some best) ⊎ (In best es × (try best.1 ≡ found true))
      → (old ≡ some best) ⊎ (In best (e ∷ es) × (try best.1 ≡ found true))
  taken e best es old hit (inl same) =
      let same_entry : best ≡ e = cc in
      inr (inl same_entry, ap (λ (x : Entry). try x.1) same_entry ∙ hit)
  taken e best es old hit (inr (i, t)) = inr (inr i, t)

  Ends-higher :
      (e o : Entry) (es : List Entry) (r : Option Entry)
      → try e.1 ≡ found true
      → rank o.1.priority < rank e.1.priority
      → Ends try es (some e) r
      → Ends try (e ∷ es) (some o) r
  Ends-higher e o es none hit lt h = absurd (ground (arith, h.0))
  Ends-higher e o es (some best) hit lt h = (
    taken e best es (some o) hit h.0,
    (λ t. h.2 e refl, h.1),
    λ x same. rank-old o x best same (omega (arith, lt, h.2 e refl)),
  )

  Ends-lower :
      (e o : Entry) (es : List Entry) (r : Option Entry)
      → try e.1 ≡ found true
      → rank e.1.priority ≤ rank o.1.priority
      → Ends try es (some o) r
      → Ends try (e ∷ es) (some o) r
  Ends-lower e o es none hit le h = absurd (ground (arith, h.0))
  Ends-lower e o es (some best) hit le h =
      (later e best es h.0, (λ t. omega (arith, le, h.2 o refl), h.1), h.2)

  Ends-hit :
      (e : Entry) (es : List Entry) (old r : Option Entry)
      → try e.1 ≡ found true
      → Ends try es (if outranks e old then some e else old) r
      → Ends try (e ∷ es) old r
  Ends-hit e es none none hit h = absurd (ground (arith, h.0))
  Ends-hit e es none (some best) hit h = (
    taken e best es none hit h.0,
    (λ t. h.2 e refl, h.1),
    λ o same. absurd (ground (arith, same)),
  )
  Ends-hit e es (some o) r hit h = elim (Bool-cases (outranks e (some o))) [
    | inl higher ↦ Ends-higher e o es r hit (ltb→lt _ _ higher) (rw higher at h)
    | inr lower ↦ Ends-lower e o es r hit (ltb→ge _ _ lower) (rw lower at h)
  ]

  step-Ends :
      (e : Entry) (es : List Entry) (old r : Option Entry) (v : Found Bool)
      → ((b : Option Entry) → match_loop try es b ≡ found r → Ends try es b r)
      → try e.1 ≡ v
      → tried (λ b. match_loop try es b) e old v ≡ found r
      → Ends try (e ∷ es) old r
  step-Ends e es old r (found true) ih v h = Ends-hit e es old r v (ih _ h)
  step-Ends e es old r (found false) ih v h =
      Ends-miss e es old r (λ t. ground (arith, v, t)) (ih old h)
  step-Ends e es old r missing ih v h = Ends-miss e es old r (λ t. ground (arith, v, t)) (ih old h)
  step-Ends e es old r panics ih v h = absurd (ground (arith, h))

  match_loop-Ends :
      (es : List Entry) (old r : Option Entry) → match_loop try es old ≡ found r → Ends try es old r
  unfolding match_loop
  match_loop-Ends [] old none h = (ground (arith, h), tt)
  match_loop-Ends [] old (some best) h = (inl (ground (arith, h)), tt, λ o e. ground (arith, h, e))
  match_loop-Ends (e ∷ es) old r h =
      step-Ends e es old r (try e.1) (λ b k. match_loop-Ends es b r k) refl h

-- What the result says of the entries, as they were visited: without a match, none matches; else it has
-- the name of an entry that matches, which none that matches outranks, and the definition of the
-- last one visited.
abbrev pub IsBest : (PatternDefinition → Found Bool) → List Entry → Option SetMatch → Type 0
IsBest try es none = All (λ (e : Entry). try e.1 ≢ found true) es
IsBest try es (some m) =
    (best : Entry) × In best es
    × (try best.1 ≡ found true)
    × IsHighest try es best
    × (m ≡ record { pattern_name = best.0; pattern = last_visited best.1 es })

not_old :
    {P : Type 0} (best : Entry) (es : List Entry)
    → (◌≡◌ {A = Option Entry} none (some best)) ⊎ (In best es × P)
    → In best es × P
not_old best es (inl same) = absurd (ground (arith, same))
not_old best es (inr found_one) = found_one

result-IsBest :
    (try : PatternDefinition → Found Bool) (es : List Entry) (o : Found (Option Entry))
    (r : Option SetMatch)
    → ((q : Option Entry) → o ≡ found q → Ends try es none q)
    → result_of es o ≡ found r
    → IsBest try es r
result-IsBest try es (found none) none h e = (h none refl).1
result-IsBest try es (found none) (some m) h e = absurd (ground (arith, e))
result-IsBest try es (found (some best)) none h e = absurd (ground (arith, e))
result-IsBest try es (found (some best)) (some m) h e =
    let ends = h (some best) refl in
    let (inside, hit) = not_old best es ends.0 in
    let same : m ≡ record { pattern_name = best.0; pattern = last_visited best.1 es } = cc in
    (best, inside, hit, ends.1, same)
result-IsBest try es missing r h e = absurd (ground (arith, e))
result-IsBest try es panics r h e = absurd (ground (arith, e))

-- Matching a text against a set that does not panic: without a result, no pattern matches; else the
-- result has the name of a pattern that matches, which none that matches outranks, but the definition
-- of the pattern that was visited last.
pub match_set-IsBest :
    (fl : Floats) (lib : Library fl) (order : Text → List Operator) (ps : PatternSet)
    (context : List (Text × Value fl.Float)) (input : Text) (r : Option SetMatch)
    → match_set fl lib order ps context input ≡ found r
    → IsBest (λ p. try_pattern fl lib order context input p) ps.patterns r
unfolding match_set
match_set-IsBest fl lib order ps context input r h =
    let try : PatternDefinition → Found Bool = λ p. try_pattern fl lib order context input p in
    result-IsBest try ps.patterns (match_loop try ps.patterns none) r
      (λ q e. match_loop-Ends try ps.patterns none q e) h

pub of_In : (P : Entry → Type 0) (e : Entry) (es : List Entry) → All P es → In e es → P e
of_In P e [] h i = absurd i
of_In P e (x ∷ es) h (inl same) = subst P (sym same) h.0
of_In P e (x ∷ es) h (inr i) = of_In P e es h.1 i

same_verdict :
    (try : PatternDefinition → Found Bool) (es fs : List Entry) (r s : Option SetMatch)
    → ((e : Entry) → In e es ↔ In e fs)
    → IsBest try es r
    → IsBest try fs s
    → is_some r ≡ is_some s
same_verdict try es fs none none same h k = refl
same_verdict try es fs (some m) (some n) same h k = refl
same_verdict try es fs none (some n) same h (best, inside, hit, highest, same_match) =
    absurd (of_In (λ (e : Entry). try e.1 ≢ found true) best es h ((same best).1 inside) hit)
same_verdict try es fs (some m) none same (best, inside, hit, highest, same_match) k =
    absurd (of_In (λ (e : Entry). try e.1 ≢ found true) best fs k ((same best).0 inside) hit)

-- Whether a set matches a text does not depend on the order in which its patterns are visited, as long
-- as no pattern panics.
pub match_set_any_order :
    (fl : Floats) (lib : Library fl) (order : Text → List Operator) (ps qs : PatternSet)
    (context : List (Text × Value fl.Float)) (input : Text) (r s : Option SetMatch)
    → ((e : Entry) → In e ps.patterns ↔ In e qs.patterns)
    → match_set fl lib order ps context input ≡ found r
    → match_set fl lib order qs context input ≡ found s
    → is_some r ≡ is_some s
match_set_any_order fl lib order ps qs context input r s same h k =
    same_verdict (λ p. try_pattern fl lib order context input p) ps.patterns qs.patterns r s same
      (match_set-IsBest fl lib order ps context input r h)
      (match_set-IsBest fl lib order qs context input s k)
