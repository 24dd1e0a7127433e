-- ===== src/Patterns/JsonPattern/Accounting.antt =====
-- What the JSON matcher's counters say of the matches that were made.
use patience.Base.{
  ◌+◌, ◌≤◌, ◌≡◌, refl, Option, none, some, Bool, true, false, List, [], ◌∷◌, Text, arith, length,
  count, ap, map,
}
use patience.Backoff.Floats.{Floats}
use patience.Patterns.Json.{Value, Found, found, missing, panics}
use patience.Patterns.JsonPattern.{
  Library, JsonMatcher, MatchMetrics, Verdict, verdict, not_json, match_with_context, outcome,
  counted, returned, judged,
}

abbrev pub succeeded : Verdict → Bool
succeeded (verdict b) = b
succeeded _ = false

abbrev pub unmatched : Verdict → Bool
unmatched (verdict true) = false
unmatched (verdict false) = true
unmatched _ = false

abbrev pub failed : Verdict → Bool
failed not_json = true
failed _ = false

-- What the counters of `n` are, when they were those of `m` before these verdicts.
pub record Counts (m n : MatchMetrics) (vs : List Verdict) : Type 0 where
  pub total : n.total_matches ≡ m.total_matches + length vs
  pub successes : n.successful_matches ≡ m.successful_matches + count succeeded vs
  pub errors : n.error_count ≡ m.error_count + count failed vs
  pub failures : n.failed_matches ≤ m.failed_matches + count unmatched vs

module _ (fl : Floats) (lib : Library fl) (context : List (Text × Value fl.Float)) where
  -- A matcher on one input after the other, with the verdicts.
  unfoldable pub match_all : JsonMatcher fl → List Text → JsonMatcher fl × List Verdict
  match_all j [] = (j, [])
  match_all j (input ∷ inputs) =
      let (after, v) = match_with_context fl lib j context input in
      let (last, vs) = match_all after inputs in (last, v ∷ vs)

  counted-Counts :
      (r : Option (Found Bool)) (m n : MatchMetrics) (vs : List Verdict)
      → Counts (counted fl lib r m) n vs
      → Counts m n (returned fl lib r ∷ vs)
  unfolding count
  counted-Counts none m n vs h = ground (arith, h.total, h.successes, h.errors, h.failures)
  counted-Counts (some (found true)) m n vs h =
      ground (arith, h.total, h.successes, h.errors, h.failures)
  counted-Counts (some (found false)) m n vs h =
      ground (arith, h.total, h.successes, h.errors, h.failures)
  counted-Counts (some missing) m n vs h =
      ground (arith, h.total, h.successes, h.errors, h.failures)
  counted-Counts (some panics) m n vs h = ground (arith, h.total, h.successes, h.errors, h.failures)

  -- After a sequence of inputs the total has grown by their number, the successes by the matches, the
  -- errors by the inputs that were not JSON, and the failures by no more than the other answers "no".
  pub match_all-Counts :
      (j : JsonMatcher fl) (inputs : List Text)
      → Counts j.metrics (match_all j inputs).0.metrics (match_all j inputs).1
  unfolding match_all match_with_context count
  match_all-Counts j [] = record {
    total = omega arith;
    successes = omega arith;
    errors = omega arith;
    failures = omega arith;
  }
  match_all-Counts j (input ∷ inputs) =
      counted-Counts (outcome fl lib j context input) j.metrics _ _
        (match_all-Counts (match_with_context fl lib j context input).0 inputs)

  -- What a matcher answers does not depend on what it was asked before.
  pub match_all_verdicts :
      (j : JsonMatcher fl) (inputs : List Text)
      → (match_all j inputs).1 ≡ map (λ input. (match_with_context fl lib j context input).1) inputs
  unfolding match_all match_with_context judged
  match_all_verdicts j [] = refl
  match_all_verdicts j (input ∷ inputs) =
      let (after, v) = match_with_context fl lib j context input in
      ap (λ vs. v ∷ vs) (match_all_verdicts after inputs)
