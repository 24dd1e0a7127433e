-- ===== src/Examples/StreamRuns.antt =====
-- A stream's matcher at concrete inputs.
use patience.Base.{ℕ, ◌≡◌, refl, Bool, true, false, some, List, [], ◌∷◌, length, ltb, arith}
use patience.Patterns.{StreamingMatcher, process_chunks, process_chunk, reset}
use patience.Patterns.Streams.{finds, process_chunks-finds}

-- Three bytes or more match.
abbrev three_bytes : List ℕ → Bool
three_bytes seen = ltb 2 (length seen)

abbrev matcher : StreamingMatcher
matcher = record {
  regex = some three_bytes;
  buffer = [];
  matched = false;
  max_buffer = 8;
  total_matches = 0;
  successful_matches = 0;
  failed_matches = 0;
  error_count = 0;
}

abbrev two_chunks : List (List ℕ)
two_chunks = (97 ∷ 98 ∷ []) ∷ (99 ∷ 100 ∷ []) ∷ []

process_chunks-finds_example :
    (process_chunks two_chunks (reset matcher)).matched ≡ finds three_bytes [] two_chunks
process_chunks-finds_example =
    process_chunks-finds three_bytes two_chunks matcher refl (omega arith)

-- The match spans the two chunks.
spanning_match : (process_chunks two_chunks (reset matcher)).matched ≡ true
unfolding process_chunks process_chunk reset
spanning_match = refl

-- A chunk that is longer than the limit is kept whole.
over_limit : length (process_chunk (1 ∷ 2 ∷ 3 ∷ 4 ∷ 5 ∷ 6 ∷ 7 ∷ 8 ∷ 9 ∷ []) matcher).buffer ≡ 9
unfolding process_chunk
over_limit = refl
