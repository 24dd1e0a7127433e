-- ===== src/Patterns.antt =====
-- The matcher for streamed text (pkg/patterns/multiline_matcher.go). A text is the list of its bytes,
-- a compiled expression its MatchString. The times of the metrics are left out.
pub mod Streams
pub mod Regex
pub mod Multiline
pub mod Json
pub mod Compare
pub mod Sets
pub mod Http
pub mod JsonPattern
use patience.Base.{
  ℕ, ◌+◌, ◌-◌, ◌/◌, ltb, Bool, true, false, Option, none, some, List, [], ◌∷◌, ◌++◌, length, drop,
  if◌then◌else◌,
}

pub record StreamingMatcher : Type 0 where
  pub regex : Option (List ℕ → Bool)
  pub buffer : List ℕ
  pub matched : Bool
  pub max_buffer : ℕ
  pub total_matches : ℕ
  pub successful_matches : ℕ
  pub failed_matches : ℕ
  pub error_count : ℕ

-- The buffer that a chunk is appended to: its last half if the chunk does not fit.
abbrev pub trimmed : List ℕ → StreamingMatcher → List ℕ
trimmed chunk s =
    if ltb s.max_buffer (length s.buffer + length chunk)
    then drop (length s.buffer / 2) s.buffer
    else s.buffer

abbrev pub tested : (List ℕ → Bool) → List ℕ → StreamingMatcher → StreamingMatcher
tested matches buffer s =
    if matches buffer
    then record s { buffer = buffer; matched = true; successful_matches = s.successful_matches + 1 }
    else record s { buffer = buffer; failed_matches = s.failed_matches + 1 }

abbrev pub attempted : Option (List ℕ → Bool) → List ℕ → StreamingMatcher → StreamingMatcher
attempted none chunk s = record s { error_count = s.error_count + 1 }
attempted (some matches) chunk s =
    if s.matched then s else tested matches (trimmed chunk s ++ chunk) s

-- The deferred function counts every call. ProcessChunk returns an error exactly without a regex.
unfoldable pub process_chunk : List ℕ → StreamingMatcher → StreamingMatcher
process_chunk chunk s =
    let after = attempted s.regex chunk s in
    record after { total_matches = after.total_matches + 1 }

unfoldable pub reset : StreamingMatcher → StreamingMatcher
reset s = record s { buffer = []; matched = false }

unfoldable pub process_chunks : List (List ℕ) → StreamingMatcher → StreamingMatcher
process_chunks [] s = s
process_chunks (c ∷ cs) s = process_chunks cs (process_chunk c s)
