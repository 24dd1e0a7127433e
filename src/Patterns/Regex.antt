-- ===== src/Patterns/Regex.antt =====
-- A compiled regular expression, as far as pkg/patterns uses one. regexp.Compile is an argument.
use patience.Base.{Bool, List, Text}

pub record Regex : Type 0 where
  -- MatchString
  pub match_string : Text → Bool
  -- FindStringSubmatch: the match and its groups, or nothing
  pub find_submatch : Text → List Text
  -- FindAllStringSubmatch without a limit
  pub find_all_submatch : Text → List (List Text)
