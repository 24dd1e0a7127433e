-- ===== src/Backoff/HttpAware.antt =====
-- HTTPAware (pkg/backoff/http_aware.go). A text is the list of its bytes. Regular expressions, number
-- parsing and encoding/json are the argument Parsers; the clock is an argument.
pub mod Delays
pub mod Search
pub mod Braces
use patience.Base.{
  ℕ, zero, suc, ◌+◌, ◌-◌, ◌*◌, ◌==◌, ℤ, pos, ◌*ℤ◌, ◌-ℤ◌, ltb_ℤ, wrap64, saturate64, Bool, true,
  false, not, ◌&&◌, Option, none, some, List, [], ◌∷◌, ◌++◌, take, drop, length, String, str_eq,
  if◌then◌else◌, ◌⊎◌, inl, inr,
}
use patience.Backoff.Cap.{cap}

abbrev pub Text : Type 0
Text = List ℕ

-- A decoded value: a number as the int64 that it is converted to.
pub data Json : Type 0 where
  number : ℤ → Json
  text : Text → Json
  other : Json

-- The submatches of the three patterns, strconv (after trimming), and json.Unmarshal into a map.
pub record Parsers : Type 0 where
  pub retry_after : Text → Option Text
  pub rate_limit : Text → Option Text
  pub rate_limit_reset : Text → Option Text
  pub atoi : Text → Option ℤ
  pub unmarshal : Text → Option (List (String × Json))

pub record HttpAware : Type 0 where
  pub fallback : ℤ → ℤ
  pub max_retry_after : ℤ
  pub last_retry_after : ℤ

unfoldable pub http_aware_delay : HttpAware → ℤ → ℤ
http_aware_delay h attempt =
    if ltb_ℤ (pos 0) h.last_retry_after then h.last_retry_after else h.fallback attempt

-- time.Duration(n) * time.Second
abbrev pub in_seconds : ℤ → ℤ
in_seconds n = wrap64 (n *ℤ pos 1000000000)

abbrev pub or_zero : Option ℤ → ℤ
or_zero none = pos 0
or_zero (some d) = d

abbrev pub parsed : (Text → Option ℤ) → Option Text → Option ℤ
parsed parse none = none
parsed parse (some t) = parse t

abbrev pub seconds_of : Option ℤ → Option ℤ
seconds_of none = none
seconds_of (some n) = some (in_seconds n)

unfoldable pub parse_retry_after_header : Parsers → Text → ℤ
parse_retry_after_header p output = or_zero (seconds_of (parsed p.atoi (p.retry_after output)))

-- time.Until(time.Unix(timestamp, 0)), if it is positive.
abbrev pub until : ℤ → Option ℤ → ℤ
until now none = pos 0
until now (some timestamp) =
    let delay = saturate64 (timestamp *ℤ pos 1000000000 -ℤ now) in
    if ltb_ℤ (pos 0) delay then delay else pos 0

abbrev pub or_else : Option ℤ → ℤ → ℤ
or_else none d = d
or_else (some n) d = in_seconds n

unfoldable pub parse_rate_limit_headers : Parsers → ℤ → Text → ℤ
parse_rate_limit_headers p now output =
    or_else (parsed p.atoi (p.rate_limit output))
      (until now (parsed p.atoi (p.rate_limit_reset output)))

-- `i` is the index of the next byte c; c is 92 for a backslash, 34 for a quote, 123 and 125 for the
-- braces. The depth is at least 1 after the opening brace.
unfoldable pub brace_loop : ℕ → ℕ → Bool → Bool → Text → Option ℕ
brace_loop i depth in_string escaped [] = none
brace_loop i depth in_string escaped (c ∷ cs) =
    let keep = brace_loop (suc i) depth in_string false cs in
    let escape = brace_loop (suc i) depth in_string true cs in
    let quote = brace_loop (suc i) depth (not in_string) false cs in
    let deeper = brace_loop (suc i) (depth + 1) in_string false cs in
    let higher = brace_loop (suc i) (depth - 1) in_string false cs in
    if escaped
    then keep
    else if c == 92 && in_string
    then escape
    else if c == 34
    then quote
    else if in_string
    then keep
    else if c == 123
    then deeper
    else if c == 125
    then (if depth == 1 then some i else higher)
    else keep

-- The offset of the closing brace from `start`, of which `s` is the rest of the text.
unfoldable pub find_matching_brace : Text → Option ℕ
find_matching_brace [] = none
find_matching_brace (c ∷ cs) = if c == 123 then brace_loop 0 0 false false (c ∷ cs) else none

abbrev pub lookup : String → List (String × Json) → Option Json
lookup key [] = none
lookup key (e ∷ es) = let rest = lookup key es in if str_eq e.0 key then some e.1 else rest

abbrev pub retry_value : Parsers → Option Json → Option ℤ
retry_value p (some (number n)) = some (in_seconds n)
retry_value p (some (text t)) = seconds_of (p.atoi t)
retry_value p (some other) = none
retry_value p none = none

abbrev pub first_of : Option ℤ → Option ℤ → Option ℤ
first_of (some d) rest = some d
first_of none rest = rest

unfoldable pub retry_field : Parsers → List String → List (String × Json) → Option ℤ
retry_field p [] fields = none
retry_field p (name ∷ names) fields =
    first_of (retry_value p (lookup name fields)) (retry_field p names fields)

abbrev pub retry_fields : List String
retry_fields =
    "retry_after" ∷ "retry_after_seconds" ∷ "retryAfter" ∷ "retryAfterSeconds" ∷ "retry_in" ∷ []

-- The rest of a text from its first opening brace on, or nothing.
unfoldable pub from_brace : Text → Text
from_brace [] = []
from_brace (c ∷ cs) = let rest = from_brace cs in if c == 123 then c ∷ cs else rest

-- What is found in the candidate that ends at the offset `close`.
unfoldable pub retry_in : Parsers → Text → ℕ → Option (Option ℤ)
retry_in p s close = elim (p.unmarshal (take (suc close) s)) [
  | none ↦ none
  | some fields ↦ some (retry_field p retry_fields fields)
]

-- A delay that was found, or the rest of the text to go on with.
abbrev pub judged : Text → ℕ → Option (Option ℤ) → ℤ ⊎ Text
judged s close none = inr (drop 1 s)
judged s close (some none) = inr (drop (suc close) s)
judged s close (some (some delay)) = inl delay

abbrev pub closed : Parsers → Text → Option ℕ → ℤ ⊎ Text
closed p s none = inr (drop 1 s)
closed p s (some close) = judged s close (retry_in p s close)

abbrev pub resumed : (Text → Option ℤ) → ℤ ⊎ Text → Option ℤ
resumed search (inl delay) = some delay
resumed search (inr rest) = search rest

-- One round of the loop, on the text from its first opening brace on.
abbrev pub search_round : Parsers → (Text → Option ℤ) → Text → Option ℤ
search_round p search [] = some (pos 0)
search_round p search (c ∷ cs) = resumed search (closed p (c ∷ cs) (find_matching_brace (c ∷ cs)))

-- The loop, on the rest of the text from `start` on, for so many rounds; `none` means that they are
-- used up before the loop has ended.
unfoldable pub search_loop : Parsers → ℕ → Text → Option ℤ
search_loop p zero s = none
search_loop p (suc rounds) s = search_round p (λ rest. search_loop p rounds rest) (from_brace s)

-- A text of n bytes takes at most n + 1 rounds, so that the loop has ended.
unfoldable pub search : Parsers → Text → ℤ
search p s = or_zero (search_loop p (suc (length s)) s)

unfoldable pub parse_json_response : Parsers → Text → ℤ
parse_json_response p output = search p (take (10 * 1024) output)

unfoldable pub process_command_output : Parsers → ℤ → Text → Text → HttpAware → HttpAware
process_command_output p now stdout stderr h =
    let output = take (10 * 1024) stdout ++ 10 ∷ take (10 * 1024) stderr in
    let header = parse_retry_after_header p output in
    let limits = parse_rate_limit_headers p now output in
    let body = parse_json_response p output in
    record h {
      last_retry_after =
          if ltb_ℤ (pos 0) header
          then cap h.max_retry_after header
          else if ltb_ℤ (pos 0) limits
          then cap h.max_retry_after limits
          else if ltb_ℤ (pos 0) body
          then cap h.max_retry_after body
          else pos 0;
    }

unfoldable pub set_fallback_strategy : (ℤ → ℤ) → HttpAware → HttpAware
set_fallback_strategy strategy h = record h { fallback = strategy }
