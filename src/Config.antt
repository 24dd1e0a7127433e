-- ===== src/Config.antt =====
-- The configuration of a run (pkg/config/config.go): merging with flags, and validation. Reading
-- files and the environment (viper) is not modelled; a violation is a constructor in place of its
-- field, value and message.
pub mod StrategyNames
pub mod Validity
pub mod Merging
use patience.Base.{
  ℕ, ◌*◌, ℤ, pos, ltb_ℤ, eqb_ℤ, Bool, true, false, ◌&&◌, ◌||◌, not, List, [], ◌∷◌, ◌++◌, String,
  str_eq, if◌then◌else◌,
}
use patience.Backoff.Floats.{Floats}

pub record Config (F : Type 0) : Type 0 where
  pub attempts : ℤ
  pub delay : ℤ
  pub timeout : ℤ
  pub backoff_type : String
  pub max_delay : ℤ
  pub multiplier : F
  pub success_pattern : String
  pub failure_pattern : String
  pub case_insensitive : Bool
  pub daemon_enabled : Bool
  pub daemon_socket : String
  pub daemon_timeout : ℤ
  pub daemon_auto_start : Bool

pub data Violation : Type 0 where
  attempts_out_of_range delay_negative delay_too_long timeout_negative timeout_too_long : Violation
  unknown_backoff max_delay_negative max_delay_too_long max_delay_below_delay : Violation
  multiplier_too_small multiplier_too_large delay_required : Violation
  multiplier_not_used max_delay_not_used : Violation

-- `explicitFields` is the set of the fields that were set.
unfoldable pub merge_with_explicit_flags :
    {F : Type 0} → Config F → Config F → (String → Bool) → Config F
merge_with_explicit_flags c flags explicit = record {
  attempts = if explicit "attempts" then flags.attempts else c.attempts;
  delay = if explicit "delay" then flags.delay else c.delay;
  timeout = if explicit "timeout" then flags.timeout else c.timeout;
  backoff_type = if explicit "backoff" then flags.backoff_type else c.backoff_type;
  max_delay = if explicit "max_delay" then flags.max_delay else c.max_delay;
  multiplier = if explicit "multiplier" then flags.multiplier else c.multiplier;
  success_pattern = if explicit "success_pattern" then flags.success_pattern else c.success_pattern;
  failure_pattern = if explicit "failure_pattern" then flags.failure_pattern else c.failure_pattern;
  case_insensitive =
      if explicit "case_insensitive" then flags.case_insensitive else c.case_insensitive;
  daemon_enabled = if explicit "daemon_enabled" then flags.daemon_enabled else c.daemon_enabled;
  daemon_socket = if explicit "daemon_socket" then flags.daemon_socket else c.daemon_socket;
  daemon_timeout = if explicit "daemon_timeout" then flags.daemon_timeout else c.daemon_timeout;
  daemon_auto_start =
      if explicit "daemon_auto_start" then flags.daemon_auto_start else c.daemon_auto_start;
}

abbrev pub one_day : ℤ
one_day = pos (24 * 3600 * 1000000000)

-- The loops over the lists of strategies.
abbrev pub is_one_of : String → List String → Bool
is_one_of name [] = false
is_one_of name (x ∷ xs) = str_eq name x || is_one_of name xs

abbrev pub exponential_types : List String
exponential_types = "exponential" ∷ "jitter" ∷ "decorrelated-jitter" ∷ []

abbrev pub max_delay_types : List String
max_delay_types = "exponential" ∷ "jitter" ∷ "linear" ∷ "decorrelated-jitter" ∷ "fibonacci" ∷ []

abbrev pub backoff_types : List String
backoff_types =
    "fixed" ∷ "exponential" ∷ "jitter" ∷ "linear" ∷ "decorrelated-jitter" ∷ "fibonacci" ∷ "adaptive"
    ∷ "polynomial" ∷ "http-aware" ∷ []

-- `if test { errors = append(errors, violation) }` for each of the pairs in order.
unfoldable pub collect : List (Bool × Violation) → List Violation
collect [] = []
collect (t ∷ ts) = let rest = collect ts in if t.0 then t.1 ∷ rest else rest

module _ (fl : Floats) where
  abbrev pub whole : ℕ → fl.Float
  whole n = fl.of_int (pos n)

  abbrev pub combination_checks : Config fl.Float → List (Bool × Violation)
  combination_checks c =
      (is_one_of c.backoff_type exponential_types && eqb_ℤ c.delay (pos 0), delay_required)
      ∷ (
        not (fl.eq c.multiplier (whole 2)) && not (is_one_of c.backoff_type exponential_types),
        multiplier_not_used,
      )
      ∷ (
        ltb_ℤ (pos 0) c.max_delay && not (is_one_of c.backoff_type max_delay_types),
        max_delay_not_used,
      )
      ∷ []

  abbrev pub checks : Config fl.Float → List (Bool × Violation)
  checks c =
      (ltb_ℤ c.attempts (pos 1) || ltb_ℤ (pos 1000) c.attempts, attempts_out_of_range)
      ∷ (ltb_ℤ c.delay (pos 0), delay_negative)
      ∷ (ltb_ℤ one_day c.delay, delay_too_long)
      ∷ (ltb_ℤ c.timeout (pos 0), timeout_negative)
      ∷ (ltb_ℤ one_day c.timeout, timeout_too_long)
      ∷ (
        not (str_eq c.backoff_type "") && not (is_one_of c.backoff_type backoff_types),
        unknown_backoff,
      )
      ∷ (ltb_ℤ c.max_delay (pos 0), max_delay_negative)
      ∷ (ltb_ℤ one_day c.max_delay, max_delay_too_long)
      ∷ (
        ltb_ℤ (pos 0) c.max_delay && ltb_ℤ (pos 0) c.delay && ltb_ℤ c.max_delay c.delay,
        max_delay_below_delay,
      )
      ∷ (fl.less c.multiplier (whole 1), multiplier_too_small)
      ∷ (fl.less (whole 10) c.multiplier, multiplier_too_large)
      ∷ []

  unfoldable pub validate_combinations : Config fl.Float → List Violation
  validate_combinations c = collect (combination_checks c)

  -- The errors in the order of the code; Validate returns nil exactly if there are none.
  unfoldable pub validate : Config fl.Float → List Violation
  validate c = collect (checks c) ++ validate_combinations c

  -- Only the values that are not zero override; the Booleans are left to the caller.
  unfoldable pub merge_with_flags : Config fl.Float → Config fl.Float → Config fl.Float
  merge_with_flags c flags = record c {
    attempts = if not (eqb_ℤ flags.attempts (pos 0)) then flags.attempts else c.attempts;
    delay = if not (eqb_ℤ flags.delay (pos 0)) then flags.delay else c.delay;
    timeout = if not (eqb_ℤ flags.timeout (pos 0)) then flags.timeout else c.timeout;
    backoff_type =
        if not (str_eq flags.backoff_type "") then flags.backoff_type else c.backoff_type;
    max_delay = if not (eqb_ℤ flags.max_delay (pos 0)) then flags.max_delay else c.max_delay;
    multiplier = if not (fl.eq flags.multiplier (whole 0)) then flags.multiplier else c.multiplier;
    success_pattern =
        if not (str_eq flags.success_pattern "") then flags.success_pattern else c.success_pattern;
    failure_pattern =
        if not (str_eq flags.failure_pattern "") then flags.failure_pattern else c.failure_pattern;
    daemon_socket =
        if not (str_eq flags.daemon_socket "") then flags.daemon_socket else c.daemon_socket;
    daemon_timeout =
        if not (eqb_ℤ flags.daemon_timeout (pos 0)) then flags.daemon_timeout else c.daemon_timeout;
  }
