-- ===== src/Conditions.antt =====
-- Checker (pkg/conditions/conditions.go). A compiled regular expression is its `MatchString`;
-- `compile` stands for `regexp.Compile` and fails with `none`. The reason strings are the
-- constructors of `Reason`, with those that pkg/executor builds from them.
use patience.Base.{
  ℤ, pos, eqb_ℤ, String, Bool, true, false, ◌||◌, Option, none, some, ◌≡◌, ◌⊎◌, if◌then◌else◌,
  arith, str_eq, ◌↔◌,
}
use Prim.Native.String.{◌++◌}

pub data Reason : Type 0 where
  failure_pattern_matched success_pattern_matched timeout : Reason
  exit_code : ℤ → Reason
  max_retries_reached : Reason → Reason

pub record CheckResult : Type 0 where
  pub success : Bool
  pub reason : Reason

abbrev pub Regex : Type 0
Regex = String → Bool

pub record Checker : Type 0 where
  pub success_pattern : Option Regex
  pub failure_pattern : Option Regex

pub data CheckerError : Type 0 where
  invalid_success_pattern invalid_failure_pattern : CheckerError

pub data NewChecker : Type 0 where
  created : Checker → NewChecker
  refused : CheckerError → NewChecker

-- The pattern that is compiled, with the flag in front if case is ignored.
flagged : Bool → String → String
flagged true pattern = "(?i)" ++ pattern
flagged false pattern = pattern

pattern_set : Option Regex → Option (Option Regex)
pattern_set none = none
pattern_set (some r) = some (some r)

-- An empty pattern means that there is none; `none` outside stands for a compilation that failed.
compile_pattern : (String → Option Regex) → Bool → String → Option (Option Regex)
unfolding flagged pattern_set
compile_pattern compile case_insensitive pattern =
    if str_eq pattern ""
    then some none
    else pattern_set (compile (flagged case_insensitive pattern))

with_failure : Option Regex → Option (Option Regex) → NewChecker
with_failure success none = refused invalid_failure_pattern
with_failure success (some failure) =
    created (record { success_pattern = success; failure_pattern = failure })

with_success : Option (Option Regex) → Option (Option Regex) → NewChecker
with_success none failure = refused invalid_success_pattern
with_success (some success) failure = with_failure success failure

unfoldable pub new_checker : (String → Option Regex) → String → String → Bool → NewChecker
unfolding compile_pattern with_success with_failure
new_checker compile success failure case_insensitive =
    with_success (compile_pattern compile case_insensitive success)
      (compile_pattern compile case_insensitive failure)

-- A pattern that is set and matches the standard output or the standard error.
abbrev pub matches : Option Regex → String → String → Bool
matches none stdout stderr = false
matches (some match) stdout stderr = match stdout || match stderr

unfoldable pub by_exit_code : ℤ → CheckResult
by_exit_code code =
    if eqb_ℤ code (pos 0)
    then record { success = true; reason = exit_code (pos 0) }
    else record { success = false; reason = exit_code code }

unfoldable pub check_success : Checker → ℤ → String → String → CheckResult
unfolding by_exit_code
check_success c code stdout stderr =
    if matches c.failure_pattern stdout stderr
    then record { success = false; reason = failure_pattern_matched }
    else if matches c.success_pattern stdout stderr
    then record { success = true; reason = success_pattern_matched }
    else by_exit_code code

-- A run counts as a success exactly when the failure pattern does not match and either the success
-- pattern matches or the exit code is 0; the failure pattern matching is what gives its reason.
pub check_success_iff :
    (c : Checker) (code : ℤ) (stdout stderr : String)
    → let r = check_success c code stdout stderr in
      ((r.success ≡ true) ↔ (
        (matches c.failure_pattern stdout stderr ≡ false)
        × ((matches c.success_pattern stdout stderr ≡ true) ⊎ (code ≡ pos 0))))
      × ((r.reason ≡ failure_pattern_matched) ↔ (matches c.failure_pattern stdout stderr ≡ true))
unfolding check_success
check_success_iff c code stdout stderr =
    ((λ h. ground arith, λ h. ground arith), (λ h. ground arith, λ h. ground arith))
