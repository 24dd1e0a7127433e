-- ===== src/Command/Fallbacks.antt =====
-- What a subcommand that starts its command has checked.
use patience.Base.{
  pos, ◌≤ℤ◌, ◌≡◌, refl, Bool, true, false, Option, none, some, List, String, if◌then◌else◌, arith,
  is_empty, is_some, sym, ◌||◌,
}
use patience.Backoff.Floats.{Floats}
use patience.Config.{Config, is_one_of}
use patience.Command.{CommonConfig, CommandError, validate_common, broken, no_command}
use patience.Command.Offsets.{Offsets, offsets, bad_offset}
use patience.Command.Strategies.{
  Strategy, valid_fallbacks, create_fallback_strategy, DiophantineConfig, validate_exponential,
}
use patience.Command.Runs.{
  Subcommand, Started, stopped, started, Inputs, run_subcommand, checked, chosen, with_loaded,
  with_offsets, http_aware_command, exponential_command, linear_command, fixed_command,
  jitter_command, decorrelated_jitter_command, fibonacci_command, polynomial_command,
  adaptive_command, diophantine_command, prepare, configured, update_of,
}
use mathlib.Core.Path.{subst}

is_some-if :
    {A : Type 0} (a b : Bool) (s : A) (r : Option A)
    → is_some (if a || b then some s else r) ≡ (a || (b || is_some r))
is_some-if true b s r = refl
is_some-if false true s r = refl
is_some-if false false s r = refl

-- The names that the validation accepts are those for which there is a strategy.
pub create_fallback_strategy-valid :
    (fl : Floats) (name : String)
    → is_some (create_fallback_strategy fl name) ≡ is_one_of name valid_fallbacks
unfolding create_fallback_strategy
create_fallback_strategy-valid fl name = simp (is_some-if)

-- A configuration with which a command is run.
pub record IsAccepted (compiles : String → Bool) (c : CommonConfig) : Type 0 where
  pub at_least_one : pos 1 ≤ℤ c.attempts
  pub at_most_thousand : c.attempts ≤ℤ pos 1000
  pub timeout : pos 0 ≤ℤ c.timeout
  pub success : broken compiles c.success_pattern ≡ false
  pub failure : broken compiles c.failure_pattern ≡ false

validate_common-IsAccepted :
    (compiles : String → Bool) (c : CommonConfig)
    → validate_common compiles c ≡ none
    → IsAccepted compiles c
unfolding validate_common
validate_common-IsAccepted compiles c h = record {
  at_least_one = ground (arith, h);
  at_most_thousand = ground (arith, h);
  timeout = ground (arith, h);
  success = ground (arith, h);
  failure = ground (arith, h);
}

module _ (fl : Floats) (inputs : Inputs fl) where
  -- A result that runs a command runs it with this configuration and these arguments.
  abbrev Runs : CommonConfig → List String → Started fl → Type 0
  Runs c args (stopped e) = Unit {0}
  Runs c args (started s c' args') = (c' ≡ c) × (args' ≡ args)

  -- It runs one only if the configuration is accepted.
  abbrev Accepts : List String → Started fl → Type 0
  Accepts args (stopped e) = Unit {0}
  Accepts args (started s c args') = IsAccepted inputs.compiles c × (args' ≡ args)

  checked-Runs :
      (o : Option CommandError) (c : CommonConfig) (args : List String) (r : Started fl)
      → Runs c args r
      → Runs c args (checked fl inputs o r)
  checked-Runs none c args r h = h
  checked-Runs (some e) c args r h = tt

  chosen-Runs :
      (c : CommonConfig) (args : List String) (e : CommandError) (o : Option (Strategy fl))
      → Runs c args (chosen fl inputs c args e o)
  chosen-Runs c args e none = tt
  chosen-Runs c args e (some s) = (refl, refl)

  with_offsets-Runs :
      (d : DiophantineConfig) (c : CommonConfig) (args : List String) (o : Offsets)
      → Runs c args (with_offsets fl inputs d c args o)
  with_offsets-Runs d c args (offsets ds) = (refl, refl)
  with_offsets-Runs d c args (bad_offset e) = tt

  Accepts-Runs :
      (c : CommonConfig) (args : List String) (r : Started fl)
      → IsAccepted inputs.compiles c
      → Runs c args r
      → Accepts args r
  Accepts-Runs c args (stopped e) v h = tt
  Accepts-Runs c args (started s c' args') v h =
      (subst (IsAccepted inputs.compiles) (sym h.0) v, h.1)

  common-Accepts :
      (o : Option CommandError) (c : CommonConfig) (args : List String) (r : Started fl)
      → validate_common inputs.compiles c ≡ o
      → Runs c args r
      → Accepts args (checked fl inputs o r)
  common-Accepts none c args r e h =
      Accepts-Runs c args r (validate_common-IsAccepted inputs.compiles c e) h
  common-Accepts (some x) c args r e h = tt

  with_loaded-Accepts :
      (update : CommonConfig → Config fl.Float → CommonConfig) (c : CommonConfig)
      (args : List String) (next : CommonConfig → Started fl) (o : Option (Config fl.Float))
      → ((c' : CommonConfig) → Runs c' args (next c'))
      → Accepts args (with_loaded fl inputs update c next o)
  with_loaded-Accepts update c args next none h = tt
  with_loaded-Accepts update c args next (some cfg) h =
      common-Accepts _ (update c cfg) args _ refl (h (update c cfg))

  prepare-Runs :
      (s : Subcommand fl) (c : CommonConfig) (args : List String)
      → Runs c args (prepare fl inputs s c args)
  unfolding prepare
  prepare-Runs (http_aware_command h) c args = search (checked-Runs, chosen-Runs)
  prepare-Runs (exponential_command x) c args =
      checked-Runs (validate_exponential fl x) c args (started _ c args) (refl, refl)
  prepare-Runs (diophantine_command d) c args = search (checked-Runs, with_offsets-Runs)
  prepare-Runs (linear_command l) c args = (refl, refl)
  prepare-Runs (fixed_command f) c args = (refl, refl)
  prepare-Runs (jitter_command j) c args = (refl, refl)
  prepare-Runs (decorrelated_jitter_command d) c args = (refl, refl)
  prepare-Runs (fibonacci_command f) c args = (refl, refl)
  prepare-Runs (polynomial_command p) c args = search (checked-Runs, chosen-Runs)
  prepare-Runs (adaptive_command a) c args = search (checked-Runs, chosen-Runs)

  configured-Accepts :
      (update : Option (CommonConfig → Config fl.Float → CommonConfig)) (c : CommonConfig)
      (args : List String) (next : CommonConfig → Started fl)
      → ((c' : CommonConfig) → Runs c' args (next c'))
      → Accepts args (configured fl inputs update c next)
  configured-Accepts none c args next h = common-Accepts _ c args (next c) refl (h c)
  configured-Accepts (some update) c args next h = with_loaded-Accepts update c args next _ h

  -- A subcommand that runs a command runs the arguments it was given, of which there is at least one,
  -- between 1 and 1000 times, with a timeout that is not negative and patterns that compile.
  pub run_subcommand-IsAccepted :
      (command : Subcommand fl) (c c' : CommonConfig) (args args' : List String) (s : Strategy fl)
      → run_subcommand fl inputs command c args ≡ started s c' args'
      → IsAccepted inputs.compiles c' × (args' ≡ args) × (is_empty args ≡ false)
  unfolding run_subcommand
  run_subcommand-IsAccepted command c c' args args' s e = ran (is_empty args) refl e
    where
      ran :
          (empty : Bool)
          → is_empty args ≡ empty
          → (if empty
              then stopped no_command
              else configured fl inputs
                  (update_of fl inputs command)
                  c
                  (λ x. prepare fl inputs command x args))
            ≡ started s c' args'
          → IsAccepted inputs.compiles c' × (args' ≡ args) × (is_empty args ≡ false)
      ran true none_given k = absurd (ground (arith, k))
      ran false some_given k =
          let (accepted, same) = subst (Accepts args) k (
            configured-Accepts (update_of fl inputs command) c args _
              (λ x. prepare-Runs command x args)) in
          (accepted, same, some_given)
