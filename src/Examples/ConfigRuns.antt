-- ===== src/Examples/ConfigRuns.antt =====
-- Validation and merging of a configuration at concrete inputs.
use patience.Base.{ℕ, ◌≡◌, ◌≤ℤ◌, ◌*ℤ◌, ◌↔◌, refl, pos, false, [], ◌∷◌, arith}
use patience.Examples.Thousandths.{thousandths}
use patience.Backoff.Cap.{cap}
use patience.Backoff.Linear.{Linear, linear_delay}
use patience.Config.{
  Config, collect, validate, validate_combinations, max_delay_below_delay, multiplier_not_used,
}
use patience.Config.Validity.{IsValid, validate_iff, valid_linear_delay}

abbrev linear_config : Config ℕ
linear_config = record {
  attempts = pos 5;
  delay = pos 2000000000;
  timeout = pos 0;
  backoff_type = "linear";
  max_delay = pos 60000000000;
  multiplier = 2000;
  success_pattern = "";
  failure_pattern = "";
  case_insensitive = false;
  daemon_enabled = false;
  daemon_socket = "/tmp/patience.sock";
  daemon_timeout = pos 0;
  daemon_auto_start = false;
}

linear_config_passes : validate thousandths linear_config ≡ []
unfolding validate validate_combinations collect
linear_config_passes = refl

-- A maximum below the delay, and a multiplier that the strategy does not use.
two_violations :
    validate thousandths record linear_config { max_delay = pos 5; multiplier = 3000 }
    ≡ max_delay_below_delay ∷ multiplier_not_used ∷ []
unfolding validate validate_combinations collect
two_violations = refl

validate_iff_example : (validate thousandths linear_config ≡ []) ↔ IsValid thousandths linear_config
validate_iff_example = validate_iff thousandths linear_config

abbrev configured : Linear
configured = record { increment = pos 2000000000; max_delay = pos 60000000000 }

valid_linear_delay_example :
    (linear_delay configured (pos 4) ≡ cap (pos 60000000000) (pos 4 *ℤ pos 2000000000))
    × (pos 0 ≤ℤ linear_delay configured (pos 4))
valid_linear_delay_example =
    valid_linear_delay thousandths linear_config 3 linear_config_passes (omega arith)
