-- ===== src/Config/Merging.antt =====
-- The two ways in which a configuration is merged with flags.
use patience.Base.{pos, ◌≡◌, eqb_ℤ, Bool, false, not, String, str_eq, refl, if◌then◌else◌}
use patience.Backoff.Floats.{Floats}
use patience.Config.{Config, merge_with_explicit_flags, merge_with_flags, whole}

module _ (fl : Floats) where
  -- The fields that MergeWithFlags takes to be set: those that are not zero, but no Boolean.
  unfoldable pub nonzero_fields : Config fl.Float → String → Bool
  nonzero_fields flags name =
      if str_eq name "attempts"
      then not (eqb_ℤ flags.attempts (pos 0))
      else if str_eq name "delay"
      then not (eqb_ℤ flags.delay (pos 0))
      else if str_eq name "timeout"
      then not (eqb_ℤ flags.timeout (pos 0))
      else if str_eq name "backoff"
      then not (str_eq flags.backoff_type "")
      else if str_eq name "max_delay"
      then not (eqb_ℤ flags.max_delay (pos 0))
      else if str_eq name "multiplier"
      then not (fl.eq flags.multiplier (whole fl 0))
      else if str_eq name "success_pattern"
      then not (str_eq flags.success_pattern "")
      else if str_eq name "failure_pattern"
      then not (str_eq flags.failure_pattern "")
      else if str_eq name "daemon_socket"
      then not (str_eq flags.daemon_socket "")
      else if str_eq name "daemon_timeout"
      then not (eqb_ℤ flags.daemon_timeout (pos 0))
      else false

  -- MergeWithFlags is MergeWithExplicitFlags for the fields that are not zero: so no flag set to zero
  -- and no Boolean flag ever reaches the result of the former, and every other field agrees.
  pub merge_with_flags_explicit :
      (c flags : Config fl.Float)
      → merge_with_flags fl c flags ≡ merge_with_explicit_flags c flags (nonzero_fields flags)
  unfolding merge_with_flags merge_with_explicit_flags nonzero_fields
  merge_with_flags_explicit c flags = refl
