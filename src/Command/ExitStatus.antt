-- ===== src/Command/ExitStatus.antt =====
-- What the exit status of patience says.
use patience.Base.{
  ℕ, pos, ◌<◌, ◌≡◌, ◌≢◌, ◌↔◌, refl, sym, ap, ◌∙◌, inl, inr, true, false, ◌||◌, Option, none, some,
  arith, Bool-cases,
}
use mathlib.Core.Path.{subst}
use patience.Conditions.{
  Checker, Reason, failure_pattern_matched, success_pattern_matched, timeout, exit_code,
  max_retries_reached, check_success, by_exit_code,
}
use patience.Executor.Attempts.{
  CommandOutput, Executor, execute_attempt, process_attempt_result, is_failure_pattern, check,
}
use patience.Executor.Loop.{Environment, LoopState, Result, returned, run_attempts}
use patience.Executor.Verdict.{Explained, run_attempts-Explained}
use patience.Command.Executors.{exit_status, mentions_failure_pattern}

module _ {S : Type 0} (e : Executor S) where
  mentions-failure_pattern :
      (r : Reason) → is_failure_pattern e r ≡ true → mentions_failure_pattern r ≡ true
  mentions-failure_pattern failure_pattern_matched h = refl
  mentions-failure_pattern success_pattern_matched h = absurd (ground (arith, h))
  mentions-failure_pattern timeout h = absurd (ground (arith, h))
  mentions-failure_pattern (exit_code c) h = absurd (ground (arith, h))
  mentions-failure_pattern (max_retries_reached r) h = absurd (ground (arith, h))

  stopped-mentions :
      (output : CommandOutput)
      → (process_attempt_result e output).1 ≡ true
      → (process_attempt_result e output).0.success ≡ false
      → mentions_failure_pattern (process_attempt_result e output).0.reason ≡ true
  unfolding process_attempt_result
  stopped-mentions output stop failure =
      mentions-failure_pattern (process_attempt_result e output).0.reason
        (ground (arith, stop, failure))

  judged-nonzero :
      (conditions : Option Checker) (output : CommandOutput)
      → ((check e conditions output).success
          || is_failure_pattern e (check e conditions output).reason)
        ≡ false
      → output.exit_code ≢ pos 0
  unfolding check check_success by_exit_code
  judged-nonzero none output h zero_code = ground (arith, h, zero_code)
  judged-nonzero (some c) output h zero_code = ground (arith, h, zero_code)

  goes_on-nonzero :
      (output : CommandOutput)
      → (process_attempt_result e output).1 ≡ false
      → output.exit_code ≢ pos 0
  unfolding process_attempt_result
  goes_on-nonzero output h = judged-nonzero e.conditions output h

  exit_status-success : (r : Result) → r.success ≡ true → exit_status r ≡ pos 0
  unfolding exit_status
  exit_status-success r h = rw h refl

  exit_status-mentions :
      (r : Result)
      → r.success ≡ false
      → mentions_failure_pattern r.reason ≡ true
      → exit_status r ≡ pos 1
  unfolding exit_status
  exit_status-mentions r h k = ground (arith, h, k)

  exit_status-nonzero :
      (r : Result) → r.success ≡ false → r.exit_code ≢ pos 0 → exit_status r ≢ pos 0
  unfolding exit_status
  exit_status-nonzero r h k zero_status = elim (Bool-cases (mentions_failure_pattern r.reason)) [
    | inl mentions ↦ ground (arith, h, mentions, zero_status)
    | inr other ↦ k (rw (h, other) at zero_status)
  ]

  zero-success :
      (m : ℕ) (r : Result) (st : LoopState S)
      → 0 < m
      → Explained e 1 m (returned r st)
      → exit_status r ≡ pos 0
      → r.success ≡ true
  zero-success m r st positive explained zero_status = elim (Bool-cases r.success) [
    | inl success ↦ success
    | inr failure ↦ absurd (failed_run explained failure)
  ]
    where
      failed_run : Explained e 1 m (returned r st) → r.success ≡ false → ⊥
      failed_run (inl (k, a, b, x, stop, s, p, q, c, before)) failure =
          let mentions =
            ap mentions_failure_pattern p
            ∙ stopped-mentions (execute_attempt e k).output stop (sym s ∙ failure) in
          ground (arith, zero_status, exit_status-mentions r failure mentions)
      failed_run (inr (p, n, c, before)) failure =
          let last = (before m (omega (arith, positive)) (omega arith)).1 in
          let nonzero = goes_on-nonzero (execute_attempt e m).output last in
          exit_status-nonzero r failure (λ z. nonzero (sym c ∙ z)) zero_status

  -- A run of at least one attempt that returns a result gives os.Exit the code 0 exactly if it succeeded.
  pub exit_status_iff :
      (env : Environment) (s : S) (m : ℕ) (r : Result) (st : LoopState S)
      → e.max_attempts ≡ pos m
      → 0 < m
      → run_attempts e env s ≡ returned r st
      → (exit_status r ≡ pos 0) ↔ (r.success ≡ true)
  exit_status_iff env s m r st max positive e_r =
      let explained = subst (Explained e 1 m) e_r (run_attempts-Explained e env m max s positive) in
      (zero-success m r st positive explained, exit_status-success r)
