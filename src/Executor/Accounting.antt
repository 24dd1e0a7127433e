-- ===== src/Executor/Accounting.antt =====
-- The statistics and the metrics of a run account for its attempts.
use patience.Base.{
  ℕ, zero, suc, ◌+◌, ◌-◌, ◌≤◌, ◌<◌, ◌≡◌, ◌∙◌, refl, sym, ap, inl, inr, ℤ, pos, pos_part, Bool, true,
  false, Option, none, some, [], ◌∷◌, length, length-append, Option-cases, dec_lt, if◌then◌else◌,
  arith,
}
use mathlib.Core.Path.{subst}
use patience.Conditions.{CheckResult, Reason}
use patience.Executor.Attempts.{
  Strategy, Executor, AttemptOutcome, execute_attempt, process_attempt_result,
}
use patience.Executor.Loop.{
  Environment, Result, LoopState, Outcome, returned, failed, build_final_result, give_up, attempted,
  conclude, attempt_step, run_loop, run_attempts, wait, finalize, record_attempt_start,
  record_attempt_end, determine_final_reason,
}
use patience.Executor.Verdict.{last_attempt, not_last_attempt}
use patience.Metrics.{new_run_metrics}

-- What holds before attempt n: n - 1 attempts are counted, all of them failed.
record Counted {S : Type 0} (n : ℕ) (st : LoopState S) : Type 0 where
  total : suc st.stats.total_attempts ≡ n
  succeeded : st.stats.successful_runs ≡ 0
  failures : st.stats.failed_runs ≡ st.stats.total_attempts
  measured : length st.attempt_metrics ≡ st.stats.total_attempts
  waited : length st.sleeps ≤ st.stats.total_attempts

-- What the result of a run says of its attempts.
pub record AccountsFor {S : Type 0} (r : Result) (st : LoopState S) : Type 0 where
  pub total : r.attempt_count ≡ pos r.stats.total_attempts
  pub sum : r.stats.successful_runs + r.stats.failed_runs ≡ r.stats.total_attempts
  pub succeeded : r.stats.successful_runs ≡ (if r.success then 1 else 0)
  pub measured : length r.metrics.attempts ≡ r.stats.total_attempts
  pub waited : length st.sleeps < r.stats.total_attempts

abbrev pub Accounted : {S : Type 0} → Outcome S → Type 0
Accounted (failed error) = Unit
Accounted (returned r st) = AccountsFor r st

module _ {S : Type 0} (e : Executor S) (env : Environment) (m : ℕ)
    (max : e.max_attempts ≡ pos m) where
  -- After attempt n, with its result counted.
  record Judged (n : ℕ) (success : Bool) (st : LoopState S) : Type 0 where
    total : st.stats.total_attempts ≡ n
    succeeded : st.stats.successful_runs ≡ (if success then 1 else 0)
    sum : st.stats.successful_runs + st.stats.failed_runs ≡ n
    measured : length st.attempt_metrics ≡ n
    waited : length st.sleeps < n

  attempted-Judged :
      (n : ℕ) (o : AttemptOutcome) (result : CheckResult) (st : LoopState S)
      → Counted n st
      → Judged n result.success (attempted e env n o result st)
  unfolding attempted record_attempt_start record_attempt_end
  attempted-Judged n o result st h = record {
    total = ground arith;
    succeeded = ground arith;
    sum = ground arith;
    measured = omega (arith, length-append {0} st.attempt_metrics);
    waited = omega arith;
  }

  build_final_result-AccountsFor :
      (n : ℕ) (success : Bool) (reason : Reason) (st : LoopState S)
      → Judged n success st
      → AccountsFor (build_final_result e env success (pos n) reason st) st
  unfolding build_final_result finalize new_run_metrics
  build_final_result-AccountsFor n success reason st h = record {
    total = ap pos (sym h.total);
    sum = omega arith;
    succeeded = h.succeeded;
    measured = omega arith;
    waited = omega arith;
  }

  wait-Counted :
      (n : ℕ) (strategy : Option (Strategy S)) (st : LoopState S)
      → Judged n false st
      → Counted (suc n) (wait e env strategy n st)
  unfolding wait
  wait-Counted n none st h = record {
    total = omega arith;
    succeeded = h.succeeded;
    failures = omega arith;
    measured = omega arith;
    waited = omega arith;
  }
  wait-Counted n (some strategy) st h = record {
    total = omega arith;
    succeeded = h.succeeded;
    failures = omega arith;
    measured = omega arith;
    waited = ground (arith, length-append st.sleeps ((strategy.delay st.strategy (pos n)).0 ∷ []));
  }

  -- An attempt that does not end the run has failed.
  going_on_failed :
      (n : ℕ)
      → (process_attempt_result e (execute_attempt e n).output).1 ≡ false
      → (process_attempt_result e (execute_attempt e n).output).0.success ≡ false
  unfolding process_attempt_result
  going_on_failed n h = ground arith

  give_up-Accounted :
      (n : ℕ) (st : LoopState S) → n ≡ m → Judged n false st → Accounted (give_up e env st)
  unfolding give_up
  give_up-Accounted n st last h =
      let same : pos n ≡ e.max_attempts = ap pos last ∙ sym max in
      subst
        (λ (k : ℤ).
          AccountsFor
            (build_final_result e env false k
              (determine_final_reason e env st.last_output st.timed_out) st)
            st)
        same
        (build_final_result-AccountsFor n false
          (determine_final_reason e env st.last_output st.timed_out) st h)

  conclude-Accounted :
      (n : ℕ) (result : CheckResult) (stop : Bool) (st : LoopState S)
      (rest : LoopState S → Outcome S)
      → n ≤ m
      → (stop ≡ false → result.success ≡ false)
      → Judged n result.success st
      → (n < m → (st' : LoopState S) → Counted (suc n) st' → Accounted (rest st'))
      → Accounted (conclude e env n result stop st rest)
  unfolding conclude
  conclude-Accounted n result true st rest h ends j later =
      build_final_result-AccountsFor n result.success result.reason st j
  conclude-Accounted n result false st rest h ends j later =
      let j' : Judged n false st = subst (λ (b : Bool). Judged n b st) (ends refl) j in
      elim (dec_lt n m) [
        | yes l ↦
            rw (not_last_attempt e env m max n l) (
              later l (wait e env e.backoff_strategy n st)
                (wait-Counted n e.backoff_strategy st j'))
        | no g ↦
            let last : n ≡ m = omega arith in
            rw (last_attempt e env m max n last) (give_up-Accounted n st last j')
      ]

  attempt_step-Accounted :
      (n : ℕ) (st : LoopState S) (rest : LoopState S → Outcome S)
      → n ≤ m
      → Counted n st
      → (n < m → (st' : LoopState S) → Counted (suc n) st' → Accounted (rest st'))
      → Accounted (attempt_step e env n st rest)
  unfolding attempt_step
  attempt_step-Accounted n st rest h c later =
      let outcome = execute_attempt e n in
      let judged = process_attempt_result e outcome.output in
      elim (Option-cases outcome.error) [
        | inl fine ↦
            rw (fine, attempt_step)
              (conclude-Accounted n judged.0 judged.1 (attempted e env n outcome judged.0 st) rest h
                (going_on_failed n) (attempted-Judged n outcome judged.0 st c) later)
        | inr (error, broken) ↦ rw (broken, attempt_step) tt
      ]

  run_loop-Accounted :
      (rounds n : ℕ) (st : LoopState S)
      → n + rounds ≡ m
      → Counted n st
      → Accounted (run_loop e env (suc rounds) n st)
  unfolding run_loop
  run_loop-Accounted zero n st h c =
      attempt_step-Accounted n st (run_loop e env 0 (suc n)) (omega arith) c
        (λ l st' c'. absurd (omega arith))
  run_loop-Accounted (suc rounds) n st h c =
      attempt_step-Accounted n st (run_loop e env (suc rounds) (suc n)) (omega arith) c
        (λ l st' c'. run_loop-Accounted rounds (suc n) st' (omega arith) c')

  -- With a positive number of attempts, the result of a run that returns one accounts for its
  -- attempts: the count is what the statistics and the metrics hold, the successful and the failed
  -- ones add up to it, there is one success if the run succeeded and none otherwise, and the run
  -- waited fewer times than it tried.
  pub run_attempts-Accounted : (s : S) → 0 < m → Accounted (run_attempts e env s)
  unfolding run_attempts
  run_attempts-Accounted s h =
      let rounds : pos_part e.max_attempts ≡ suc (m - 1) = ap pos_part max ∙ omega arith in
      rw rounds (
        run_loop-Accounted (m - 1) 1 _ (omega arith) (record {
          total = refl;
          succeeded = refl;
          failures = refl;
          measured = refl;
          waited = omega arith;
        }))
