-- ===== src/Executor/Verdict.antt =====
-- What a run returns, told from its attempts alone.
use patience.Base.{
  ℕ, zero, suc, ◌+◌, ◌≤◌, ◌<◌, ◌≡◌, ◌∙◌, refl, sym, ap, ◌⊎◌, inl, inr, pos, pos_part, ◌-◌, eqb_ℤ,
  Bool, true, false, Option, none, some, Bool-cases, Option-cases, dec_lt, arith,
}
use mathlib.Core.Path.{subst}
use patience.Conditions.{CheckResult}
use patience.Executor.Attempts.{RunError, Executor, execute_attempt, process_attempt_result}
use patience.Executor.Loop.{
  Environment, LoopState, Outcome, returned, failed, build_final_result, give_up, attempted,
  conclude, attempt_step, run_loop, run_attempts, wait,
}

module _ {S : Type 0} (e : Executor S) where
  -- How attempt n is judged, and whether it ends the run.
  abbrev pub verdict : ℕ → CheckResult
  verdict n = (process_attempt_result e (execute_attempt e n).output).0

  abbrev pub stops : ℕ → Bool
  stops n = (process_attempt_result e (execute_attempt e n).output).1

  abbrev pub error_of : ℕ → Option RunError
  error_of n = (execute_attempt e n).error

  -- Every attempt from `first` up to, and without, `n` ran without an error and did not stop.
  abbrev pub GoesOn : ℕ → ℕ → Type 0
  GoesOn first n = (j : ℕ) → first ≤ j → j < n → (error_of j ≡ none) × (stops j ≡ false)

  -- What the outcome of the loop from attempt `first` on says about the attempts up to `m`: the
  -- first error was met; or the first attempt that stops was met, and the result is its verdict; or
  -- no attempt stopped, and the result is a failure after `m` attempts with the last exit code.
  abbrev pub Explained : ℕ → ℕ → Outcome S → Type 0
  Explained first m (failed error) =
      (k : ℕ) × (first ≤ k) × (k ≤ m) × (error_of k ≡ some error) × GoesOn first k
  Explained first m (returned r st) =
      ((k : ℕ) × (first ≤ k)
        × (k ≤ m)
        × (error_of k ≡ none)
        × (stops k ≡ true)
        × (r.success ≡ (verdict k).success)
        × (r.reason ≡ (verdict k).reason)
        × (r.exit_code ≡ (execute_attempt e k).output.exit_code)
        × (r.attempt_count ≡ pos k)
        × GoesOn first k)
      ⊎ ((r.success ≡ false)
          × (r.attempt_count ≡ pos m)
          × (r.exit_code ≡ (execute_attempt e m).output.exit_code)
          × GoesOn first (suc m))

  GoesOn-cons :
      (first n : ℕ)
      → error_of first ≡ none
      → stops first ≡ false
      → GoesOn (suc first) n
      → GoesOn first n
  GoesOn-cons first n err on later = λ j a b. elim (dec_lt first j) [
    | yes l ↦ later j l b
    | no g ↦ let same : j ≡ first = omega arith in rw same (err, on)
  ]

  GoesOn-nil : (n : ℕ) → GoesOn n n
  GoesOn-nil n = λ j a b. absurd (omega arith)

  Explained-cons :
      (first m : ℕ) (o : Outcome S)
      → error_of first ≡ none
      → stops first ≡ false
      → Explained (suc first) m o
      → Explained first m o
  Explained-cons first m (failed error) err on (k, a, b, x, before) =
      (k, omega arith, b, x, GoesOn-cons first k err on before)
  Explained-cons first m (returned r st) err on (inl (k, a, b, x, s, p, q, c, n, before)) =
      inl (k, omega arith, b, x, s, p, q, c, n, GoesOn-cons first k err on before)
  Explained-cons first m (returned r st) err on (inr (p, n, c, before)) =
      inr (p, n, c, GoesOn-cons first (suc m) err on before)

  module _ (env : Environment) (m : ℕ) (max : e.max_attempts ≡ pos m) where
    give_up-Explained :
        (n : ℕ) (st : LoopState S)
        → n ≡ m
        → error_of n ≡ none
        → stops n ≡ false
        → Explained n m (give_up e env (attempted e env n (execute_attempt e n) (verdict n) st))
    unfolding give_up build_final_result attempted
    give_up-Explained n st last err on = inr (
      refl,
      max,
      ap (λ (k : ℕ). (execute_attempt e k).output.exit_code) last,
      GoesOn-cons n (suc m) err on (λ j a b. absurd (omega arith)),
    )

    stopped-Explained :
        (n : ℕ) (st : LoopState S)
        → n ≤ m
        → error_of n ≡ none
        → stops n ≡ true
        → Explained n m (
            returned
              (build_final_result e env
                (verdict n).success
                (pos n)
                (verdict n).reason
                (attempted e env n (execute_attempt e n) (verdict n) st))
              (attempted e env n (execute_attempt e n) (verdict n) st))
    unfolding build_final_result attempted
    stopped-Explained n st h err stop =
        inl (n, omega arith, h, err, stop, refl, refl, refl, refl, GoesOn-nil n)

    pub last_attempt : (n : ℕ) → n ≡ m → eqb_ℤ (pos n) e.max_attempts ≡ true
    last_attempt n h = ground arith

    pub not_last_attempt : (n : ℕ) → n < m → eqb_ℤ (pos n) e.max_attempts ≡ false
    not_last_attempt n h = ground arith

    conclude-Explained :
        (n : ℕ) (st : LoopState S) (rest : LoopState S → Outcome S)
        → n ≤ m
        → error_of n ≡ none
        → (n < m → (st' : LoopState S) → Explained (suc n) m (rest st'))
        → Explained n m (
            conclude e env n
              (verdict n)
              (stops n)
              (attempted e env n (execute_attempt e n) (verdict n) st)
              rest)
    unfolding conclude
    conclude-Explained n st rest h err later = elim (Bool-cases (stops n)) [
      | inl stop ↦
          subst
            (λ (b : Bool). Explained n m (
              conclude e env n (verdict n) b
                (attempted e env n (execute_attempt e n) (verdict n) st) rest))
            (sym stop) (stopped-Explained n st h err stop)
      | inr on ↦
          subst
            (λ (b : Bool). Explained n m (
              conclude e env n (verdict n) b
                (attempted e env n (execute_attempt e n) (verdict n) st) rest))
            (sym on)
            (elim (dec_lt n m) [
              | yes l ↦ rw (not_last_attempt n l) (
                  Explained-cons n m _ err on (
                    later l (
                      wait e env e.backoff_strategy n
                        (attempted e env n (execute_attempt e n) (verdict n) st))))
              | no g ↦
                  let last : n ≡ m = omega arith in
                  rw (last_attempt n last) (give_up-Explained n st last err on)
            ])
    ]

    attempt_step-Explained :
        (n : ℕ) (st : LoopState S) (rest : LoopState S → Outcome S)
        → n ≤ m
        → (n < m → (st' : LoopState S) → Explained (suc n) m (rest st'))
        → Explained n m (attempt_step e env n st rest)
    unfolding attempt_step
    attempt_step-Explained n st rest h later = elim (Option-cases (error_of n)) [
      | inl fine ↦ rw (fine, attempt_step) (conclude-Explained n st rest h fine later)
      | inr (error, broken) ↦ rw (broken, attempt_step) (n, omega arith, h, broken, GoesOn-nil n)
    ]

    run_loop-Explained :
        (rounds n : ℕ) (st : LoopState S)
        → n + rounds ≡ m
        → Explained n m (run_loop e env (suc rounds) n st)
    unfolding run_loop
    run_loop-Explained zero n st h =
        attempt_step-Explained n st (run_loop e env 0 (suc n)) (omega arith)
          (λ l st'. absurd (omega arith))
    run_loop-Explained (suc rounds) n st h =
        attempt_step-Explained n st (run_loop e env (suc rounds) (suc n)) (omega arith)
          (λ l st'. run_loop-Explained rounds (suc n) st' (omega arith))

    -- With a positive number of attempts, whatever the strategy, its state and the env, a run
    -- returns the first error of the runner; or the verdict, the exit code and the number of the
    -- first attempt that succeeds or matches the failure pattern; or else, after the last attempt,
    -- a failure with that number and its exit code.
    pub run_attempts-Explained : (s : S) → 0 < m → Explained 1 m (run_attempts e env s)
    unfolding run_attempts
    run_attempts-Explained s h =
        let rounds : pos_part e.max_attempts ≡ suc (m - 1) = ap pos_part max ∙ omega arith in
        rw rounds (run_loop-Explained (m - 1) 1 _ (omega arith))
