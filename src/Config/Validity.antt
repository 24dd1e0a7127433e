-- ===== src/Config/Validity.antt =====
-- What a configuration that passes the validation is good for.
use patience.Base.{
  ◌≡◌, ◌↔◌, ◌⊎◌, pos, ◌≤ℤ◌, ◌<ℤ◌, Bool, true, false, List, [], ◌∷◌, ◌++◌, arith, All, ◌*ℤ◌, suc,
  ◌^◌, ◌<◌, ◌*◌, ℕ, ◌≤◌, ap, sym, ◌∙◌, pos_part, ℤ, str_eq_iff, eq_of_parts, Bool-cases, inl, inr,
  eqb_ℤ, ◌&&◌,
}
use patience.Backoff.Floats.{Floats}
use patience.Backoff.Cap.{cap}
use patience.Backoff.Linear.{Linear, linear_delay}
use mathlib.Core.Path.{subst}
use patience.Backoff.Linear.Growth.{linear_delay-product, mul_mono}
use patience.Config.StrategyNames.{
  IsExponential, TakesMaxDelay, IsStrategy, is_one_of-IsExponential, IsExponential-is_one_of,
  is_one_of-TakesMaxDelay, TakesMaxDelay-is_one_of, is_one_of-IsStrategy, IsStrategy-is_one_of,
}
use patience.Config.{
  Config, Violation, validate, validate_combinations, collect, checks, combination_checks,
  is_one_of, exponential_types,
}

-- No violation is found exactly if every test fails.
collect-none :
    (ts : List (Bool × Violation))
    → (collect ts ≡ []) ↔ All (λ (t : Bool × Violation). t.0 ≡ false) ts
unfolding collect
collect-none [] = ground arith
collect-none (t ∷ ts) = ground (arith, collect-none ts)

append-none : (us vs : List Violation) → (us ++ vs ≡ []) ↔ ((us ≡ []) × (vs ≡ []))
append-none [] vs = ground arith
append-none (u ∷ us) vs = ground arith

mul-pos : (m n : ℕ) → pos m *ℤ pos n ≡ pos (m * n)
unfolding ◌*ℤ◌
mul-pos m n = ground arith

nonnegative-pos : (z : ℤ) → pos 0 ≤ℤ z → z ≡ pos (pos_part z)
nonnegative-pos z h = ground arith

cap-nonnegative : (max d : ℤ) → pos 0 ≤ℤ d → pos 0 ≤ℤ cap max d
unfolding cap
cap-nonnegative max d h = ground arith

module _ (fl : Floats) where
  -- What a valid configuration is. All comparisons of floats with a NaN are false.
  pub record IsValid (c : Config fl.Float) : Type 0 where
    pub attempts : (pos 1 ≤ℤ c.attempts) × (c.attempts ≤ℤ pos 1000)
    pub delay : (pos 0 ≤ℤ c.delay) × (c.delay ≤ℤ pos 86400000000000)
    pub timeout : (pos 0 ≤ℤ c.timeout) × (c.timeout ≤ℤ pos 86400000000000)
    pub backoff : (c.backoff_type ≡ "") ⊎ IsStrategy c.backoff_type
    pub max_delay : (pos 0 ≤ℤ c.max_delay) × (c.max_delay ≤ℤ pos 86400000000000)
    pub order : (c.max_delay ≡ pos 0) ⊎ (c.delay ≤ℤ c.max_delay)
    pub multiplier :
        (fl.less c.multiplier (fl.of_int (pos 1)) ≡ false)
        × (fl.less (fl.of_int (pos 10)) c.multiplier ≡ false)
    pub delay_set : IsExponential c.backoff_type → pos 0 <ℤ c.delay
    pub multiplier_used :
        (fl.eq c.multiplier (fl.of_int (pos 2)) ≡ true) ⊎ IsExponential c.backoff_type
    pub max_delay_used : (c.max_delay ≡ pos 0) ⊎ TakesMaxDelay c.backoff_type

  -- Every test of the code, in the code's words.
  abbrev AllFail : Config fl.Float → Type 0
  AllFail c =
      All (λ (t : Bool × Violation). t.0 ≡ false) (checks fl c)
      × All (λ (t : Bool × Violation). t.0 ≡ false) (combination_checks fl c)

  validate-AllFail : (c : Config fl.Float) → (validate fl c ≡ []) ↔ AllFail c
  unfolding validate validate_combinations
  validate-AllFail c = ground (
    arith,
    append-none (collect (checks fl c)) (collect (combination_checks fl c)),
    collect-none (checks fl c),
    collect-none (combination_checks fl c),
  )

  AllFail-IsValid : (c : Config fl.Float) → AllFail c → IsValid c
  AllFail-IsValid c h =
      let (attempts, (d0, (d1, (t0, (t1, (b, (m0, (m1, (o, (x1, (x10, _))))))))))) = h.0 in
      let (f0, (f1, (f2, _))) = h.1 in
      let exponential_type = is_one_of-IsExponential c.backoff_type in
      let no_exponential_type = IsExponential-is_one_of c.backoff_type in
      let max_delay_type = is_one_of-TakesMaxDelay c.backoff_type in
      let strategy = is_one_of-IsStrategy c.backoff_type in
      record {
        attempts = ground (arith, attempts);
        delay = ground (arith, d0, d1);
        timeout = ground (arith, t0, t1);
        backoff = ground (arith, b, strategy, str_eq_iff c.backoff_type "");
        max_delay = ground (arith, m0, m1);
        order = ground (arith, o, d0, m0, eq_of_parts c.max_delay (pos 0));
        multiplier = (x1, x10);
        delay_set = λ e. ground (arith, f0, d0, no_exponential_type e, eq_of_parts c.delay (pos 0));
        multiplier_used = ground (arith, f1, exponential_type);
        max_delay_used = ground (arith, f2, m0, max_delay_type, eq_of_parts c.max_delay (pos 0));
      }

  delay_set-no_error :
      (c : Config fl.Float)
      → (is_one_of c.backoff_type exponential_types ≡ true → pos 0 <ℤ c.delay)
      → (is_one_of c.backoff_type exponential_types && eqb_ℤ c.delay (pos 0)) ≡ false
  delay_set-no_error c h = elim (Bool-cases (is_one_of c.backoff_type exponential_types)) [
    | inl e ↦ ground (arith, e, h e)
    | inr e ↦ ground (arith, e)
  ]

  IsValid-AllFail : (c : Config fl.Float) → IsValid c → AllFail c
  IsValid-AllFail c v =
      let exponential_type = IsExponential-is_one_of c.backoff_type in
      let an_exponential_type = is_one_of-IsExponential c.backoff_type in
      let max_delay_type = TakesMaxDelay-is_one_of c.backoff_type in
      let strategy = IsStrategy-is_one_of c.backoff_type in
      let named_none = str_eq_iff c.backoff_type "" in
      (
        (
          ground (arith, v.attempts),
          (
            ground (arith, v.delay),
            (
              ground (arith, v.delay),
              (
                ground (arith, v.timeout),
                (
                  ground (arith, v.timeout),
                  (
                    ground (arith, v.backoff, strategy, named_none),
                    (
                      ground (arith, v.max_delay),
                      (
                        ground (arith, v.max_delay),
                        (ground (arith, v.order), (v.multiplier.0, (v.multiplier.1, tt))),
                      ),
                    ),
                  ),
                ),
              ),
            ),
          ),
        ),
        (
          delay_set-no_error c (λ e. v.delay_set (an_exponential_type e)),
          (
            ground (arith, v.multiplier_used, exponential_type),
            (ground (arith, v.max_delay_used, max_delay_type), tt),
          ),
        ),
      )

  -- Validation finds nothing exactly for the configurations with 1 to 1000 attempts; with a delay, a
  -- timeout and a maximum delay of 0 to 24 hours; with the name of one of the nine strategies or none; with
  -- a maximum delay of 0, or one that is not below the delay for a strategy that takes it (the exponential
  -- ones, "linear" and "fibonacci"); with a delay above 0 for an exponential strategy ("exponential",
  -- "jitter" and "decorrelated-jitter"); and with a multiplier that does not compare as below 1 or above 10
  -- (so a NaN passes), and that is equal to 2 for any other strategy.
  pub validate_iff : (c : Config fl.Float) → (validate fl c ≡ []) ↔ IsValid c
  validate_iff c = (
    λ h. AllFail-IsValid c ((validate-AllFail c).0 h),
    λ v. (validate-AllFail c).1 (IsValid-AllFail c v),
  )

  -- The linear strategy of a valid configuration never overflows: at each of its at most 1000
  -- attempts it waits for the attempt's number times the delay, or for the set maximum delay if that
  -- is less, and never for a negative time.
  pub valid_linear_delay :
      (c : Config fl.Float) (k : ℕ)
      → validate fl c ≡ []
      → pos (suc k) ≤ℤ c.attempts
      → let l : Linear = record { increment = c.delay; max_delay = c.max_delay } in
        (linear_delay l (pos (suc k)) ≡ cap c.max_delay (pos (suc k) *ℤ c.delay))
        × (pos 0 ≤ℤ linear_delay l (pos (suc k)))
  valid_linear_delay c k h a =
      let v = (validate_iff c).0 h in
      let l : Linear = record { increment = c.delay; max_delay = c.max_delay } in
      let d = pos_part c.delay in
      let whole_delay = nonnegative-pos c.delay v.delay.0 in
      let product : suc k * d ≤ 1000 * d =
        mul_mono (suc k) 1000 d (ground (arith, a, v.attempts)) in
      let fits : suc k * d < 2 ^ 63 = ground (arith, product, v.delay) in
      let value = linear_delay-product l k d whole_delay fits in
      let exact = ap (λ z. pos (suc k) *ℤ z) whole_delay ∙ mul-pos (suc k) d in
      (
        value ∙ ap (cap c.max_delay) (sym exact),
        subst (λ z. pos 0 ≤ℤ z) (sym value) (cap-nonnegative c.max_delay _ (omega arith)),
      )
