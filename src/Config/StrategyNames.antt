-- ===== src/Config/StrategyNames.antt =====
-- The names of strategies, in groups as the validation of pkg/config/config.go tells them apart.
use patience.Base.{
  ◌≡◌, sym, refl, inl, inr, Bool, true, String, str_eq, str_eq_iff, ◌||◌, Bool-cases,
}
use mathlib.Core.Path.{subst}
use patience.Config.{is_one_of, exponential_types, max_delay_types, backoff_types}

-- The names of the strategies whose delays grow exponentially.
pub data IsExponential : String → Type 0 where
  exponential : IsExponential "exponential"
  jitter : IsExponential "jitter"
  decorrelated_jitter : IsExponential "decorrelated-jitter"

-- The names of the strategies that a maximum delay can be set for.
pub data TakesMaxDelay : String → Type 0 where
  grows_exponentially : {name : String} → IsExponential name → TakesMaxDelay name
  linear : TakesMaxDelay "linear"
  fibonacci : TakesMaxDelay "fibonacci"

-- The names of the strategies.
pub data IsStrategy : String → Type 0 where
  takes_max_delay : {name : String} → TakesMaxDelay name → IsStrategy name
  fixed : IsStrategy "fixed"
  adaptive : IsStrategy "adaptive"
  polynomial : IsStrategy "polynomial"
  http_aware : IsStrategy "http-aware"

-- A name that equals `x`, or is told by the rest of the tests.
named :
    (P : String → Type 0) (name x : String) (rest : Bool)
    → P x
    → (rest ≡ true → P name)
    → str_eq name x || rest ≡ true
    → P name
named P name x rest here later h = elim (Bool-cases (str_eq name x)) [
  | inl e ↦ subst P (sym ((str_eq_iff name x).0 e)) here
  | inr e ↦ later (rw e at h)
]

pub is_one_of-IsExponential :
    (name : String) → is_one_of name exponential_types ≡ true → IsExponential name
is_one_of-IsExponential name = named IsExponential name _ _ exponential (
    named IsExponential name _ _ jitter
      (named IsExponential name _ _ decorrelated_jitter (λ e. absurd cc)))

pub IsExponential-is_one_of :
    (name : String) → IsExponential name → is_one_of name exponential_types ≡ true
IsExponential-is_one_of _ exponential = refl
IsExponential-is_one_of _ jitter = refl
IsExponential-is_one_of _ decorrelated_jitter = refl

pub is_one_of-TakesMaxDelay :
    (name : String) → is_one_of name max_delay_types ≡ true → TakesMaxDelay name
is_one_of-TakesMaxDelay name = named TakesMaxDelay name _ _ (grows_exponentially exponential) (
    named TakesMaxDelay name _ _ (grows_exponentially jitter) (
      named TakesMaxDelay name _ _ linear (
        named TakesMaxDelay name _ _ (grows_exponentially decorrelated_jitter)
          (named TakesMaxDelay name _ _ fibonacci (λ e. absurd cc)))))

pub TakesMaxDelay-is_one_of :
    (name : String) → TakesMaxDelay name → is_one_of name max_delay_types ≡ true
TakesMaxDelay-is_one_of _ (grows_exponentially exponential) = refl
TakesMaxDelay-is_one_of _ (grows_exponentially jitter) = refl
TakesMaxDelay-is_one_of _ (grows_exponentially decorrelated_jitter) = refl
TakesMaxDelay-is_one_of _ linear = refl
TakesMaxDelay-is_one_of _ fibonacci = refl

pub is_one_of-IsStrategy : (name : String) → is_one_of name backoff_types ≡ true → IsStrategy name
is_one_of-IsStrategy name = named IsStrategy name _ _ fixed (
    named IsStrategy name _ _ (takes_max_delay (grows_exponentially exponential)) (
      named IsStrategy name _ _ (takes_max_delay (grows_exponentially jitter)) (
        named IsStrategy name _ _ (takes_max_delay linear) (
          named IsStrategy name _ _ (takes_max_delay (grows_exponentially decorrelated_jitter)) (
            named IsStrategy name _ _ (takes_max_delay fibonacci) (
              named IsStrategy name _ _ adaptive (
                named IsStrategy name _ _ polynomial
                  (named IsStrategy name _ _ http_aware (λ e. absurd cc)))))))))

pub IsStrategy-is_one_of : (name : String) → IsStrategy name → is_one_of name backoff_types ≡ true
IsStrategy-is_one_of _ (takes_max_delay (grows_exponentially exponential)) = refl
IsStrategy-is_one_of _ (takes_max_delay (grows_exponentially jitter)) = refl
IsStrategy-is_one_of _ (takes_max_delay (grows_exponentially decorrelated_jitter)) = refl
IsStrategy-is_one_of _ (takes_max_delay linear) = refl
IsStrategy-is_one_of _ (takes_max_delay fibonacci) = refl
IsStrategy-is_one_of _ fixed = refl
IsStrategy-is_one_of _ adaptive = refl
IsStrategy-is_one_of _ polynomial = refl
IsStrategy-is_one_of _ http_aware = refl
