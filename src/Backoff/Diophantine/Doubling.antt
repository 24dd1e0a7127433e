-- ===== src/Backoff/Diophantine/Doubling.antt =====
-- The fallback delay doubles from the base offset and stops at one hour.
use patience.Base.{
  ℕ, zero, suc, ◌-◌, ◌*◌, ◌^◌, ◌≤◌, ◌<◌, ◌≡◌, ◌∙◌, sym, refl, ap, pos, ltb, ltb→lt, ltb→ge, lt→ltb,
  inl, inr, Bool-cases, if◌then◌else◌, arith,
}
use Prim.Native.Nat.{min}
use native.Mathlib.Nat.{pow-suc, pow-zero, mul_assoc, mul_comm}
use patience.Backoff.Linear.Growth.{wrap64-mul}
use patience.Backoff.Diophantine.{Diophantine, hour, base_delay, double_loop, diophantine_delay}

abbrev pub hour_ns : ℕ
hour_ns = 3600000000000

pow_pos : (k : ℕ) → 1 ≤ 2 ^ k
pow_pos zero = omega arith
pow_pos (suc k) = omega (arith, pow_pos k, pow-suc 2 k)

double_mul : (b k : ℕ) → b * 2 * 2 ^ k ≡ b * 2 ^ suc k
double_mul b k =
    mul_assoc b 2 (2 ^ k) ∙ ap (λ (t : ℕ). b * t) (mul_comm 2 (2 ^ k) ∙ sym (pow-suc 2 k))

le-mul-pow : (b k : ℕ) → b ≤ b * 2 ^ k
le-mul-pow b k = grind (arith, pow_pos k)

double_loop-suc :
    (k b : ℕ)
    → b * 2 < 2 ^ 63
    → double_loop (suc k) (pos b)
      ≡ (if ltb hour_ns (b * 2) then pos hour_ns else double_loop k (pos (b * 2)))
unfolding double_loop
double_loop-suc k b h = rw (wrap64-mul b 2 h) (ground arith)

double_loop-min-suc :
    (k b : ℕ)
    → b ≤ hour_ns
    → (b * 2 ≤ hour_ns → double_loop k (pos (b * 2)) ≡ pos (min (b * 2 * 2 ^ k) hour_ns))
    → (if ltb hour_ns (b * 2) then pos hour_ns else double_loop k (pos (b * 2)))
      ≡ pos (min (b * 2 ^ suc k) hour_ns)
double_loop-min-suc k b h ih = elim (Bool-cases (ltb hour_ns (b * 2))) [
  | inl over ↦
      rw over (ap pos (omega (arith, ltb→lt _ _ over, double_mul b k, le-mul-pow (b * 2) k)))
  | inr under ↦
      rw under
        (ih (ltb→ge hour_ns (b * 2) under) ∙ ap (λ (t : ℕ). pos (min t hour_ns)) (double_mul b k))
]

double_loop-min : (k b : ℕ) → b ≤ hour_ns → double_loop k (pos b) ≡ pos (min (b * 2 ^ k) hour_ns)
double_loop-min zero b h = unfold double_loop in ap pos (omega (arith, pow-zero 2))
double_loop-min (suc k) b h =
    double_loop-suc k b (omega arith) ∙ double_loop-min-suc k b h (double_loop-min k (b * 2))

diophantine_delay-loop :
    (d : Diophantine) (k : ℕ)
    → diophantine_delay d (pos (suc k)) ≡ double_loop k (base_delay d.retry_offsets)
unfolding diophantine_delay
diophantine_delay-loop d k =
    let e : suc k - 1 ≡ k = omega arith in
    ground (arith, ap (λ (r : ℕ). double_loop r (base_delay d.retry_offsets)) e)

-- When the base offset is at most one hour, the fallback delay of attempt k + 1 is exactly the
-- smaller of base * 2^k and one hour, for every k: the doubling never overflows.
pub diophantine_delay-min :
    (d : Diophantine) (k b : ℕ)
    → base_delay d.retry_offsets ≡ pos b
    → b ≤ hour_ns
    → diophantine_delay d (pos (suc k)) ≡ pos (min (b * 2 ^ k) hour_ns)
diophantine_delay-min d k b e h =
    diophantine_delay-loop d k ∙ ap (double_loop k) e ∙ double_loop-min k b h

-- A base offset above one hour (and below 2^62 ns) is not capped at the first attempt, and every
-- later attempt waits for one hour only.
pub diophantine_delay_first_uncapped :
    (d : Diophantine) (k b : ℕ)
    → base_delay d.retry_offsets ≡ pos b
    → hour_ns < b
    → b < 2 ^ 62
    → (diophantine_delay d (pos 1) ≡ pos b) × (diophantine_delay d (pos (suc (suc k))) ≡ hour)
diophantine_delay_first_uncapped d k b e lo hi = (
  diophantine_delay-loop d 0 ∙ ap (double_loop 0) e ∙ unfold double_loop in refl,
  diophantine_delay-loop d (suc k)
      ∙ ap (double_loop (suc k)) e
      ∙ double_loop-suc k b (omega arith)
      ∙ rw (lt→ltb hour_ns (b * 2) (omega arith)),
)
