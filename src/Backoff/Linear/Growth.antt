-- ===== src/Backoff/Linear/Growth.antt =====
-- Linear backoff grows with the attempts up to its cap, as long as the product fits an int64.
use patience.Base.{
  ℕ, suc, ◌*◌, ◌^◌, ◌≤◌, ◌<◌, ◌≡◌, ◌∙◌, ap, ℤ, pos, ◌≤ℤ◌, ◌<ℤ◌, ◌*ℤ◌, wrap64, wrap64_self, arith,
}
use Prim.Native.Nat.{suc-le-suc}
use native.Mathlib.Nat.{le_trans}
use patience.Backoff.Cap.{cap, cap-le, cap-le-self, cap_mono}
use patience.Backoff.Linear.{Linear, linear_delay}

pos_mul : (a b : ℕ) → pos a *ℤ pos b ≡ pos (a * b)
unfolding ◌*ℤ◌
pos_mul a b = ground arith

pub wrap64-mul : (a b : ℕ) → a * b < 2 ^ 63 → wrap64 (pos a *ℤ pos b) ≡ pos (a * b)
wrap64-mul a b h = ap wrap64 (pos_mul a b) ∙ wrap64_self (pos (a * b)) (h, omega arith)

linear_delay-wrapped :
    (l : Linear) (k : ℕ)
    → linear_delay l (pos (suc k)) ≡ cap l.max_delay (wrap64 (pos (suc k) *ℤ l.increment))
unfolding linear_delay
linear_delay-wrapped l k = ground arith

pub linear_delay-product :
    (l : Linear) (k i : ℕ)
    → l.increment ≡ pos i
    → suc k * i < 2 ^ 63
    → linear_delay l (pos (suc k)) ≡ cap l.max_delay (pos (suc k * i))
linear_delay-product l k i e h =
    linear_delay-wrapped l k
    ∙ ap (λ (z : ℤ). cap l.max_delay (wrap64 (pos (suc k) *ℤ z))) e
    ∙ ap (cap l.max_delay) (wrap64-mul (suc k) i h)

wrap64_high : (n : ℕ) → 2 ^ 63 ≤ n → n < 2 ^ 64 → wrap64 (pos n) <ℤ pos 0
unfolding wrap64
wrap64_high n lo hi = ground arith

pub mul_mono : (j k i : ℕ) → j ≤ k → j * i ≤ k * i
mul_mono j k i h = grind arith

-- While `attempt * increment` fits an int64, a later attempt never waits for less time than an
-- earlier one, and with a cap set no wait exceeds the cap.
pub linear_delay_monotone :
    (l : Linear) (j k i : ℕ)
    → l.increment ≡ pos i
    → j ≤ k
    → suc k * i < 2 ^ 63
    → pos 0 <ℤ l.max_delay
    → (linear_delay l (pos (suc j)) ≤ℤ linear_delay l (pos (suc k)))
      × (linear_delay l (pos (suc k)) ≤ℤ l.max_delay)
linear_delay_monotone l j k i e jk h m =
    let grows : suc j * i ≤ suc k * i = mul_mono (suc j) (suc k) i (omega arith) in
    rw
      (linear_delay-product l j i e (le_trans (suc-le-suc grows) h), linear_delay-product l k i e h)
      (cap_mono l.max_delay _ _ (omega (arith, grows)), cap-le l.max_delay _ m)

-- Past the int64 range the product turns negative and slips under the cap: when
-- `attempt * increment` lies between 2^63 and 2^64, the delay is negative, whatever the cap.
pub linear_delay_overflow :
    (l : Linear) (k i : ℕ)
    → l.increment ≡ pos i
    → 2 ^ 63 ≤ suc k * i
    → suc k * i < 2 ^ 64
    → linear_delay l (pos (suc k)) <ℤ pos 0
linear_delay_overflow l k i e lo hi =
    let wrapped = wrap64_high (suc k * i) lo hi in
    rw (linear_delay-wrapped l k, e, pos_mul (suc k) i)
      (omega (arith, wrapped, cap-le-self l.max_delay (wrap64 (pos (suc k * i)))))
