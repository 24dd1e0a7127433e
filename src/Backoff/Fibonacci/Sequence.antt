-- ===== src/Backoff/Fibonacci/Sequence.antt =====
-- The iterative int64 loop computes the Fibonacci numbers as far as they fit.
use patience.Base.{
  ℕ, zero, suc, ◌+◌, ◌-◌, ◌*◌, ◌^◌, ◌≤◌, ◌<◌, ◌≡◌, ◌∙◌, refl, ap, ℤ, pos, ◌≤ℤ◌, ◌<ℤ◌, ◌+ℤ◌, ◌*ℤ◌,
  wrap64, arith,
}
use Prim.Native.Nat.{suc-le-suc}
use mathlib.Core.Path.{ap₂}
use native.Mathlib.Nat.{le_trans, zero-add, suc-add, le_refl}
use patience.Backoff.Cap.{cap, cap-le, cap_mono}
use patience.Backoff.Linear.Growth.{wrap64-mul, mul_mono}
use patience.Backoff.Fibonacci.{Fibonacci, fibonacci, fibonacci_loop, fibonacci_delay}

-- The defining recursion: 0, 1, 1, 2, 3, 5, ...
unfoldable pub fib : ℕ → ℕ
fib zero = 0
fib (suc zero) = 1
fib (suc (suc n)) = fib n + fib (suc n)

fib_mono : (n : ℕ) → fib n ≤ fib (suc n)
unfolding fib
fib_mono zero = omega arith
fib_mono (suc zero) = omega arith
fib_mono (suc (suc n)) = omega (arith, fib_mono n)

fib_mono_add : (k n : ℕ) → fib n ≤ fib (k + n)
fib_mono_add zero n = rw zero-add (le_refl _)
fib_mono_add (suc k) n = rw suc-add (omega (arith, fib_mono_add k n, fib_mono (k + n)))

wrap64-add : (a b : ℕ) → a + b < 2 ^ 63 → wrap64 (pos a +ℤ pos b) ≡ pos (a + b)
unfolding ◌+ℤ◌ wrap64
wrap64-add a b h = ground arith

fib_step : (n : ℕ) → fib n + fib (suc n) ≡ fib (suc (suc n))
unfolding fib
fib_step n = refl

-- From two neighbours of the sequence the loop goes on along it, if the last number fits.
fibonacci_loop-fib :
    (rounds n : ℕ)
    → fib (rounds + suc n) < 2 ^ 63
    → fibonacci_loop rounds (pos (fib n)) (pos (fib (suc n))) ≡ pos (fib (rounds + suc n))
unfolding fibonacci_loop
fibonacci_loop-fib zero n h = rw zero-add
fibonacci_loop-fib (suc rounds) n h =
    let e : suc rounds + suc n ≡ rounds + suc (suc n) = omega arith in
    let h' : fib (rounds + suc (suc n)) < 2 ^ 63 = rw e at h in
    let fits : fib n + fib (suc n) < 2 ^ 63 =
      omega (arith, fib_step n, fib_mono_add rounds (suc (suc n))) in
    rw (e, wrap64-add (fib n) (fib (suc n)) fits, fib_step n) (fibonacci_loop-fib rounds (suc n) h')

fibonacci_delay-wrapped :
    (f : Fibonacci) (n : ℕ)
    → fibonacci_delay f (pos (suc n))
      ≡ cap f.max_delay (wrap64 (fibonacci (pos (suc n)) *ℤ f.base_delay))
unfolding fibonacci_delay
fibonacci_delay-wrapped f n = ground arith

fibonacci_unroll :
    (n : ℕ) → fibonacci (pos (suc (suc (suc n)))) ≡ fibonacci_loop (suc n) (pos 1) (pos 1)
unfolding fibonacci
fibonacci_unroll n =
    let e : suc (suc (suc n)) - 2 ≡ suc n = omega arith in
    ground (arith, ap (λ (r : ℕ). fibonacci_loop r (pos 1) (pos 1)) e)

-- For every attempt from 1 on whose Fibonacci number fits an int64, `fibonacci` returns it.
pub fibonacci-fib : (n : ℕ) → fib (suc n) < 2 ^ 63 → fibonacci (pos (suc n)) ≡ pos (fib (suc n))
fibonacci-fib zero h = unfold fibonacci fib in refl
fibonacci-fib (suc zero) h = unfold fibonacci fib in refl
fibonacci-fib (suc (suc n)) h =
    let e : suc n + suc 1 ≡ suc (suc (suc n)) = omega arith in
    let h' : fib (suc n + suc 1) < 2 ^ 63 = rw e h in
    fibonacci_unroll n
    ∙ start (suc n)
    ∙ fibonacci_loop-fib (suc n) 1 h'
    ∙ ap (λ (k : ℕ). pos (fib k)) e
  where
    start :
        (r : ℕ)
        → fibonacci_loop r (pos 1) (pos 1) ≡ fibonacci_loop r (pos (fib 1)) (pos (fib (suc 1)))
    start r = unfold fib in refl

fibonacci_delay-product :
    (f : Fibonacci) (n b : ℕ)
    → f.base_delay ≡ pos b
    → fib (suc n) < 2 ^ 63
    → fib (suc n) * b < 2 ^ 63
    → fibonacci_delay f (pos (suc n)) ≡ cap f.max_delay (pos (fib (suc n) * b))
fibonacci_delay-product f n b e h hb =
    fibonacci_delay-wrapped f n
    ∙ ap₂ (λ (x y : ℤ). cap f.max_delay (wrap64 (x *ℤ y))) (fibonacci-fib n h) e
    ∙ ap (cap f.max_delay) (wrap64-mul (fib (suc n)) b hb)

-- While the product fits an int64, the next attempt never waits for less time than this one, and
-- with a cap set no wait exceeds the cap.
pub fibonacci_delay_monotone :
    (f : Fibonacci) (n b : ℕ)
    → f.base_delay ≡ pos b
    → fib (suc (suc n)) < 2 ^ 63
    → fib (suc (suc n)) * b < 2 ^ 63
    → pos 0 <ℤ f.max_delay
    → (fibonacci_delay f (pos (suc n)) ≤ℤ fibonacci_delay f (pos (suc (suc n))))
      × (fibonacci_delay f (pos (suc (suc n))) ≤ℤ f.max_delay)
fibonacci_delay_monotone f n b e h hb m =
    let grows : fib (suc n) * b ≤ fib (suc (suc n)) * b = mul_mono _ _ b (fib_mono (suc n)) in
    rw
      (
        fibonacci_delay-product f n b e (omega (arith, fib_mono (suc n)))
            (le_trans (suc-le-suc grows) hb),
        fibonacci_delay-product f (suc n) b e h hb,
      )
      (cap_mono f.max_delay _ _ (omega (arith, grows)), cap-le f.max_delay _ m)
