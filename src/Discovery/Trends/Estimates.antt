-- ===== src/Discovery/Trends/Estimates.antt =====
-- How far a limit that is estimated from trends lies from what was observed.
use patience.Base.{ℕ, ◌+◌, ◌≤◌, ltb, List, [], ◌∷◌, All, arith, if◌then◌else◌}
use patience.Discovery.Trends.{max_from, min_from, estimate}

max_from-le : (b best : ℕ) (ns : List ℕ) → best ≤ b → All (λ n. n ≤ b) ns → max_from best ns ≤ b
unfolding max_from
max_from-le b best [] h k = h
max_from-le b best (n ∷ ns) h k =
    max_from-le b (if ltb best n then n else best) ns (ground (arith, h, k.0)) k.1

min_from-le : (b best : ℕ) (ns : List ℕ) → best ≤ b → min_from best ns ≤ b
unfolding min_from
min_from-le b best [] h = h
min_from-le b best (n ∷ ns) h =
    min_from-le b (if ltb n best then n else best) ns (ground (arith, h))

min_from-first : (b best n : ℕ) (ns : List ℕ) → n ≤ b → min_from best (n ∷ ns) ≤ b
unfolding min_from
min_from-first b best n ns h = min_from-le b (if ltb n best then n else best) ns (ground (arith, h))

-- An estimate is at least 1. It exceeds by at most one any number that no window without a 429 exceeds in its
-- successes, nor the first window with one.
pub estimate-bounded :
    (b m : ℕ) (successful failures : List ℕ)
    → All (λ n. n ≤ b) successful
    → m ≤ b
    → (1 ≤ estimate successful (m ∷ failures)) × (estimate successful (m ∷ failures) ≤ b + 1)
unfolding estimate
estimate-bounded b m successful failures h k =
    let most = max_from-le b 0 successful (omega arith) h in
    let fewest = min_from-first b 2147483647 m failures k in ground (arith, most, fewest)
