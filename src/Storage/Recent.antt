-- ===== src/Storage/Recent.antt =====
-- Reading the newest metrics.
use patience.Base.{
  ℕ, ◌-◌, ◌≤◌, ◌≡◌, ap, sym, ◌∙◌, ℤ, pos, pos_part, leb_ℤ, ltb_ℤ, Bool-cases, inl, inr, List, ◌++◌,
  length, take, drop, ◌||◌, length-drop, take-drop, if◌then◌else◌, arith,
}
use patience.Storage.{MetricsStorage, StoredMetric, get_recent}

-- How many metrics a limit asks for: all, when it is not positive or above the number there is.
abbrev pub asked : ℤ → ℕ → ℕ
asked limit n = if leb_ℤ limit (pos 0) || ltb_ℤ (pos n) limit then n else pos_part limit

-- The newest metrics are the end of what is stored, as many as the limit asks for.
pub record IsNewest (limit : ℤ) (s : MetricsStorage) (result : List StoredMetric) : Type 0 where
  pub number : length result ≡ asked limit (length s.metrics)
  pub suffix : take (length s.metrics - length result) s.metrics ++ result ≡ s.metrics

drop-IsNewest :
    (limit : ℤ) (s : MetricsStorage) (n : ℕ)
    → n ≤ length s.metrics
    → asked limit (length s.metrics) ≡ n
    → IsNewest limit s (drop (length s.metrics - n) s.metrics)
drop-IsNewest limit s n le eq =
    let number : length (drop (length s.metrics - n) s.metrics) ≡ n =
      omega (arith, le, length-drop (length s.metrics - n) s.metrics) in
    record {
      number = number ∙ sym eq;
      suffix =
          ap (λ k. take (length s.metrics - k) s.metrics ++ drop (length s.metrics - n) s.metrics)
            number
          ∙ take-drop (length s.metrics - n) s.metrics;
    }

-- GetRecent returns the end of what is stored, oldest first: as many metrics as asked for, or all
-- of them when the limit is not positive or larger than their number.
pub get_recent-IsNewest : (limit : ℤ) (s : MetricsStorage) → IsNewest limit s (get_recent limit s)
unfolding get_recent
get_recent-IsNewest limit s =
    elim (Bool-cases (leb_ℤ limit (pos 0) || ltb_ℤ (pos (length s.metrics)) limit)) [
      | inl e ↦ rw e (drop-IsNewest limit s (length s.metrics) (omega arith) (ground arith))
      | inr e ↦ rw e (drop-IsNewest limit s (pos_part limit) (ground arith) (ground arith))
    ]
