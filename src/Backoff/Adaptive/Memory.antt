-- ===== src/Backoff/Adaptive/Memory.antt =====
-- The adaptive strategy remembers the newest outcomes.
use patience.Base.{
  ℕ, suc, ◌-◌, ◌≤◌, ◌≡◌, ap, sym, ◌∙◌, ℤ, pos, leb_ℤ, Bool-cases, some, inl, inr, List, [], ◌∷◌,
  ◌++◌, length, drop, length-append, length-drop, drop-append, drop_one-drop, append_assoc,
  if◌then◌else◌, arith, append-nil,
}
use mathlib.Core.Path.{subst}
use patience.Backoff.Floats.{Floats}
use patience.Backoff.Adaptive.{
  Adaptive, OutcomeRecord, new_adaptive, record_outcome, update_delay_buckets,
}

module _ (fl : Floats) where
  unfoldable pub record_all : List OutcomeRecord → Adaptive fl.Float → Adaptive fl.Float
  record_all [] a = a
  record_all (o ∷ os) a = record_all os (record_outcome fl o a)

  -- What a strategy with a window of w keeps of the outcomes that it was told.
  pub record Remembers (w : ℕ) (history : List OutcomeRecord) (a : Adaptive fl.Float) : Type 0 where
    pub window : a.memory_window ≡ pos w
    pub recent : a.recent_outcomes ≡ drop (length history - w) history
    pub total : a.total_outcomes ≡ length history

  slid :
      (k n : ℕ) (o : OutcomeRecord) (history : List OutcomeRecord)
      → k ≤ length history
      → k ≡ n
      → drop k history ++ o ∷ [] ≡ drop n (history ++ o ∷ [])
  slid k n o history h eq =
      sym (drop-append k history (o ∷ []) h) ∙ ap (λ i. drop i (history ++ o ∷ [])) eq

  -- The window moves on by one outcome.
  window_moves :
      (w : ℕ) (o : OutcomeRecord) (history : List OutcomeRecord)
      → 1 ≤ w
      → let old = drop (length history - w) history in
        (if leb_ℤ (pos w) (pos (length old)) then drop 1 old else old) ++ o ∷ []
        ≡ drop (length (history ++ o ∷ []) - w) (history ++ o ∷ [])
  window_moves w o history h =
      let old = drop (length history - w) history in
      let more = length-append history (o ∷ []) in
      let size = length-drop (length history - w) history in
      elim (Bool-cases (leb_ℤ (pos w) (pos (length old)))) [
        | inl e ↦ rw e (
            ap (λ xs. xs ++ o ∷ []) (drop_one-drop (length history - w) history)
            ∙ slid (suc (length history - w)) _ o history (ground (arith, more, size, e))
                (ground (arith, more, size, e)))
        | inr e ↦
            rw e
              (slid (length history - w) _ o history (omega arith) (ground (arith, more, size, e)))
      ]

  record_outcome-Remembers :
      (w : ℕ) (o : OutcomeRecord) (history : List OutcomeRecord) (a : Adaptive fl.Float)
      → 1 ≤ w
      → Remembers w history a
      → Remembers w (history ++ o ∷ []) (record_outcome fl o a)
  unfolding record_outcome update_delay_buckets
  record_outcome-Remembers w o history a h r = record {
    window = r.window;
    recent = rw (r.window, r.recent) (window_moves w o history h);
    total = omega (arith, r.total, length-append history (o ∷ []));
  }

  record_all-Remembers :
      (w : ℕ) (os history : List OutcomeRecord) (a : Adaptive fl.Float)
      → 1 ≤ w
      → Remembers w history a
      → Remembers w (history ++ os) (record_all os a)
  unfolding record_all
  record_all-Remembers w [] history a h r =
      subst (λ l. Remembers w l a) (sym (append-nil history)) r
  record_all-Remembers w (o ∷ os) history a h r =
      subst (λ l. Remembers w l (record_all os (record_outcome fl o a)))
        (append_assoc history (o ∷ []) os)
        (record_all-Remembers w os (history ++ o ∷ []) (record_outcome fl o a) h
          (record_outcome-Remembers w o history a h r))

  new_adaptive-new :
      (fallback : ℤ → ℤ) (rate : fl.Float) (w : ℕ) (a : Adaptive fl.Float)
      → new_adaptive fl (some fallback) rate (pos w) ≡ inr a
      → (1 ≤ w) × (a.memory_window ≡ pos w) × (a.recent_outcomes ≡ []) × (a.total_outcomes ≡ 0)
  unfolding new_adaptive
  new_adaptive-new fallback rate w a eq = ground (arith, eq)

  -- Whatever outcomes a new strategy was told, it keeps the newest of them, as many as its memory
  -- window or all if they are fewer, in their order, and counts them all.
  pub memory_window_lem :
      (fallback : ℤ → ℤ) (rate : fl.Float) (w : ℕ) (os : List OutcomeRecord) (a : Adaptive fl.Float)
      → new_adaptive fl (some fallback) rate (pos w) ≡ inr a
      → Remembers w os (record_all os a)
  memory_window_lem fallback rate w os a eq =
      let (one, window, recent, total) = new_adaptive-new fallback rate w a eq in
      let nothing : 0 ≡ 0 - w = omega arith in
      record_all-Remembers w os [] a one
        record { window = window; recent = recent ∙ ap (λ k. drop k []) nothing; total = total }
