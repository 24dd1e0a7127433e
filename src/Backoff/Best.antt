-- ===== src/Backoff/Best.antt =====
-- The loop that both the adaptive strategy and the effectiveness tracker run: the entry with the
-- highest rate among those with enough samples.
use patience.Base.{
  ◌≡◌, Bool, true, false, ◌&&◌, Bool-cases, inl, inr, ◌⊎◌, Option, none, some, List, [], ◌∷◌, All,
  if◌then◌else◌, arith, refl, sym,
}
use mathlib.Core.Path.{subst}
use patience.Backoff.Floats.{Floats}

module _ (fl : Floats) {A : Type 0} (eligible : A → Bool) (rate_of : A → fl.Float) where
  -- The best entry so far and its rate, over the entries in the order in which range visits them.
  unfoldable pub best_by : fl.Float → Option A → List A → Option A
  best_by rate best [] = best
  best_by rate best (x ∷ xs) =
      let better = best_by (rate_of x) (some x) xs in
      let rest = best_by rate best xs in
      if eligible x && fl.less rate (rate_of x) then better else rest

-- The order of the float64s, NaN included: no float is below itself, and `<` is transitive.
pub record IsOrder (fl : Floats) : Type 0 where
  pub irreflexive : (x : fl.Float) → fl.less x x ≡ false
  pub transitive : (x y z : fl.Float) → fl.less x y ≡ true → fl.less y z ≡ true → fl.less x z ≡ true

module _ (fl : Floats) (order : IsOrder fl) where
  above_least :
      (a b r : fl.Float) → fl.less a b ≡ true → (r ≡ b) ⊎ (fl.less b r ≡ true) → fl.less a r ≡ true
  above_least a b r h (inl eq) = subst (λ z. fl.less a z ≡ true) (sym eq) h
  above_least a b r h (inr l) = order.transitive a b r h l

  not_above_least :
      (a b r : fl.Float)
      → fl.less a b ≡ false
      → (r ≡ a) ⊎ (fl.less a r ≡ true)
      → fl.less r b ≡ false
  not_above_least a b r h (inl eq) = subst (λ z. fl.less z b ≡ false) (sym eq) h
  not_above_least a b r h (inr l) = ground (arith, order.transitive a r b l, h)

module _ (fl : Floats) {A : Type 0} (eligible : A → Bool) (rate_of : A → fl.Float) where
  -- The rate of a result, or the one to beat.
  abbrev pub rate_or : fl.Float → Option A → fl.Float
  rate_or rate none = rate
  rate_or rate (some x) = rate_of x

  abbrev pub NotAbove : fl.Float → A → Type 0
  NotAbove best x = eligible x ≡ true → fl.less best (rate_of x) ≡ false

  -- A result is the one from before or an eligible entry.
  abbrev pub Origin : Option A → List A → Option A → Type 0
  Origin best [] found = found ≡ best
  Origin best (x ∷ xs) found = Origin best xs found ⊎ ((found ≡ some x) × (eligible x ≡ true))

  Origin-moves :
      (best : Option A) (x : A) (xs : List A) (found : Option A)
      → eligible x ≡ true
      → Origin (some x) xs found
      → Origin best (x ∷ xs) found
  Origin-moves best x [] found e h = inr (h, e)
  Origin-moves best x (y ∷ ys) found e (inr h) = inl (inr h)
  Origin-moves best x (y ∷ ys) found e (inl h) = elim (Origin-moves best x ys found e h) [
    | inl o ↦ inl (inl o)
    | inr q ↦ inr q
  ]

  -- `found` is the best of the entries, where an entry counts only above `rate`; `start` is the rate
  -- before the loop.
  pub record IsBest (start rate : fl.Float) (best : Option A) (xs : List A) (found : Option A)
      : Type 0 where
    pub origin : Origin best xs found
    pub kept : (rate_or start found ≡ rate) ⊎ (fl.less rate (rate_or start found) ≡ true)
    pub top : All (NotAbove (rate_or start found)) xs

  module _ (order : IsOrder fl) where
    raised :
        (start rate : fl.Float) (best : Option A) (x : A) (xs : List A) (found : Option A)
        → eligible x && fl.less rate (rate_of x) ≡ true
        → IsBest start (rate_of x) (some x) xs found
        → IsBest start rate best (x ∷ xs) found
    raised start rate best x xs found e h = record {
      origin = Origin-moves best x xs found (ground (arith, e)) h.origin;
      kept = inr (above_least fl order rate (rate_of x) _ (ground (arith, e)) h.kept);
      top = (
        λ _.
            not_above_least fl order (rate_of x) (rate_of x) _ (order.irreflexive (rate_of x))
              h.kept,
        h.top,
      );
    }

    passed :
        (start rate : fl.Float) (best : Option A) (x : A) (xs : List A) (found : Option A)
        → eligible x && fl.less rate (rate_of x) ≡ false
        → IsBest start rate best xs found
        → IsBest start rate best (x ∷ xs) found
    passed start rate best x xs found e h = record {
      origin = inl h.origin;
      kept = h.kept;
      top = (
        λ counts. not_above_least fl order rate (rate_of x) _ (ground (arith, e, counts)) h.kept,
        h.top,
      );
    }

    pub best_by-IsBest :
        (start rate : fl.Float) (best : Option A) (xs : List A)
        → rate_or start best ≡ rate
        → IsBest start rate best xs (best_by fl eligible rate_of rate best xs)
    unfolding best_by
    best_by-IsBest start rate best [] h = record { origin = refl; kept = inl h; top = tt }
    best_by-IsBest start rate best (x ∷ xs) h =
        elim (Bool-cases (eligible x && fl.less rate (rate_of x))) [
          | inl e ↦
              rw e (
                raised start rate best x xs _ e (best_by-IsBest start (rate_of x) (some x) xs refl))
          | inr e ↦ rw e (passed start rate best x xs _ e (best_by-IsBest start rate best xs h))
        ]
