-- ===== src/Backoff/HttpAware/Search.antt =====
-- The search for a delay in JSON objects ends by itself: the rounds that it is given are enough.
use patience.Base.{
  ℕ, zero, suc, ◌≤◌, ◌<◌, ◌≡◌, refl, ℤ, Option, none, some, ◌⊎◌, inl, inr, [], ◌∷◌, length,
  length-drop, arith, ap, sym, ◌∙◌, pos,
}
use patience.Backoff.HttpAware.{
  Text, Parsers, judged, closed, resumed, retry_in, find_matching_brace, from_brace, search_round,
  search_loop, search, or_zero,
}

length-from_brace : (s : Text) → length (from_brace s) ≤ length s
unfolding from_brace
length-from_brace [] = omega arith
length-from_brace (c ∷ cs) = ground (arith, length-from_brace cs)

abbrev IsShorter : Text → ℤ ⊎ Text → Type 0
IsShorter s (inl delay) = Unit
IsShorter s (inr rest) = length rest < length s

judged-IsShorter :
    (c close : ℕ) (cs : Text) (found : Option (Option ℤ))
    → IsShorter (c ∷ cs) (judged (c ∷ cs) close found)
judged-IsShorter c close cs none = omega arith
judged-IsShorter c close cs (some none) = omega (arith, length-drop close cs)
judged-IsShorter c close cs (some (some delay)) = tt

closed-IsShorter :
    (p : Parsers) (c : ℕ) (cs : Text) (close : Option ℕ)
    → IsShorter (c ∷ cs) (closed p (c ∷ cs) close)
closed-IsShorter p c cs none = omega arith
closed-IsShorter p c cs (some close) = judged-IsShorter c close cs (retry_in p (c ∷ cs) close)

resumed-agree :
    (f g : Text → Option ℤ) (s : Text) (r : ℤ ⊎ Text)
    → IsShorter s r
    → ((rest : Text) → length rest < length s → f rest ≡ g rest)
    → resumed f r ≡ resumed g r
resumed-agree f g s (inl delay) h agree = refl
resumed-agree f g s (inr rest) h agree = agree rest h

search_round-agree :
    (p : Parsers) (f g : Text → Option ℤ) (s : Text)
    → ((rest : Text) → length rest < length s → f rest ≡ g rest)
    → search_round p f s ≡ search_round p g s
search_round-agree p f g [] agree = refl
search_round-agree p f g (c ∷ cs) agree =
    resumed-agree f g (c ∷ cs) _ (closed-IsShorter p c cs (find_matching_brace (c ∷ cs))) agree

search_loop-enough :
    (p : Parsers) (m n : ℕ) (s : Text)
    → length s < m
    → length s < n
    → search_loop p m s ≡ search_loop p n s
unfolding search_loop
search_loop-enough p zero n s h k = ground (arith, h)
search_loop-enough p (suc m) zero s h k = ground (arith, k)
search_loop-enough p (suc m) (suc n) s h k =
    search_round-agree p (search_loop p m) (search_loop p n) (from_brace s) (λ rest shorter.
      search_loop-enough p m n rest (omega (arith, shorter, length-from_brace s, h))
        (omega (arith, shorter, length-from_brace s, k)))

-- A loop that has ended, with a delay or with nothing found.
abbrev Ended : Option ℤ → Type 0
Ended result = (delay : ℤ) × (result ≡ some delay)

resumed-Ended :
    (f : Text → Option ℤ) (s : Text) (r : ℤ ⊎ Text)
    → IsShorter s r
    → ((rest : Text) → length rest < length s → Ended (f rest))
    → Ended (resumed f r)
resumed-Ended f s (inl delay) h ends = (delay, refl)
resumed-Ended f s (inr rest) h ends = ends rest h

search_round-Ended :
    (p : Parsers) (f : Text → Option ℤ) (s : Text)
    → ((rest : Text) → length rest < length s → Ended (f rest))
    → Ended (search_round p f s)
search_round-Ended p f [] ends = (pos 0, refl)
search_round-Ended p f (c ∷ cs) ends =
    resumed-Ended f (c ∷ cs) _ (closed-IsShorter p c cs (find_matching_brace (c ∷ cs))) ends

search_loop-Ended :
    (p : Parsers) (rounds : ℕ) (s : Text) → length s < rounds → Ended (search_loop p rounds s)
unfolding search_loop
search_loop-Ended p zero s h = absurd (omega (arith, h))
search_loop-Ended p (suc rounds) s h =
    search_round-Ended p (search_loop p rounds) (from_brace s) (λ rest shorter.
      search_loop-Ended p rounds rest (omega (arith, shorter, length-from_brace s, h)))

search_loop-search :
    (p : Parsers) (rounds : ℕ) (s : Text)
    → length s < rounds
    → search_loop p rounds s ≡ some (search p s)
unfolding search
search_loop-search p rounds s h =
    let (delay, ended) = search_loop-Ended p (suc (length s)) s (omega arith) in
    search_loop-enough p rounds (suc (length s)) s h (omega arith)
    ∙ ended
    ∙ ap (λ (r : Option ℤ). some (or_zero r)) (sym ended)

-- The search ends: with any number of rounds above the length of the text the loop has ended before
-- they are used up, always with the same result. That result satisfies the equation of the code's loop,
-- which has no bound on its rounds: it is one round that goes on with the search itself.
pub search_ends :
    (p : Parsers) (s : Text) (rounds : ℕ)
    → length s < rounds
    → (search_loop p rounds s ≡ some (search p s))
      × (some (search p s) ≡ search_round p (λ rest. some (search p rest)) (from_brace s))
unfolding search_loop
search_ends p s rounds enough =
    let next =
      search_round-agree p (search_loop p (length s)) (λ rest. some (search p rest)) (from_brace s)
        (λ rest shorter.
          search_loop-search p (length s) rest (omega (arith, shorter, length-from_brace s))) in
    (
      search_loop-search p rounds s enough,
      sym (search_loop-search p (suc (length s)) s (omega arith)) ∙ next,
    )
