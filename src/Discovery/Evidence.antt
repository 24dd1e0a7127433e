-- ===== src/Discovery/Evidence.antt =====
-- What a learned rate limit rests on.
use patience.Base.{
  ℕ, ◌≤◌, ltb, ℤ, pos, ◌≡◌, refl, ◌∙◌, ◌⊎◌, inl, inr, Bool, true, false, ◌&&◌, Option, none, some,
  List, [], ◌∷◌, count, select, length, Text, arith, Bool-cases, if◌then◌else◌, ltb→ge,
}
use mathlib.Core.Path.{subst}
use patience.Backoff.Floats.{Floats}
use patience.Discovery.{RateLimitInfo, number, tenths}
use patience.Discovery.Learner.{
  Request, insert_request, sort_requests, is_recent_429, is_recent_success, in_window, window_sizes,
  analyze_window_pattern, try_windows, analyze_request_patterns, estimated_limit, learned_info,
  calculate_learning_confidence, or_next,
}

count-insert_request :
    (p : Request → Bool) (r : Request) (rs : List Request)
    → count p (insert_request r rs) ≡ count p (r ∷ rs)
unfolding insert_request count
count-insert_request p r [] = refl
count-insert_request p r (s ∷ rs) = ground (arith, count-insert_request p r rs)

count-sort_requests :
    (p : Request → Bool) (rs : List Request) → count p (sort_requests rs) ≡ count p rs
unfolding sort_requests count
count-sort_requests p [] = refl
count-sort_requests p (r ∷ rs) =
    count-insert_request p r (sort_requests rs) ∙ ground (arith, count-sort_requests p rs)

count-select :
    (p q : Request → Bool) (rs : List Request) → count q (select p rs) ≡ count (λ r. p r && q r) rs
unfolding count select
count-select p q [] = refl
count-select p q (r ∷ rs) = ground (arith, count-select p q rs)

-- How many of the requests are of a kind, within the window before the error.
abbrev pub kind_count : (ℤ → Request → Bool) → ℤ → ℤ → List Request → ℕ
kind_count kind window error_time rs =
    count (λ r. kind error_time r && in_window window error_time r) rs

count-sorted :
    (kind : ℤ → Request → Bool) (window error_time : ℤ) (rs : List Request)
    → count (in_window window error_time) (select (kind error_time) (sort_requests rs))
      ≡ kind_count kind window error_time rs
count-sorted kind window error_time rs =
    count-select (kind error_time) (in_window window error_time) (sort_requests rs)
    ∙ count-sort_requests (λ r. kind error_time r && in_window window error_time r) rs

abbrev pub OneOf : ℤ → List ℤ → Type 0
OneOf w [] = ⊥
OneOf w (x ∷ xs) = (w ≡ x) ⊎ OneOf w xs

module _ (fl : Floats) (ceil : fl.Float → fl.Float) where
  -- A limit that was learned for one of these windows, from these numbers of successes and of 429s.
  pub record Rests (windows : List ℤ) (successes failures : ℤ → ℕ) (info : RateLimitInfo fl)
      : Type 0 where
    pub is_tried : OneOf info.window windows
    pub two_successes : 2 ≤ successes info.window
    pub one_429 : 1 ≤ failures info.window
    pub counted : info.successful_requests ≡ pos (successes info.window)
    pub limit : info.limit ≡ estimated_limit fl ceil (successes info.window)

  some-injective : {x y : RateLimitInfo fl} → some x ≡ some y → x ≡ y
  some-injective e = cc

  module _ (low : fl.le (tenths fl 3) (number fl 0) ≡ false) where
    confident-two :
        (n m : ℕ) (window : ℤ)
        → fl.le (tenths fl 3) (calculate_learning_confidence fl ceil n m window) ≡ true
        → 2 ≤ n
    unfolding calculate_learning_confidence
    confident-two n m window h = elim (Bool-cases (ltb n 2)) [
      | inl few ↦ absurd (ground (arith, low, rw few at h))
      | inr enough ↦ ltb→ge n 2 enough
    ]

    module _ (now : ℤ) (resource_id host path : Text) (successful failures : List Request)
        (error_time : ℤ) (info : RateLimitInfo fl) where
      abbrev successes_in : ℤ → ℕ
      successes_in w = count (in_window w error_time) successful

      abbrev failures_in : ℤ → ℕ
      failures_in w = count (in_window w error_time) failures

      abbrev candidate : ℤ → RateLimitInfo fl
      candidate w =
          learned_info fl ceil now resource_id host path (successes_in w) (length failures) w
            error_time

      window-Rests :
          (w : ℤ) (b c : Bool)
          → (ltb 0 (successes_in w) && ltb 0 (failures_in w)) ≡ b
          → fl.le (tenths fl 3) (candidate w).confidence ≡ c
          → (if b then (if c then some (candidate w) else none) else none) ≡ some info
          → Rests (w ∷ []) successes_in failures_in info
      window-Rests w false c h k e = absurd (ground (arith, e))
      window-Rests w true false h k e = absurd (ground (arith, e))
      window-Rests w true true h k e =
          subst (Rests (w ∷ []) successes_in failures_in) (some-injective e) record {
            is_tried = inl refl;
            two_successes = confident-two (successes_in w) (length failures) w k;
            one_429 = ground (arith, h);
            counted = refl;
            limit = refl;
          }

      next-Rests :
          (w : ℤ) (ws : List ℤ) (o later : Option (RateLimitInfo fl))
          → (o ≡ some info → Rests (w ∷ []) successes_in failures_in info)
          → (later ≡ some info → Rests ws successes_in failures_in info)
          → or_next fl ceil o later ≡ some info
          → Rests (w ∷ ws) successes_in failures_in info
      next-Rests w ws (some i) later h k e =
          let r = h e in
          record {
            is_tried = tried_first r.is_tried;
            two_successes = r.two_successes;
            one_429 = r.one_429;
            counted = r.counted;
            limit = r.limit;
          }
        where
          tried_first : OneOf info.window (w ∷ []) → OneOf info.window (w ∷ ws)
          tried_first (inl same) = inl same
          tried_first (inr none_left) = absurd none_left
      next-Rests w ws none later h k e =
          let r = k e in
          record {
            is_tried = inr r.is_tried;
            two_successes = r.two_successes;
            one_429 = r.one_429;
            counted = r.counted;
            limit = r.limit;
          }

      try_windows-Rests :
          (ws : List ℤ)
          → try_windows fl ceil now resource_id host path successful failures error_time ws
            ≡ some info
          → Rests ws successes_in failures_in info
      unfolding try_windows analyze_window_pattern
      try_windows-Rests [] e = absurd (ground (arith, e))
      try_windows-Rests (w ∷ ws) e =
          next-Rests w ws _ _ (window-Rests w _ _ refl refl) (try_windows-Rests ws) e

  -- A limit that is learned from requests is for one of the windows that are tried; in that window, before
  -- the error, there were at least two successes, which it counts, and already another 429; and it is the
  -- estimate for that number of successes. (A confidence of 0 is below 0.3.)
  pub analyze_request_patterns-Rests :
      (now : ℤ) (resource_id host path : Text) (requests : List Request) (error_time : ℤ)
      (info : RateLimitInfo fl)
      → fl.le (tenths fl 3) (number fl 0) ≡ false
      → analyze_request_patterns fl ceil now resource_id host path requests error_time ≡ some info
      → Rests window_sizes
          (λ w. kind_count is_recent_success w error_time requests)
          (λ w. kind_count is_recent_429 w error_time requests)
          info
  unfolding analyze_request_patterns
  analyze_request_patterns-Rests now resource_id host path requests error_time info low e =
      let sorted = sort_requests requests in
      let r =
        try_windows-Rests low now resource_id host path
          (select (is_recent_success error_time) sorted) (select (is_recent_429 error_time) sorted)
          error_time info window_sizes e in
      let w = info.window in
      let successes = count-sorted is_recent_success w error_time requests in
      let failures = count-sorted is_recent_429 w error_time requests in
      record {
        is_tried = r.is_tried;
        two_successes = subst (λ n. 2 ≤ n) successes r.two_successes;
        one_429 = subst (λ n. 1 ≤ n) failures r.one_429;
        counted = subst (λ n. info.successful_requests ≡ pos n) successes r.counted;
        limit = subst (λ n. info.limit ≡ estimated_limit fl ceil n) successes r.limit;
      }
