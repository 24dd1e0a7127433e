-- ===== src/Discovery/Stored.antt =====
-- What GetRateLimitInfo reads back of what SaveRateLimitInfo stored (pkg/discovery/database.go).
use patience.Base.{
  ℕ, ◌*◌, ◌<◌, ◌^◌, ℤ, pos, negsuc, ◌+ℤ◌, ◌-ℤ◌, ◌*ℤ◌, ◌≤ℤ◌, ◌<ℤ◌, ◌≡◌, refl, sym, ap, ◌⊎◌, inl, inr,
  Bool, true, false, Option, none, some, List, Text, arith, Bool-cases, wrap64, wrap64_self, quot,
  ◌/◌, ◌∙◌,
}
use patience.Backoff.Floats.{Floats}
use patience.Executor.Coordination.{unix}
use patience.Discovery.{RateLimitInfo, should_update}
use patience.Discovery.Parsing.{second}
use patience.Discovery.Database.{
  Row, is_key, to_info, to_row, seconds, find_row, get_rate_limit_info, saved, save_rate_limit_info,
  map_option,
}
use patience.Discovery.Lookup.{merged, saved-own, saved-other, find_row-true, is_key-eq}
use mathlib.Core.Path.{subst}

-- The last whole second that is not after an instant.
abbrev pub IsLastSecond : ℤ → ℤ → Type 0
IsLastSecond t r = ((k : ℤ) × (r ≡ k *ℤ pos 1000000000)) × (r ≤ℤ t) × (t <ℤ r +ℤ pos 1000000000)

abbrev pub IsLastSecondOf : Option ℤ → Option ℤ → Type 0
IsLastSecondOf none none = Unit
IsLastSecondOf (some t) (some r) = IsLastSecond t r
IsLastSecondOf _ _ = ⊥

unix-IsLastSecond : (t : ℤ) → IsLastSecond t (unix t *ℤ second)
unfolding unix ◌*ℤ◌ ◌+ℤ◌
unix-IsLastSecond (pos n) = ((pos (n / 1000000000), refl), ground arith, ground arith)
unix-IsLastSecond (negsuc n) = ((negsuc (n / 1000000000), refl), ground arith, ground arith)

unix-IsLastSecondOf :
    (o : Option ℤ) → IsLastSecondOf o (map_option (λ t. t *ℤ second) (map_option unix o))
unix-IsLastSecondOf none = tt
unix-IsLastSecondOf (some t) = unix-IsLastSecond t

-- What IEEE 754 says of the whole numbers that a float64 holds: they are converted back unchanged, and a
-- fraction of nothing adds nothing.
pub record IsExact (fl : Floats) : Type 0 where
  pub whole : (n : ℕ) → n < 2 ^ 53 → fl.to_int (fl.of_int (pos n)) ≡ pos n
  pub no_part : fl.div (fl.of_int (pos 0)) (fl.of_int second) ≡ fl.of_int (pos 0)
  pub add_nothing : (n : ℕ) → fl.add (fl.of_int (pos n)) (fl.of_int (pos 0)) ≡ fl.of_int (pos n)

-- A time.Duration of a whole number of seconds.
abbrev pub IsWhole : ℤ → Type 0
IsWhole d = (n : ℕ) × (d ≡ pos (n * 1000000000)) × (n * 1000000000 < 2 ^ 63)

module _ (fl : Floats) where
  -- What is read back of a record that was stored, with this count of observations.
  pub record IsRestored (now : ℤ) (info : RateLimitInfo fl) (count : ℤ) (r : RateLimitInfo fl)
      : Type 0 where
    pub resource_id : r.resource_id ≡ info.resource_id
    pub host : r.host ≡ info.host
    pub path : r.path ≡ info.path
    pub limit : r.limit ≡ info.limit
    pub window : r.window ≡ info.window
    pub remaining : r.remaining ≡ info.remaining
    pub reset_time : IsLastSecond info.reset_time r.reset_time
    pub source : r.source ≡ info.source
    pub confidence : r.confidence ≡ info.confidence
    pub last_seen : IsLastSecond now r.last_seen
    pub observation_count : r.observation_count ≡ count
    pub successful_requests : r.successful_requests ≡ info.successful_requests
    pub failed_requests : r.failed_requests ≡ info.failed_requests
    pub last_429_response : IsLastSecondOf info.last_429_response r.last_429_response

  -- The record that was there, seen once more.
  pub record IsSeenAgain (now : ℤ) (old r : RateLimitInfo fl) : Type 0 where
    pub kept :
        r
        ≡ record old { observation_count = old.observation_count +ℤ pos 1; last_seen = r.last_seen }
    pub last_seen : IsLastSecond now r.last_seen

  -- What is there after a save, by what was there before.
  abbrev pub IsStored :
      ℤ → RateLimitInfo fl → Option (RateLimitInfo fl) → Option (RateLimitInfo fl) → Type 0
  IsStored now info old none = ⊥
  IsStored now info none (some r) = IsRestored now info info.observation_count r
  IsStored now info (some old) (some r) =
      ((should_update fl now old info ≡ true)
        × IsRestored now info (old.observation_count +ℤ pos 1) r)
      ⊎ ((should_update fl now old info ≡ false) × IsSeenAgain now old r)

  module _ (exact : IsExact fl) where
    whole_quotient : (n : ℕ) → quot (pos (n * 1000000000)) 1000000000 ≡ pos n
    unfolding quot
    whole_quotient n = ap pos (omega arith)

    whole_product : (n : ℕ) → pos n *ℤ second ≡ pos (n * 1000000000)
    unfolding ◌*ℤ◌
    whole_product n = ground arith

    no_difference : (n : ℕ) → pos n -ℤ pos n ≡ pos 0
    unfolding ◌-ℤ◌
    no_difference n = ground arith

    whole_seconds : (n : ℕ) → seconds fl (pos (n * 1000000000)) ≡ fl.of_int (pos n)
    unfolding seconds
    whole_seconds n =
        let part : ℤ → fl.Float = λ z. fl.div (fl.of_int z) (fl.of_int second) in
        ap (λ w. fl.add (fl.of_int w) (part (pos (n * 1000000000) -ℤ w *ℤ second)))
          (whole_quotient n)
        ∙ ap (λ z. fl.add (fl.of_int (pos n)) (part (pos (n * 1000000000) -ℤ z))) (whole_product n)
        ∙ ap (λ z. fl.add (fl.of_int (pos n)) (part z)) (no_difference (n * 1000000000))
        ∙ ap (λ x. fl.add (fl.of_int (pos n)) x) exact.no_part
        ∙ exact.add_nothing n

    window_restored : (d : ℤ) → IsWhole d → wrap64 (fl.to_int (seconds fl d) *ℤ second) ≡ d
    window_restored d (n, e, fits) =
        rw (e, whole_seconds n, exact.whole n (omega (arith, fits)), whole_product n)
          (wrap64_self (pos (n * 1000000000)) (ground (arith, fits), omega arith))

    to_info-to_row :
        (now : ℤ) (info : RateLimitInfo fl)
        → IsWhole info.window
        → IsRestored now info info.observation_count (to_info fl (to_row fl now info))
    unfolding to_info to_row
    to_info-to_row now info whole = record {
      resource_id = refl;
      host = refl;
      path = refl;
      limit = refl;
      window = window_restored info.window whole;
      remaining = refl;
      reset_time = unix-IsLastSecond info.reset_time;
      source = refl;
      confidence = refl;
      last_seen = unix-IsLastSecond now;
      observation_count = refl;
      successful_requests = refl;
      failed_requests = refl;
      last_429_response = unix-IsLastSecondOf info.last_429_response;
    }

    merged-IsStored :
        (now : ℤ) (info old : RateLimitInfo fl)
        → IsWhole info.window
        → (old.resource_id ≡ info.resource_id) × (old.host ≡ info.host) × (old.path ≡ info.path)
        → IsStored now info (some old) (some (merged fl now info (some old)))
    merged-IsStored now info old whole key = elim (Bool-cases (should_update fl now old info)) [
      | inl newer ↦
          let fresh = to_info-to_row now info whole in
          rw newer (
            inl (
              refl,
              record {
                resource_id = key.0;
                host = key.1;
                path = key.2;
                limit = fresh.limit;
                window = fresh.window;
                remaining = fresh.remaining;
                reset_time = fresh.reset_time;
                source = fresh.source;
                confidence = fresh.confidence;
                last_seen = fresh.last_seen;
                observation_count = refl;
                successful_requests = fresh.successful_requests;
                failed_requests = fresh.failed_requests;
                last_429_response = fresh.last_429_response;
              },
            ))
      | inr older ↦ rw older (inr (refl, record { kept = refl; last_seen = unix-IsLastSecond now }))
    ]

    module _ (now : ℤ) (info : RateLimitInfo fl) (rows : List (Row fl)) where
      abbrev own : Row fl → Bool
      own = is_key fl info.resource_id info.host info.path

      found-IsStored :
          (o : Option (Row fl))
          → find_row fl own rows ≡ o
          → IsWhole info.window
          → IsStored now info
              (map_option (to_info fl) o)
              (some (merged fl now info (map_option (to_info fl) o)))
      unfolding to_info
      found-IsStored none e whole = to_info-to_row now info whole
      found-IsStored (some row) e whole =
          merged-IsStored now info (to_info fl row) whole (
            is_key-eq fl info.resource_id info.host info.path row (find_row-true fl own rows row e))

      get-own :
          (o : Option (Row fl))
          → find_row fl own rows ≡ o
          → IsWhole info.window
          → IsStored now info (map_option (to_info fl) o) (
              map_option
                (to_info fl)
                (find_row fl own (saved fl now info rows (map_option (to_info fl) o))))
      get-own o e whole =
          subst (λ r. IsStored now info (map_option (to_info fl) o) r)
            (sym (saved-own fl now info rows o e)) (found-IsStored o e whole)

    -- If float64 holds whole numbers as IEEE 754 says: after a record whose window is a whole number of
    -- seconds is saved, its key gives: without an earlier record this one, with its times rounded down to
    -- whole seconds and the time of the save as its last time; with an earlier one that it replaces, the
    -- same with one more observation than that had; and else the earlier one, with one more observation
    -- and the time of the save. Any other key gives what it gave before.
    pub get-save :
        (now : ℤ) (info : RateLimitInfo fl) (rows : List (Row fl)) (r h p : Text)
        → IsWhole info.window
        → IsStored now info (get_rate_limit_info fl info.resource_id info.host info.path rows) (
            get_rate_limit_info fl info.resource_id info.host info.path
              (save_rate_limit_info fl now info rows))
          × (((r ≡ info.resource_id) × (h ≡ info.host) × (p ≡ info.path))
              ⊎ (get_rate_limit_info fl r h p (save_rate_limit_info fl now info rows)
                  ≡ get_rate_limit_info fl r h p rows))
    unfolding get_rate_limit_info save_rate_limit_info to_row
    get-save now info rows r h p whole = (
      get-own now info rows _ refl whole,
      elim (Bool-cases (is_key fl r h p (to_row fl now info))) [
        | inl same ↦
            let (a, b, c) = is_key-eq fl r h p (to_row fl now info) same in
            inl (sym a, sym b, sym c)
        | inr different ↦
            inr (ap (map_option (to_info fl)) (saved-other fl now info rows r h p different _ refl))
      ],
    )
