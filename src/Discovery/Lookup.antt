-- ===== src/Discovery/Lookup.antt =====
-- The row that is found under a key in the table rate_limits of pkg/discovery/database.go after a save.
use patience.Base.{
  ℤ, pos, ◌+ℤ◌, ◌*ℤ◌, ◌≡◌, refl, ap, ◌∙◌, inl, inr, Bool, true, false, Option, none, some, List, [],
  ◌∷◌, ◌++◌, Text, arith, Bool-cases, same_text, same_text_refl, same_text-eq, ◌&&◌, if◌then◌else◌,
}
use patience.Backoff.Floats.{Floats}
use patience.Executor.Coordination.{unix}
use patience.Discovery.{RateLimitInfo, should_update}
use patience.Discovery.Parsing.{second}
use patience.Discovery.Database.{
  Row, is_key, to_info, to_row, find_row, update_where, replaced, observed_again,
  update_observation, saved, map_option,
}
use mathlib.Core.Path.{subst}

module _ (fl : Floats) where
  -- What is stored for a key, when this record is saved and this was stored.
  abbrev pub merged : ℤ → RateLimitInfo fl → Option (RateLimitInfo fl) → RateLimitInfo fl
  merged now info none = to_info fl (to_row fl now info)
  merged now info (some old) =
      if should_update fl now old info
      then record (to_info fl (to_row fl now info)) {
        resource_id = old.resource_id;
        host = old.host;
        path = old.path;
        observation_count = old.observation_count +ℤ pos 1;
      }
      else record old {
        observation_count = old.observation_count +ℤ pos 1;
        last_seen = unix now *ℤ second;
      }

  find_row-append :
      (test : Row fl → Bool) (rows : List (Row fl)) (row : Row fl)
      → find_row fl test rows ≡ none
      → find_row fl test (rows ++ row ∷ []) ≡ find_row fl test (row ∷ [])
  unfolding find_row
  find_row-append test [] row h = refl
  find_row-append test (x ∷ rows) row h = ground (arith, h, find_row-append test rows row)

  -- The change keeps the keys.
  find_row-update :
      (test : Row fl → Bool) (change : Row fl → Row fl) (rows : List (Row fl))
      → ((row : Row fl) → test (change row) ≡ test row)
      → find_row fl test (update_where fl test change rows)
        ≡ map_option change (find_row fl test rows)
  unfolding find_row update_where
  find_row-update test change [] keeps = refl
  find_row-update test change (x ∷ rows) keeps =
      ground (arith, keeps x, find_row-update test change rows keeps)

  pub find_row-true :
      (test : Row fl → Bool) (rows : List (Row fl)) (row : Row fl)
      → find_row fl test rows ≡ some row
      → test row ≡ true
  unfolding find_row
  find_row-true test [] row h = absurd (ground (arith, h))
  find_row-true test (x ∷ rows) row h = elim (Bool-cases (test x)) [
    | inl hit ↦
        let found_x : some x ≡ some row = rw hit at h in
        let same : x ≡ row = cc in subst (λ r. test r ≡ true) same hit
    | inr miss ↦ find_row-true test rows row (rw miss at h)
  ]

  -- Rows with another key are not found in place of those with this one.
  find_row-update_other :
      (test other : Row fl → Bool) (change : Row fl → Row fl) (rows : List (Row fl))
      → ((row : Row fl) → other (change row) ≡ other row)
      → ((row : Row fl) → test row ≡ true → other row ≡ false)
      → find_row fl other (update_where fl test change rows) ≡ find_row fl other rows
  unfolding find_row update_where
  find_row-update_other test other change [] keeps apart = refl
  find_row-update_other test other change (x ∷ rows) keeps apart = elim (Bool-cases (test x)) [
    | inl hit ↦
        rw (hit, keeps x, apart x hit) (find_row-update_other test other change rows keeps apart)
    | inr miss ↦
        let later = find_row-update_other test other change rows keeps apart in
        ground (arith, miss, later)
  ]

  pub is_key-eq :
      (r h p : Text) (row : Row fl)
      → is_key fl r h p row ≡ true
      → (row.resource_id ≡ r) × (row.host ≡ h) × (row.path ≡ p)
  is_key-eq r h p row k = (
    same_text-eq row.resource_id r (ground (arith, k)),
    same_text-eq row.host h (ground (arith, k)),
    same_text-eq row.path p (ground (arith, k)),
  )

  is_key_refl : (row : Row fl) → is_key fl row.resource_id row.host row.path row ≡ true
  is_key_refl row =
      ground
        (arith, same_text_refl row.resource_id, same_text_refl row.host, same_text_refl row.path)

  module _ (now : ℤ) (info : RateLimitInfo fl) (rows : List (Row fl)) where
    abbrev own : Row fl → Bool
    own = is_key fl info.resource_id info.host info.path

    own-to_row : find_row fl own (to_row fl now info ∷ []) ≡ some (to_row fl now info)
    unfolding find_row to_row
    own-to_row =
        rw (same_text_refl info.resource_id, same_text_refl info.host, same_text_refl info.path)
          refl

    own_key : (row : Row fl) → own row ≡ true → is_key fl row.resource_id row.host row.path ≡ own
    own_key row h =
        let (r, t, p) = is_key-eq info.resource_id info.host info.path row h in
        ap (λ x. is_key fl x row.host row.path) r
        ∙ ap (λ x. is_key fl info.resource_id x row.path) t
        ∙ ap (λ x. is_key fl info.resource_id info.host x) p

    pub saved-own :
        (o : Option (Row fl))
        → find_row fl own rows ≡ o
        → map_option
            (to_info fl)
            (find_row fl own (saved fl now info rows (map_option (to_info fl) o)))
          ≡ some (merged now info (map_option (to_info fl) o))
    unfolding to_info update_observation
    saved-own none e =
        ap (map_option (to_info fl)) (find_row-append own rows (to_row fl now info) e ∙ own-to_row)
    saved-own (some row) e = elim (Bool-cases (should_update fl now (to_info fl row) info)) [
      | inl newer ↦
          let change = replaced fl now info in
          rw newer (
            ap (map_option (to_info fl))
              (find_row-update own change rows (λ x. refl) ∙ ap (map_option change) e))
      | inr older ↦
          let change = observed_again fl now in
          let same_key = own_key row (find_row-true own rows row e) in
          rw older (
            ap
              (λ (k : Row fl → Bool).
                map_option (to_info fl) (find_row fl own (update_where fl k change rows)))
              same_key
            ∙ ap (map_option (to_info fl))
                (find_row-update own change rows (λ x. refl) ∙ ap (map_option change) e))
    ]

    find_row-append_other :
        (other : Row fl → Bool) (row : Row fl) (rs : List (Row fl))
        → other row ≡ false
        → find_row fl other (rs ++ row ∷ []) ≡ find_row fl other rs
    unfolding find_row
    find_row-append_other other row [] h = rw h refl
    find_row-append_other other row (x ∷ rs) h =
        ground (arith, find_row-append_other other row rs h)

    module _ (r h p : Text) (different : is_key fl r h p (to_row fl now info) ≡ false) where
      apart : (row : Row fl) → own row ≡ true → is_key fl r h p row ≡ false
      unfolding to_row
      apart row k =
          let (a, b, c) = is_key-eq info.resource_id info.host info.path row k in
          ap (λ x. same_text x r && (same_text row.host h && same_text row.path p)) a
          ∙ ap (λ x. same_text info.resource_id r && (same_text x h && same_text row.path p)) b
          ∙ ap (λ x. same_text info.resource_id r && (same_text info.host h && same_text x p)) c
          ∙ different

      pub saved-other :
          (o : Option (Row fl))
          → find_row fl own rows ≡ o
          → find_row fl (is_key fl r h p) (saved fl now info rows (map_option (to_info fl) o))
            ≡ find_row fl (is_key fl r h p) rows
      unfolding to_info update_observation
      saved-other none e =
          find_row-append_other (is_key fl r h p) (to_row fl now info) rows different
      saved-other (some row) e = elim (Bool-cases (should_update fl now (to_info fl row) info)) [
        | inl newer ↦ rw newer (
            find_row-update_other own (is_key fl r h p) (replaced fl now info) rows (λ x. refl)
              apart)
        | inr older ↦
            let change = observed_again fl now in
            let same_key = own_key row (find_row-true own rows row e) in
            rw older (
              ap
                (λ (k : Row fl → Bool).
                  find_row fl (is_key fl r h p) (update_where fl k change rows))
                same_key
              ∙ find_row-update_other own (is_key fl r h p) change rows (λ x. refl) apart)
      ]
