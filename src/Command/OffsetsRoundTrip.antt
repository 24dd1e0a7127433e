-- ===== src/Command/OffsetsRoundTrip.antt =====
-- Retry offsets that are written down are read back.
use patience.Base.{
  ℤ, pos, ◌≤ℤ◌, ◌≡◌, refl, ap, ◌∙◌, false, Option, some, List, [], ◌∷◌, ◌++◌, map, Text, codes, All,
  Without, arith, is_empty, same_text, is_space, trim, trim_none, join, split-pieces, pieces-join,
  ◌<ℤ◌, ◌^◌,
}
use patience.Command.Offsets.{
  offsets, parse_offset, parse_parts, parse_retry_offsets, together, checked,
}

-- A time.Duration, which is an int64, that is not negative.
abbrev pub IsDuration : ℤ → Type 0
IsDuration d = (pos 0 ≤ℤ d) × (d <ℤ pos (2 ^ 63))

-- What the documentation says of a duration's String and of ParseDuration, for the durations that are not
-- negative: they are read back; the text is not empty, ends in a unit and has neither a space nor a comma.
pub record IsPrinter (parse_duration : Text → Option ℤ) (print : ℤ → Text) : Type 0 where
  pub reads : (d : ℤ) → IsDuration d → parse_duration (print d) ≡ some d
  pub visible : (d : ℤ) → IsDuration d → is_empty (print d) ≡ false
  pub unit : (d : ℤ) → IsDuration d → same_text (print d) (codes "0") ≡ false
  pub plain : (d : ℤ) → IsDuration d → All (λ c. is_space c ≡ false) (print d)
  pub no_comma : (d : ℤ) → IsDuration d → Without 44 (print d)

module _ (parse_duration : Text → Option ℤ) (print : ℤ → Text)
    (p : IsPrinter parse_duration print) where
  parse_offset-print :
      (d : ℤ)
      → IsDuration d
      → parse_offset parse_duration (trim is_space (print d)) ≡ offsets (d ∷ [])
  unfolding parse_offset
  parse_offset-print d h =
      rw (trim_none is_space (print d) (p.plain d h), p.unit d h)
        (ap (checked parse_duration (print d)) (p.reads d h) ∙ ground (arith, h.0))

  parse_parts-map :
      (ds : List ℤ) → All IsDuration ds → parse_parts parse_duration (map print ds) ≡ offsets ds
  unfolding parse_parts
  parse_parts-map [] h = refl
  parse_parts-map (d ∷ ds) h =
      ap (λ o. together parse_duration o (parse_parts parse_duration (map print ds)))
        (parse_offset-print d h.0)
      ∙ ap (λ o. together parse_duration (offsets (d ∷ [])) o) (parse_parts-map ds h.1)

  All-print : (ds : List ℤ) → All IsDuration ds → All (Without 44) (map print ds)
  All-print [] h = tt
  All-print (d ∷ ds) h = (p.no_comma d h.0, All-print ds h.1)

  is_empty-append : (s t : Text) → is_empty s ≡ false → is_empty (s ++ t) ≡ false
  unfolding is_empty
  is_empty-append [] t h = absurd (ground (arith, h))
  is_empty-append (c ∷ s) t h = refl

  is_empty-join :
      (d : ℤ) (ds : List ℤ)
      → IsDuration d
      → is_empty (join (codes ",") (print d ∷ map print ds)) ≡ false
  unfolding join
  is_empty-join d [] h = p.visible d h
  is_empty-join d (e ∷ es) h = is_empty-append (print d) _ (p.visible d h)

  -- At least one offset, each a duration that is not negative, printed and joined by commas, are read
  -- back, if the printed durations are as the documentation says.
  pub parse_retry_offsets-join :
      (d : ℤ) (ds : List ℤ)
      → IsDuration d
      → All IsDuration ds
      → parse_retry_offsets parse_duration (join (codes ",") (map print (d ∷ ds)))
        ≡ offsets (d ∷ ds)
  unfolding parse_retry_offsets
  parse_retry_offsets-join d ds h hs = rw (is_empty-join d ds h) (
      ap (parse_parts parse_duration) (
        split-pieces 44 (join (codes ",") (print d ∷ map print ds))
        ∙ pieces-join 44 (print d) (map print ds) (p.no_comma d h) (All-print ds hs))
      ∙ parse_parts-map (d ∷ ds) (h, hs))
