-- ===== src/Command/Offsets.antt =====
-- The retry offsets of the diophantine subcommand (cmd/patience/subcommands.go). `parse_duration` is
-- time.ParseDuration.
use patience.Base.{
  ℤ, pos, ltb_ℤ, Option, none, some, List, [], ◌∷◌, Text, codes, is_empty, same_text, split, trim,
  is_space, if◌then◌else◌, ◌++◌,
}

pub data OffsetError : Type 0 where
  no_offsets : OffsetError
  invalid_duration negative_offset : Text → OffsetError

pub data Offsets : Type 0 where
  offsets : List ℤ → Offsets
  bad_offset : OffsetError → Offsets

module _ (parse_duration : Text → Option ℤ) where
  abbrev pub checked : Text → Option ℤ → Offsets
  checked part none = bad_offset (invalid_duration part)
  checked part (some d) =
      if ltb_ℤ d (pos 0) then bad_offset (negative_offset part) else offsets (d ∷ [])

  unfoldable pub parse_offset : Text → Offsets
  parse_offset part =
      if same_text part (codes "0")
      then offsets (pos 0 ∷ [])
      else checked part (parse_duration part)

  abbrev pub together : Offsets → Offsets → Offsets
  together (offsets ds) (offsets es) = offsets (ds ++ es)
  together (offsets ds) (bad_offset e) = bad_offset e
  together (bad_offset e) rest = bad_offset e

  unfoldable pub parse_parts : List Text → Offsets
  parse_parts [] = offsets []
  parse_parts (part ∷ parts) = together (parse_offset (trim is_space part)) (parse_parts parts)

  unfoldable pub parse_retry_offsets : Text → Offsets
  parse_retry_offsets s =
      if is_empty s then bad_offset no_offsets else parse_parts (split s (codes ","))
