-- ===== src/Patterns/Json/Safety.antt =====
-- No search along a path that the pattern's validation accepts panics.
use patience.Base.{
  ◌≡◌, refl, ℤ, pos, negsuc, Option, none, some, Bool, true, false, List, [], ◌∷◌, Text, arith, ℕ,
  suc, zero, inl, inr, is_empty, atoi, take, Option-cases, if◌then◌else◌,
}
use patience.Patterns.Json.{
  Value, Items, opening, index_part, array, object, no_items, item, Found, found, missing, panics,
  access, collect, collected, gathered, then_search, at_index, get_item, extract_part, Fields,
  no_fields, field, get_field, navigate_to_field, extract_value_recursive,
}
use patience.Patterns.JsonPattern.{segment_error, segments_error}

abbrev pub calm : {A : Type 0} → Found A → Bool
calm panics = false
calm _ = true

module _ {F : Type 0} where
  collected-calm :
      (v : Found (Value F)) (vs : Found (Items F))
      → calm v ≡ true
      → calm vs ≡ true
      → calm (collected v vs) ≡ true
  collected-calm (found v) (found vs) h k = refl
  collected-calm (found v) missing h k = refl
  collected-calm (found v) panics h k = k
  collected-calm missing vs h k = k
  collected-calm panics vs h k = h

  pub collect-calm :
      (search : Value F → Found (Value F))
      → ((v : Value F) → calm (search v) ≡ true)
      → (xs : Items F) → calm (collect search xs) ≡ true
  unfolding collect
  collect-calm search h no_items = refl
  collect-calm search h (item v rest) =
      collected-calm (search v) (collect search rest) (h v) (collect-calm search h rest)

  gathered-calm : (vs : Found (Items F)) → calm vs ≡ true → calm (gathered vs) ≡ true
  gathered-calm (found no_items) h = refl
  gathered-calm (found (item v vs)) h = refl
  gathered-calm missing h = refl
  gathered-calm panics h = h

  then_search-calm :
      (search : Value F → Found (Value F))
      → ((v : Value F) → calm (search v) ≡ true)
      → (v : Found (Value F)) → calm v ≡ true
      → calm (then_search search v) ≡ true
  then_search-calm search h (found v) k = h v
  then_search-calm search h missing k = refl
  then_search-calm search h panics k = k

  get_item-calm : (i : ℕ) (arr : Items F) → calm (get_item i arr) ≡ true
  unfolding get_item
  get_item-calm i no_items = refl
  get_item-calm zero (item v rest) = refl
  get_item-calm (suc i) (item v rest) = get_item-calm i rest

  at_index-calm : (arr : Items F) (i : Option ℤ) → calm (at_index arr i) ≡ true
  at_index-calm arr none = refl
  at_index-calm arr (some (pos i)) = get_item-calm i arr
  at_index-calm arr (some (negsuc i)) = refl

  get_field-calm : (name : Text) (fs : Fields F) → calm (get_field name fs) ≡ true
  unfolding get_field
  get_field-calm name no_fields = refl
  get_field-calm name (field key v rest) = ground (arith, get_field-calm name rest)

  navigate_to_field-calm : (v : Value F) (name : Text) → calm (navigate_to_field v name) ≡ true
  unfolding navigate_to_field
  navigate_to_field-calm (object fs) name = get_field-calm name fs
  navigate_to_field-calm _ name = refl

  module _ (search : Value F → Found (Value F)) (h : (v : Value F) → calm (search v) ≡ true) where
    access-calm : (last : Bool) (i : Text) (v : Value F) → calm (access last search i v) ≡ true
    unfolding access
    access-calm last i (array arr) = ground (
      arith,
      gathered-calm (collect search arr) (collect-calm search h arr),
      then_search-calm search h (at_index arr (atoi i)) (at_index-calm arr (atoi i)),
    )
    access-calm last i _ = refl

    extract_part-calm :
        (last : Bool) (part : Text) (v : Value F)
        → segment_error part ≡ none
        → calm (extract_part last search part v) ≡ true
    unfolding extract_part segment_error
    extract_part-calm last part v ok =
        let start =
          if is_empty (take (opening part) part)
          then found v
          else navigate_to_field v (take (opening part) part) in
        let start_calm : calm start ≡ true =
          ground (arith, navigate_to_field-calm v (take (opening part) part)) in
        let accessed : calm (then_search (access last search (index_part part)) start) ≡ true =
          then_search-calm (access last search (index_part part))
            (access-calm last (index_part part)) start start_calm in
        ground (
          arith,
          h v,
          accessed,
          then_search-calm search h (navigate_to_field v part) (navigate_to_field-calm v part),
        )

  pub extract_value_recursive-calm :
      (parts : List Text) (v : Value F)
      → segments_error parts ≡ none
      → calm (extract_value_recursive parts v) ≡ true
  unfolding extract_value_recursive segments_error
  extract_value_recursive-calm [] v ok = refl
  extract_value_recursive-calm (part ∷ rest) v ok = elim (Option-cases (segment_error part)) [
    | inl none_here ↦
        let none_later : segments_error rest ≡ none = ground (arith, none_here, ok) in
        extract_part-calm (λ w. extract_value_recursive rest w)
          (λ w. extract_value_recursive-calm rest w none_later) (is_empty rest) part v none_here
    | inr (e, some_here) ↦ absurd (ground (arith, some_here, ok))
  ]
