-- ===== src/Patterns/JsonPattern/Wildcards.antt =====
-- What a wildcard in a path means for equality.
use patience.Base.{
  ◌≡◌, refl, none, Bool, true, false, List, [], ◌∷◌, Text, arith, ◌∙◌, ap, is_empty, same_text,
  take, if◌then◌else◌, contains, index,
}
use patience.Backoff.Floats.{Floats}
use patience.Patterns.Json.{
  Value, Items, array, no_items, item, Found, found, missing, panics, extract_part,
  extract_value_recursive, access, collect, collected, gathered, then_search, navigate_to_field,
  has_brackets, star, index_part, opening,
}
use patience.Patterns.Json.Safety.{calm, extract_value_recursive-calm}
use patience.Patterns.Compare.{compare_equal, compare_items, either}
use patience.Patterns.JsonPattern.{segments_error, segment_error}

segments_error-first :
    (part : Text) (rest : List Text)
    → segments_error (part ∷ rest) ≡ none
    → segment_error part ≡ none
unfolding segments_error
segments_error-first part rest ok = ground (arith, ok)

segments_error-rest :
    (part : Text) (rest : List Text)
    → segments_error (part ∷ rest) ≡ none
    → segments_error rest ≡ none
unfolding segments_error
segments_error-rest part rest ok = ground (arith, ok)

bracketed-is_empty : (part : Text) → has_brackets part ≡ true → is_empty part ≡ false
unfolding contains index is_empty
bracketed-is_empty [] h = absurd (ground (arith, h))
bracketed-is_empty (c ∷ s) h = refl

extract_part_bracketed :
    {F : Type 0} (last : Bool) (search : Value F → Found (Value F)) (part : Text)
    (current : Value F)
    → segment_error part ≡ none
    → has_brackets part ≡ true
    → extract_part last search part current
      ≡ then_search (access last search (index_part part)) (
          if is_empty (take (opening part) part)
          then found current
          else navigate_to_field current (take (opening part) part))
unfolding extract_part segment_error
extract_part_bracketed last search part current ok h =
    ground (arith, ok, h, bracketed-is_empty part h)

module _ (fl : Floats) (expected : Value fl.Float) where
  -- Whether what a path leads to equals the expected value; a path that leads nowhere does not match.
  abbrev pub holds : Found (Value fl.Float) → Found Bool
  holds (found v) = compare_equal fl v expected
  holds missing = found false
  holds panics = panics

  -- Whether it does so for an element of an array.
  unfoldable pub holds_of_some :
      (Value fl.Float → Found (Value fl.Float)) → Items fl.Float → Found Bool
  holds_of_some search no_items = found false
  holds_of_some search (item v rest) = either fl (holds (search v)) (holds_of_some search rest)

  -- The same of the values that were collected.
  abbrev of_collected : Found (Items fl.Float) → Found Bool
  of_collected (found vs) = compare_items fl vs expected
  of_collected missing = found false
  of_collected panics = panics

  holds-gathered : (vs : Found (Items fl.Float)) → holds (gathered vs) ≡ of_collected vs
  unfolding compare_equal
  holds-gathered (found no_items) = refl
  holds-gathered (found (item v vs)) = refl
  holds-gathered missing = refl
  holds-gathered panics = refl

  of_collected-collected :
      (v : Found (Value fl.Float)) (vs : Found (Items fl.Float))
      → calm v ≡ true
      → (ws : Items fl.Float) → vs ≡ found ws
      → of_collected (collected v vs) ≡ either fl (holds v) (of_collected vs)
  unfolding compare_equal
  of_collected-collected (found v) (found vs) h ws e = refl
  of_collected-collected (found v) missing h ws e = absurd (ground (arith, e))
  of_collected-collected (found v) panics h ws e = absurd (ground (arith, e))
  of_collected-collected missing vs h ws e = refl
  of_collected-collected panics vs h ws e = absurd (ground (arith, h))

  found-collected :
      (v : Found (Value fl.Float)) (vs : Found (Items fl.Float))
      → calm v ≡ true
      → (ws : Items fl.Float) × (vs ≡ found ws)
      → (ws : Items fl.Float) × (collected v vs ≡ found ws)
  found-collected (found v) vs h (ws, e) = (item v ws, ap (λ o. collected (found v) o) e)
  found-collected missing vs h (ws, e) = (ws, e)
  found-collected panics vs h (ws, e) = absurd (ground (arith, h))

  module _ (search : Value fl.Float → Found (Value fl.Float))
      (h : (v : Value fl.Float) → calm (search v) ≡ true) where
    collect-found : (xs : Items fl.Float) → (ws : Items fl.Float) × (collect search xs ≡ found ws)
    unfolding collect
    collect-found no_items = (no_items, refl)
    collect-found (item v rest) =
        found-collected (search v) (collect search rest) (h v) (collect-found rest)

    collect-holds :
        (xs : Items fl.Float) → of_collected (collect search xs) ≡ holds_of_some search xs
    unfolding collect holds_of_some compare_equal
    collect-holds no_items = refl
    collect-holds (item v rest) =
        let (ws, e) = collect-found rest in
        of_collected-collected (search v) (collect search rest) (h v) ws e
        ∙ ap (λ r. either fl (holds (search v)) r) (collect-holds rest)

  access_starred :
      (search : Value fl.Float → Found (Value fl.Float)) (last : Bool) (i : Text)
      (arr : Items fl.Float)
      → same_text i star ≡ true
      → last ≡ false
      → access last search i (array arr) ≡ gathered (collect search arr)
  unfolding access
  access_starred search last i arr starred more = ground (arith, starred, more)

  -- Where an accepted path goes on after a wildcard over an array, it equals the expected value exactly
  -- if the rest of the path, from some element on, leads to a value that equals it.
  pub wildcard_equal :
      (part : Text) (rest : List Text) (current : Value fl.Float) (arr : Items fl.Float)
      → segments_error (part ∷ rest) ≡ none
      → has_brackets part ≡ true
      → same_text (index_part part) star ≡ true
      → is_empty rest ≡ false
      → (if is_empty (take (opening part) part)
          then found current
          else navigate_to_field current (take (opening part) part))
        ≡ found (array arr)
      → holds (extract_value_recursive (part ∷ rest) current)
        ≡ holds_of_some (λ v. extract_value_recursive rest v) arr
  unfolding extract_value_recursive extract_part access
  wildcard_equal part rest current arr ok bracketed starred more reached =
      let search : Value fl.Float → Found (Value fl.Float) = λ v. extract_value_recursive rest v in
      let none_later : segments_error rest ≡ none = segments_error-rest part rest ok in
      let last = is_empty rest in
      ap holds (
        extract_part_bracketed last search part current (segments_error-first part rest ok)
          bracketed
        ∙ ap (λ v. then_search (access last search (index_part part)) v) reached
        ∙ access_starred search last (index_part part) arr starred more)
      ∙ holds-gathered (collect search arr)
      ∙ collect-holds search (λ v. extract_value_recursive-calm rest v none_later) arr
