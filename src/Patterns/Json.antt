-- ===== src/Patterns/Json.antt =====
-- The values that the JSON matcher meets, paths through them and comparisons
-- (pkg/patterns/json_matcher.go). Float arithmetic is an argument. What can panic says so.

pub mod Safety
use patience.Base.{
  ℕ, suc, ◌-◌, ltb, ℤ, pos, negsuc, Bool, ◌&&◌, Option, none, some, List, [], ◌∷◌, take, drop,
  if◌then◌else◌, Text, codes, is_empty, same_text, has_prefix, index, contains, split, atoi, zero,
}

-- What an interface{} holds here: what encoding/json decodes, and the int of a pattern or a context.
mutual
  pub data Value (F : Type 0) : Type 0 where
    null : Value F
    boolean : Bool → Value F
    int : ℤ → Value F
    float : F → Value F
    text : Text → Value F
    array : Items F → Value F
    object : Fields F → Value F

  pub data Items (F : Type 0) : Type 0 where
    no_items : Items F
    item : Value F → Items F → Items F

  pub data Fields (F : Type 0) : Type 0 where
    no_fields : Fields F
    field : Text → Value F → Fields F → Fields F

-- A result, nothing, or a panic.
pub data Found (A : Type 0) : Type 0 where
  found : A → Found A
  missing : Found A
  panics : Found A

abbrev pub star : Text
star = codes "*"

abbrev pub opening : Text → ℕ
opening part = elim (index part (codes "[")) [ none ↦ 0 | some i ↦ i ]

abbrev pub closing : Text → ℕ
closing part = elim (index part (codes "]")) [ none ↦ 0 | some i ↦ i ]

abbrev pub has_brackets : Text → Bool
has_brackets part = contains part (codes "[") && contains part (codes "]")

abbrev pub index_part : Text → Text
index_part part = take (closing part - suc (opening part)) (drop (suc (opening part)) part)

module _ {F : Type 0} where
  unfoldable pub get_field : Text → Fields F → Found (Value F)
  get_field name no_fields = missing
  get_field name (field key v rest) =
      let others = get_field name rest in if same_text key name then found v else others

  unfoldable pub navigate_to_field : Value F → Text → Found (Value F)
  navigate_to_field (object fields) name = get_field name fields
  navigate_to_field _ name = missing

  -- arr[index], within bounds.
  unfoldable pub get_item : ℕ → Items F → Found (Value F)
  get_item i no_items = missing
  get_item zero (item v rest) = found v
  get_item (suc i) (item v rest) = get_item i rest

  -- A negative index is out of bounds.
  abbrev pub at_index : Items F → Option ℤ → Found (Value F)
  at_index arr (some (pos i)) = get_item i arr
  at_index arr (some (negsuc i)) = missing
  at_index arr none = missing

  abbrev pub then_search : (Value F → Found (Value F)) → Found (Value F) → Found (Value F)
  then_search search (found v) = search v
  then_search search missing = missing
  then_search search panics = panics

  abbrev pub collected : Found (Value F) → Found (Items F) → Found (Items F)
  collected panics rest = panics
  collected missing rest = rest
  collected (found v) (found vs) = found (item v vs)
  collected (found v) missing = missing
  collected (found v) panics = panics

  -- What the rest of the path finds in each element.
  unfoldable pub collect : (Value F → Found (Value F)) → Items F → Found (Items F)
  collect search no_items = found no_items
  collect search (item v rest) = collected (search v) (collect search rest)

  abbrev pub gathered : Found (Items F) → Found (Value F)
  gathered (found no_items) = missing
  gathered (found (item v vs)) = found (array (item v vs))
  gathered missing = missing
  gathered panics = panics

  -- `last` says whether no parts remain, and `search` is the search for those that do.
  unfoldable pub access : Bool → (Value F → Found (Value F)) → Text → Value F → Found (Value F)
  access last search index_part (array arr) =
      if same_text index_part star
      then (if last then found (array arr) else gathered (collect search arr))
      else then_search search (at_index arr (atoi index_part))
  access last search index_part _ = missing

  unfoldable pub extract_part :
      Bool → (Value F → Found (Value F)) → Text → Value F → Found (Value F)
  extract_part last search part current =
      let array_part = take (opening part) part in
      if is_empty part
      then search current
      else if has_brackets part
      then (if ltb (closing part) (suc (opening part))
          then panics
          else then_search (access last search (index_part part))
              (if is_empty array_part then found current else navigate_to_field current array_part))
      else then_search search (navigate_to_field current part)

  unfoldable pub extract_value_recursive : List Text → Value F → Found (Value F)
  extract_value_recursive [] current = found current
  extract_value_recursive (part ∷ rest) current =
      extract_part (is_empty rest) (λ v. extract_value_recursive rest v) part current

  unfoldable pub extract_value : Text → Value F → Found (Value F)
  extract_value path value =
      if has_prefix path (codes "$.")
      then extract_value_recursive (split (drop 2 path) (codes ".")) value
      else missing
