-- ===== src/Base/Strings.antt =====
-- A text as the list of its code points, and the functions of Go's strings and strconv packages.
use Prim.Native.Nat.{ℕ, zero, suc, ◌+◌, ◌-◌, ◌*◌, ◌^◌}
use Prim.Native.Char.{code}
use Prim.Native.String.{String}
use mathlib.Core.Path.{◌≡◌, refl}
use mathlib.Core.Bool.{Bool, true, false, ◌&&◌, ◌||◌}
use mathlib.Core.List.{List, [], ◌∷◌, ◌++◌}
use mathlib.Core.Option.{Option, none, some}
use native.Mathlib.Omega.{arith}
use patience.Base.Tests.{◌==◌, leb, ltb, if◌then◌else◌}
use patience.Base.Lists.{length, take, drop}
use patience.Base.Int.{ℤ, pos, negsuc}

abbrev pub Text : Type 0
Text = List ℕ

-- The code points of a literal.
abbrev pub codes : String → Text
codes String.[] = []
codes (String.◌∷◌ c s) = code c ∷ codes s

unfoldable pub is_empty {ℓ} : {A : Type ℓ} → List A → Bool
is_empty [] = true
is_empty (x ∷ xs) = false

unfoldable pub same_text : Text → Text → Bool
same_text [] [] = true
same_text (c ∷ s) (d ∷ t) = c == d && same_text s t
same_text _ _ = false

-- strings.HasPrefix(s, prefix)
unfoldable pub has_prefix : Text → Text → Bool
has_prefix s [] = true
has_prefix [] (c ∷ p) = false
has_prefix (d ∷ s) (c ∷ p) = c == d && has_prefix s p

-- strings.HasSuffix(s, suffix)
unfoldable pub has_suffix : Text → Text → Bool
unfolding has_prefix
has_suffix [] p = is_empty p
has_suffix (d ∷ s) p = same_text (d ∷ s) p || has_suffix s p

-- strings.TrimPrefix(s, prefix)
unfoldable pub trim_prefix : Text → Text → Text
trim_prefix s p = if has_prefix s p then drop (length p) s else s

abbrev pub later : Option ℕ → Option ℕ
later none = none
later (some i) = some (suc i)

-- strings.Index(s, sub)
unfoldable pub index : Text → Text → Option ℕ
index [] sub = if is_empty sub then some 0 else none
index (c ∷ s) sub =
    let rest = later (index s sub) in if has_prefix (c ∷ s) sub then some 0 else rest

abbrev pub is_some {ℓ} : {A : Type ℓ} → Option A → Bool
is_some none = false
is_some (some a) = true

-- strings.Contains(s, sub)
unfoldable pub contains : Text → Text → Bool
contains s sub = is_some (index s sub)

abbrev pub split_at : (Text → List Text) → Text → ℕ → Text → Option ℕ → List Text
split_at more sep n s none = s ∷ []
split_at more sep n s (some i) = take i s ∷ more (drop (i + n) s)

unfoldable pub split_loop : ℕ → Text → Text → List Text
split_loop zero sep s = s ∷ []
split_loop (suc rounds) sep s =
    split_at (λ rest. split_loop rounds sep rest) sep (length sep) s (index s sep)

-- strings.Split(s, sep) for a separator that is not empty: each round but the last takes one off.
unfoldable pub split : Text → Text → List Text
split s sep = split_loop (suc (length s)) sep s

-- strings.Join(ts, sep)
unfoldable pub join : Text → List Text → Text
join sep [] = []
join sep (t ∷ []) = t
join sep (t ∷ u ∷ ts) = t ++ (sep ++ join sep (u ∷ ts))

-- unicode.IsSpace
unfoldable pub is_space : ℕ → Bool
is_space c =
    leb 9 c && leb c 13
    || c == 32
    || c == 0x85
    || c == 0xa0
    || c == 0x1680
    || leb 0x2000 c && leb c 0x200a
    || c == 0x2028
    || c == 0x2029
    || c == 0x202f
    || c == 0x205f
    || c == 0x3000

unfoldable pub trim_left : (ℕ → Bool) → Text → Text
trim_left p [] = []
trim_left p (c ∷ s) = let rest = trim_left p s in if p c then rest else c ∷ s

unfoldable pub trim_right : (ℕ → Bool) → Text → Text
trim_right p [] = []
trim_right p (c ∷ s) = let rest = trim_right p s in if is_empty rest && p c then [] else c ∷ rest

-- strings.TrimFunc(s, p): TrimSpace for is_space, and Trim(s, "\"") for the quote.
unfoldable pub trim : (ℕ → Bool) → Text → Text
trim p s = trim_right p (trim_left p s)

unfoldable pub fields_loop : Text → Text → List Text
fields_loop word [] = if is_empty word then [] else word ∷ []
fields_loop word (c ∷ s) =
    let rest = fields_loop [] s in
    let longer = fields_loop (word ++ c ∷ []) s in
    if is_space c then (if is_empty word then rest else word ∷ rest) else longer

-- strings.Fields(s)
unfoldable pub fields : Text → List Text
fields s = fields_loop [] s

abbrev pub is_digit : ℕ → Bool
is_digit c = leb b'0' c && leb c b'9'

-- The digits of a number that is not empty.
unfoldable pub digits : ℕ → Text → Option ℕ
digits n [] = some n
digits n (c ∷ s) = let rest = digits (n * 10 + (c - b'0')) s in if is_digit c then rest else none

abbrev pub digits_of : Text → Option ℕ
digits_of [] = none
digits_of (c ∷ s) = digits 0 (c ∷ s)

abbrev pub positive : Option ℕ → Option ℤ
positive none = none
positive (some n) = if ltb n (2 ^ 63) then some (pos n) else none

abbrev pub negative : Option ℕ → Option ℤ
negative none = none
negative (some zero) = some (pos 0)
negative (some (suc n)) = if ltb n (2 ^ 63) then some (negsuc n) else none

-- strconv.Atoi
unfoldable pub atoi : Text → Option ℤ
atoi [] = none
atoi (c ∷ s) =
    if c == b'-'
    then negative (digits_of s)
    else if c == b'+'
    then positive (digits_of s)
    else positive (digits_of (c ∷ s))

-- strings.ToLower, where the argument is unicode.ToLower beyond ASCII.
unfoldable pub to_lower : (ℕ → ℕ) → Text → Text
to_lower unicode [] = []
to_lower unicode (c ∷ s) =
    (if leb b'A' c && leb c b'Z' then c + 32 else if ltb c 128 then c else unicode c)
    ∷ to_lower unicode s

pub same_text_refl : (s : Text) → same_text s s ≡ true
unfolding same_text
same_text_refl [] = refl
same_text_refl (c ∷ s) = ground (arith, same_text_refl s)

pub same_text-eq : (s t : Text) → same_text s t ≡ true → s ≡ t
unfolding same_text
same_text-eq [] [] h = refl
same_text-eq [] (d ∷ t) h = ground (arith, h)
same_text-eq (c ∷ s) [] h = ground (arith, h)
same_text-eq (c ∷ s) (d ∷ t) h = ground (arith, h, same_text-eq s t)
