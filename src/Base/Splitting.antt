-- ===== src/Base/Splitting.antt =====
-- Where a separator stands in a text, and what splitting and trimming give.
use Prim.Native.Nat.{ℕ, zero, suc, ◌+◌}
use mathlib.Core.Path.{◌≡◌, refl, ap, ◌∙◌}
use mathlib.Core.Bool.{Bool, true, false}
use mathlib.Core.List.{List, [], ◌∷◌, ◌++◌, append_assoc}
use mathlib.Core.Option.{none, some}
use native.Mathlib.Omega.{arith}
use patience.Base.Tests.{◌==◌}
use patience.Base.Lists.{length, take, drop, All}
use patience.Base.Strings.{
  Text, same_text, has_prefix, has_suffix, index, contains, split, split_loop, split_at, trim_left,
  trim_right, trim, is_empty,
}

-- No code point of the text is `c`.
abbrev pub Without : ℕ → Text → Type 0
Without c s = All (λ d. (d == c) ≡ false) s

pub index-append_some :
    (c : ℕ) (sub s rest : Text) (i : ℕ)
    → Without c s
    → index rest (c ∷ sub) ≡ some i
    → index (s ++ rest) (c ∷ sub) ≡ some (length s + i)
unfolding index has_prefix
index-append_some c sub [] rest i h e = ground (arith, e)
index-append_some c sub (d ∷ s) rest i h e =
    ground (arith, h.0, index-append_some c sub s rest i h.1 e)

pub index-append_none :
    (c : ℕ) (sub s rest : Text)
    → Without c s
    → index rest (c ∷ sub) ≡ none
    → index (s ++ rest) (c ∷ sub) ≡ none
unfolding index has_prefix
index-append_none c sub [] rest h e = e
index-append_none c sub (d ∷ s) rest h e = ground (arith, h.0, index-append_none c sub s rest h.1 e)

pub has_prefix-append : (s rest : Text) → has_prefix (s ++ rest) s ≡ true
unfolding has_prefix
has_prefix-append [] rest = refl
has_prefix-append (c ∷ s) rest = ground (arith, has_prefix-append s rest)

-- A word before a separator is a whole word.
pub has_prefix_word :
    (c : ℕ) (s t rest : Text)
    → Without c s
    → Without c t
    → has_prefix (s ++ c ∷ rest) (t ++ c ∷ []) ≡ same_text s t
unfolding has_prefix same_text
has_prefix_word c [] [] rest h k = ground arith
has_prefix_word c [] (d ∷ t) rest h k = ground (arith, k.0)
has_prefix_word c (d ∷ s) [] rest h k = ground (arith, h.0)
has_prefix_word c (d ∷ s) (e ∷ t) rest h k = ground (arith, has_prefix_word c s t rest h.1 k.1)

pub has_prefix-Without : (c : ℕ) (s t : Text) → Without c s → has_prefix s (t ++ c ∷ []) ≡ false
unfolding has_prefix
has_prefix-Without c [] [] h = refl
has_prefix-Without c [] (d ∷ t) h = refl
has_prefix-Without c (e ∷ s) [] h = ground (arith, h.0)
has_prefix-Without c (e ∷ s) (d ∷ t) h = ground (arith, has_prefix-Without c s t h.1)

pub index-Without : (c : ℕ) (sub s : Text) → Without c s → index s (c ∷ sub) ≡ none
unfolding index has_prefix is_empty
index-Without c sub [] h = refl
index-Without c sub (d ∷ s) h = ground (arith, h.0, index-Without c sub s h.1)

contains-append :
    (c : ℕ) (sub s rest : Text)
    → Without c s
    → contains (s ++ rest) (c ∷ sub) ≡ contains rest (c ∷ sub)
unfolding contains index has_prefix
contains-append c sub [] rest h = refl
contains-append c sub (d ∷ s) rest h = ground (arith, h.0, contains-append c sub s rest h.1)

index-separator_none : (c : ℕ) (v t : Text) → Without c t → index (c ∷ t) (c ∷ (v ++ c ∷ [])) ≡ none
unfolding index has_prefix
index-separator_none c v t h =
    ground (arith, has_prefix-Without c t v h, index-Without c (v ++ c ∷ []) t h)

-- Between separators, a text contains no word but the one that is there.
pub contains_word :
    (c : ℕ) (s w v t : Text)
    → Without c s
    → Without c w
    → Without c v
    → Without c t
    → contains (s ++ ((c ∷ (w ++ c ∷ [])) ++ t)) (c ∷ (v ++ c ∷ [])) ≡ same_text w v
unfolding contains index has_prefix
contains_word c s w v t hs hw hv ht =
    let nowhere = index-append_none c (v ++ c ∷ []) w (c ∷ t) hw (index-separator_none c v t ht) in
    contains-append c (v ++ c ∷ []) s ((c ∷ (w ++ c ∷ [])) ++ t) hs
    ∙ ap (λ u. contains (c ∷ u) (c ∷ (v ++ c ∷ []))) (append_assoc w (c ∷ []) t)
    ∙ ground (arith, nowhere, has_prefix_word c w v t hw hv)

take-append_self {ℓ} : {A : Type ℓ} (s rest : List A) → take (length s) (s ++ rest) ≡ s
take-append_self [] rest = refl
take-append_self (c ∷ s) rest = ap (λ t. c ∷ t) (take-append_self s rest)

drop-append_self {ℓ} :
    {A : Type ℓ} (n : ℕ) (s rest : List A) → drop (length s + n) (s ++ rest) ≡ drop n rest
drop-append_self n [] rest = let same : 0 + n ≡ n = omega arith in ap (λ k. drop k rest) same
drop-append_self n (c ∷ s) rest =
    let same : suc (length s) + n ≡ suc (length s + n) = omega arith in
    ap (λ k. drop k (c ∷ s ++ rest)) same ∙ drop-append_self n s rest

pub drop_self {ℓ} : {A : Type ℓ} (s rest : List A) → drop (length s) (s ++ rest) ≡ rest
drop_self [] rest = refl
drop_self (c ∷ s) rest = drop_self s rest

pub take_first {ℓ} : {A : Type ℓ} (s rest : List A) → take (length s + 0) (s ++ rest) ≡ s
take_first s rest =
    let same : length s + 0 ≡ length s = omega arith in
    ap (λ i. take i (s ++ rest)) same ∙ take-append_self s rest

pub drop_rest {ℓ} :
    {A : Type ℓ} (n : ℕ) (s rest : List A) → drop (length s + 0 + n) (s ++ rest) ≡ drop n rest
drop_rest n s rest =
    let same : length s + 0 + n ≡ length s + n = omega arith in
    ap (λ i. drop i (s ++ rest)) same ∙ drop-append_self n s rest

split_loop-Without :
    (rounds c : ℕ) (sub t : Text) → Without c t → split_loop rounds (c ∷ sub) t ≡ t ∷ []
unfolding split_loop
split_loop-Without zero c sub t k = refl
split_loop-Without (suc rounds) c sub t k = rw (index-Without c sub t k) refl

index-separator : (c : ℕ) (sub t : Text) → index ((c ∷ sub) ++ t) (c ∷ sub) ≡ some 0
unfolding index
index-separator c sub t = rw (has_prefix-append (c ∷ sub) t) refl

split_loop_once :
    (rounds c : ℕ) (sub s t : Text)
    → Without c s
    → Without c t
    → split_loop (suc rounds) (c ∷ sub) (s ++ ((c ∷ sub) ++ t)) ≡ s ∷ t ∷ []
unfolding split_loop
split_loop_once rounds c sub s t h k =
    let pattern = s ++ ((c ∷ sub) ++ t) in
    let more : Text → List Text = λ rest. split_loop rounds (c ∷ sub) rest in
    let found = index-append_some c sub s ((c ∷ sub) ++ t) 0 h (index-separator c sub t) in
    let first = take_first s ((c ∷ sub) ++ t) in
    let second = drop_rest (suc (length sub)) s ((c ∷ sub) ++ t) ∙ drop_self (c ∷ sub) t in
    ap (λ o. split_at more (c ∷ sub) (length (c ∷ sub)) pattern o) found
    ∙ ap (λ p. p ∷ more (drop (length s + 0 + suc (length sub)) pattern)) first
    ∙ ap (λ p. s ∷ more p) second
    ∙ ap (λ rest. s ∷ rest) (split_loop-Without rounds c sub t k)

-- A text with one separator, where neither part contains what the separator begins with.
pub split_once :
    (c : ℕ) (sub s t : Text)
    → Without c s
    → Without c t
    → split (s ++ ((c ∷ sub) ++ t)) (c ∷ sub) ≡ s ∷ t ∷ []
unfolding split
split_once c sub s t h k = split_loop_once _ c sub s t h k

pub trim_left_none : (p : ℕ → Bool) (s : Text) → All (λ c. p c ≡ false) s → trim_left p s ≡ s
unfolding trim_left
trim_left_none p [] h = refl
trim_left_none p (c ∷ s) h = ground (arith, h.0)

pub trim_right_none : (p : ℕ → Bool) (s : Text) → All (λ c. p c ≡ false) s → trim_right p s ≡ s
unfolding trim_right
trim_right_none p [] h = refl
trim_right_none p (c ∷ s) h = ground (arith, h.0, trim_right_none p s h.1)

pub trim_none : (p : ℕ → Bool) (s : Text) → All (λ c. p c ≡ false) s → trim p s ≡ s
unfolding trim
trim_none p s h = ap (trim_right p) (trim_left_none p s h) ∙ trim_right_none p s h

trim_right-append :
    (p : ℕ → Bool) (c : ℕ) (s : Text)
    → All (λ d. p d ≡ false) s
    → p c ≡ true
    → trim_right p (s ++ c ∷ []) ≡ s
unfolding trim_right is_empty
trim_right-append p c [] h e = ground (arith, e)
trim_right-append p c (d ∷ s) h e = ground (arith, h.0, trim_right-append p c s h.1 e)

-- Trimming takes off a pair of delimiters.
pub trim_delimited :
    (p : ℕ → Bool) (c : ℕ) (s : Text)
    → All (λ d. p d ≡ false) s
    → p c ≡ true
    → trim p (c ∷ s ++ c ∷ []) ≡ s
unfolding trim trim_left trim_right is_empty
trim_delimited p c [] h e = ground (arith, e)
trim_delimited p c (d ∷ s) h e = ground (arith, e, h.0, trim_right-append p c (d ∷ s) h e)

pub has_suffix_last : (c : ℕ) (s : Text) → has_suffix (s ++ c ∷ []) (c ∷ []) ≡ true
unfolding has_suffix same_text
has_suffix_last c [] = ground arith
has_suffix_last c (d ∷ s) = ground (arith, has_suffix_last c s)
