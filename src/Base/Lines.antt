-- ===== src/Base/Lines.antt =====
-- Splitting at one code point: the loop of `split` takes enough rounds.
use Prim.Native.Nat.{ℕ, zero, suc, ◌+◌, ◌<◌}
use mathlib.Core.Path.{◌≡◌, refl, ap, ◌∙◌, sym}
use mathlib.Core.Logic.{inl, inr}
use mathlib.Core.Bool.{true, false}
use mathlib.Core.List.{List, [], ◌∷◌, ◌++◌}
use mathlib.Core.Option.{none, some}
use native.Mathlib.Omega.{arith}
use patience.Base.Tests.{◌==◌, if◌then◌else◌, Bool-cases, Option-cases}
use patience.Base.Lists.{length, take, drop, All, length-drop}
use patience.Base.Strings.{Text, has_prefix, index, split, split_loop, join, is_empty}
use patience.Base.Splitting.{Without}

-- The first line goes on with this code point.
abbrev pub longer : ℕ → List Text → List Text
longer d [] = (d ∷ []) ∷ []
longer d (t ∷ ts) = (d ∷ t) ∷ ts

-- The pieces between the occurrences of a code point.
unfoldable pub pieces : ℕ → Text → List Text
pieces c [] = [] ∷ []
pieces c (d ∷ s) = let rest = pieces c s in if d == c then [] ∷ rest else longer d rest

pieces-none : (c : ℕ) (s : Text) → index s (c ∷ []) ≡ none → pieces c s ≡ s ∷ []
unfolding pieces index has_prefix is_empty
pieces-none c [] h = refl
pieces-none c (d ∷ s) h = ground (arith, h, pieces-none c s)

pieces-some :
    (c : ℕ) (s : Text) (i : ℕ)
    → index s (c ∷ []) ≡ some i
    → pieces c s ≡ take i s ∷ pieces c (drop (suc i) s)
unfolding pieces index has_prefix is_empty
pieces-some c [] i h = absurd (ground (arith, h))
pieces-some c (d ∷ s) i h = elim (Bool-cases (c == d)) [
  | inl here ↦ ground (arith, here, h)
  | inr there ↦ elim (Option-cases (index s (c ∷ []))) [
    | inl nowhere ↦ absurd (ground (arith, there, nowhere, h))
    | inr (j, after) ↦ ground (arith, there, after, h, pieces-some c s j after)
  ]
]

index-lt-length : (c : ℕ) (s : Text) (i : ℕ) → index s (c ∷ []) ≡ some i → i < length s
unfolding index has_prefix is_empty
index-lt-length c [] i h = absurd (ground (arith, h))
index-lt-length c (d ∷ s) i h = elim (Bool-cases (c == d)) [
  | inl here ↦ ground (arith, here, h)
  | inr there ↦ elim (Option-cases (index s (c ∷ []))) [
    | inl nowhere ↦ absurd (ground (arith, there, nowhere, h))
    | inr (j, after) ↦ ground (arith, there, after, h, index-lt-length c s j after)
  ]
]

split_loop-pieces :
    (rounds c : ℕ) (s : Text) → length s < rounds → split_loop rounds (c ∷ []) s ≡ pieces c s
unfolding split_loop
split_loop-pieces zero c s h = absurd (omega (arith, h))
split_loop-pieces (suc rounds) c s h = elim (Option-cases (index s (c ∷ []))) [
  | inl nowhere ↦ rw nowhere (sym (pieces-none c s nowhere))
  | inr (i, there) ↦
      let shorter : length (drop (i + 1) s) < rounds =
        omega (arith, length-drop (i + 1) s, index-lt-length c s i there, h) in
      let next : i + 1 ≡ suc i = omega arith in
      rw there (
        ap (λ rest. take i s ∷ rest)
          (split_loop-pieces rounds c (drop (i + 1) s) shorter ∙ ap (λ k. pieces c (drop k s)) next)
        ∙ sym (pieces-some c s i there))
]

-- Splitting at one code point gives all pieces.
pub split-pieces : (c : ℕ) (s : Text) → split s (c ∷ []) ≡ pieces c s
unfolding split
split-pieces c s = split_loop-pieces (suc (length s)) c s (omega arith)

pub pieces-append :
    (c : ℕ) (s rest : Text) → Without c s → pieces c (s ++ c ∷ rest) ≡ s ∷ pieces c rest
unfolding pieces
pieces-append c [] rest h = ground arith
pieces-append c (d ∷ s) rest h = ground (arith, h.0, pieces-append c s rest h.1)

pub pieces-Without : (c : ℕ) (s : Text) → Without c s → pieces c s ≡ s ∷ []
unfolding pieces
pieces-Without c [] h = refl
pieces-Without c (d ∷ s) h = ground (arith, h.0, pieces-Without c s h.1)

join-longer : (c d : ℕ) (ts : List Text) → join (c ∷ []) (longer d ts) ≡ d ∷ join (c ∷ []) ts
unfolding join
join-longer c d [] = refl
join-longer c d (t ∷ []) = refl
join-longer c d (t ∷ u ∷ ts) = refl

longer-is_empty : (d : ℕ) (ts : List Text) → is_empty (longer d ts) ≡ false
unfolding is_empty
longer-is_empty d [] = refl
longer-is_empty d (t ∷ ts) = refl

pieces-is_empty : (c : ℕ) (s : Text) → is_empty (pieces c s) ≡ false
unfolding pieces is_empty
pieces-is_empty c [] = refl
pieces-is_empty c (d ∷ s) = elim (Bool-cases (d == c)) [
  | inl here ↦ rw here refl
  | inr there ↦ rw there (longer-is_empty d (pieces c s))
]

join-first :
    (c : ℕ) (ts : List Text) → is_empty ts ≡ false → join (c ∷ []) ([] ∷ ts) ≡ c ∷ join (c ∷ []) ts
unfolding join is_empty
join-first c [] h = absurd (ground (arith, h))
join-first c (t ∷ ts) h = refl

same_head : (c d : ℕ) (s : Text) → (d == c) ≡ true → c ∷ s ≡ d ∷ s
same_head c d s h = ground (arith, h)

-- Joined again, the pieces are the text.
pub join-pieces : (c : ℕ) (s : Text) → join (c ∷ []) (pieces c s) ≡ s
unfolding pieces join
join-pieces c [] = refl
join-pieces c (d ∷ s) = elim (Bool-cases (d == c)) [
  | inl here ↦ rw here (
      join-first c (pieces c s) (pieces-is_empty c s)
      ∙ ap (λ t. c ∷ t) (join-pieces c s)
      ∙ same_head c d s here)
  | inr there ↦ rw there (join-longer c d (pieces c s) ∙ ap (λ t. d ∷ t) (join-pieces c s))
]

-- The pieces of lines that were joined are the lines.
pub pieces-join :
    (c : ℕ) (t : Text) (ts : List Text)
    → Without c t
    → All (Without c) ts
    → pieces c (join (c ∷ []) (t ∷ ts)) ≡ t ∷ ts
unfolding join
pieces-join c t [] h hs = pieces-Without c t h
pieces-join c t (u ∷ us) h hs =
    pieces-append c t (join (c ∷ []) (u ∷ us)) h ∙ ap (λ ls. t ∷ ls) (pieces-join c u us hs.0 hs.1)
