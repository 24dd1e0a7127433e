-- ===== src/Patterns/Streams.antt =====
-- What a stream's matcher holds and finds.
use patience.Base.{
  ℕ, ◌/◌, ◌≤◌, ◌≡◌, refl, Bool, Option, none, some, List, length, length-append, length-drop, arith,
  ◌||◌, true, false, sym, All, [], ◌∷◌, ◌++◌, ◌+◌, ◌∙◌, ap, ltb, Bool-cases, inl, inr, drop,
  if◌then◌else◌,
}
use mathlib.Core.Path.{subst}
use patience.Patterns.{
  StreamingMatcher, trimmed, tested, attempted, process_chunk, process_chunks, reset,
}

attempted-bounded :
    (regex : Option (List ℕ → Bool)) (chunk : List ℕ) (s : StreamingMatcher)
    → length s.buffer ≤ s.max_buffer
    → length chunk ≤ s.max_buffer / 2
    → length (attempted regex chunk s).buffer ≤ s.max_buffer
attempted-bounded none chunk s h k = h
attempted-bounded (some matches) chunk s h k =
    ground (
      arith,
      h,
      k,
      length-append (trimmed chunk s) chunk,
      length-drop (length s.buffer / 2) s.buffer,
    )

attempted-max_buffer :
    (regex : Option (List ℕ → Bool)) (chunk : List ℕ) (s : StreamingMatcher)
    → (attempted regex chunk s).max_buffer ≡ s.max_buffer
attempted-max_buffer none chunk s = refl
attempted-max_buffer (some matches) chunk s = ground arith

-- While no chunk is longer than half of the buffer's limit, the buffer stays within its limit, however
-- many chunks are processed.
pub process_chunks-bounded :
    (cs : List (List ℕ)) (s : StreamingMatcher)
    → length s.buffer ≤ s.max_buffer
    → All (λ (c : List ℕ). length c ≤ s.max_buffer / 2) cs
    → length (process_chunks cs s).buffer ≤ s.max_buffer
unfolding process_chunks process_chunk
process_chunks-bounded [] s h short = h
process_chunks-bounded (c ∷ cs) s h short =
    let same = attempted-max_buffer s.regex c s in
    let bounded = attempted-bounded s.regex c s h short.0 in
    subst (λ m. length (process_chunks (c ∷ cs) s).buffer ≤ m) same
      (process_chunks-bounded cs (process_chunk c s)
        (subst (λ m. length (attempted s.regex c s).buffer ≤ m) (sym same) bounded)
        (subst (λ m. All (λ (d : List ℕ). length d ≤ m / 2) cs) (sym same) short.1))

-- Whether the text read so far matches after one of the chunks.
unfoldable pub finds : (List ℕ → Bool) → List ℕ → List (List ℕ) → Bool
finds matches seen [] = false
finds matches seen (c ∷ cs) = matches (seen ++ c) || finds matches (seen ++ c) cs

abbrev pub total : List (List ℕ) → ℕ
total [] = 0
total (c ∷ cs) = length c + total cs

attempted-matched :
    (regex : Option (List ℕ → Bool)) (c : List ℕ) (s : StreamingMatcher)
    → s.matched ≡ true
    → (attempted regex c s).matched ≡ true
attempted-matched none c s e = e
attempted-matched (some matches) c s e =
    ap (λ b. (if b then s else tested matches (trimmed c s ++ c) s).matched) e ∙ e

stays_matched :
    (cs : List (List ℕ)) (s : StreamingMatcher)
    → s.matched ≡ true
    → (process_chunks cs s).matched ≡ true
unfolding process_chunks process_chunk
stays_matched [] s e = e
stays_matched (c ∷ cs) s e = stays_matched cs (process_chunk c s) (attempted-matched s.regex c s e)

-- What a chunk that fits does to a matcher that has not matched yet.
record Reads (matches : List ℕ → Bool) (c : List ℕ) (s t : StreamingMatcher) : Type 0 where
  regex : t.regex ≡ s.regex
  limit : t.max_buffer ≡ s.max_buffer
  buffer : t.buffer ≡ s.buffer ++ c
  matched : t.matched ≡ matches (s.buffer ++ c)

tested-Reads :
    (matches : List ℕ → Bool) (c : List ℕ) (s : StreamingMatcher)
    → s.matched ≡ false
    → Reads matches c s (tested matches (s.buffer ++ c) s)
tested-Reads matches c s e = record {
  regex = ground arith;
  limit = ground arith;
  buffer = ground arith;
  matched = ground (arith, e);
}

attempted-Reads :
    (matches : List ℕ → Bool) (c : List ℕ) (s : StreamingMatcher)
    → s.regex ≡ some matches
    → s.matched ≡ false
    → length s.buffer + length c ≤ s.max_buffer
    → Reads matches c s (attempted s.regex c s)
attempted-Reads matches c s r e fits =
    let roomy : ltb s.max_buffer (length s.buffer + length c) ≡ false = ground (arith, fits) in
    let same : attempted s.regex c s ≡ tested matches (s.buffer ++ c) s =
      ap (λ x. attempted x c s) r
      ∙ ap (λ b. if b then s else tested matches (trimmed c s ++ c) s) e
      ∙ ap
          (λ b.
            tested matches ((if b then drop (length s.buffer / 2) s.buffer else s.buffer) ++ c) s)
          roomy in
    subst (Reads matches c s) (sym same) (tested-Reads matches c s e)

process_chunks-unmatched :
    (matches : List ℕ → Bool) (cs : List (List ℕ)) (s : StreamingMatcher)
    → s.regex ≡ some matches
    → s.matched ≡ false
    → length s.buffer + total cs ≤ s.max_buffer
    → (process_chunks cs s).matched ≡ finds matches s.buffer cs
unfolding process_chunks process_chunk finds
process_chunks-unmatched matches [] s r e fits = e
process_chunks-unmatched matches (c ∷ cs) s r e fits =
    let t = process_chunk c s in
    let h = attempted-Reads matches c s r e (omega (arith, fits)) in
    let size = ap length h.buffer ∙ length-append s.buffer c in
    elim (Bool-cases (matches (s.buffer ++ c))) [
      | inl m ↦
          stays_matched cs t (h.matched ∙ m)
          ∙ sym (ap (λ b. b || finds matches (s.buffer ++ c) cs) m)
      | inr m ↦
          process_chunks-unmatched matches cs t (h.regex ∙ r) (h.matched ∙ m)
            (omega (arith, size, h.limit, fits))
          ∙ ap (λ b. finds matches b cs) h.buffer
          ∙ sym (ap (λ b. b || finds matches (s.buffer ++ c) cs) m)
    ]

-- On a stream that fits the buffer as a whole, a fresh or reset matcher has matched in the end exactly
-- if, after one of the chunks, the text up to there matches: no match is missed for where the text is
-- split, and none is forgotten.
pub process_chunks-finds :
    (matches : List ℕ → Bool) (cs : List (List ℕ)) (s : StreamingMatcher)
    → s.regex ≡ some matches
    → total cs ≤ s.max_buffer
    → (process_chunks cs (reset s)).matched ≡ finds matches [] cs
unfolding reset
process_chunks-finds matches cs s r fits =
    process_chunks-unmatched matches cs (reset s) r refl (omega (arith, fits))
