-- ===== src/Examples/Durations.antt =====
-- Durations written as nanoseconds in decimal, which time.ParseDuration reads.
use patience.Base.{
  ◌≡◌, refl, pos, pos_part, false, none, some, [], ◌∷◌, ℕ, zero, suc, ◌+◌, ◌-◌, ◌*◌, ◌/◌, ◌%◌, ◌^◌,
  ◌<◌, ltb, ◌∙◌, ap, negsuc, ◌==◌, ◌&&◌, Text, ℤ, All, is_space, is_digit, is_empty, same_text,
  Option, codes, if◌then◌else◌, arith, true,
}
use patience.Command.OffsetsRoundTrip.{IsDuration, IsPrinter}

-- The last `n` digits of a number, in front of a text.
unfoldable pub decimal : ℕ → ℕ → Text → Text
decimal zero m rest = rest
decimal (suc n) m rest = decimal n (m / 10) ((48 + m % 10) ∷ rest)

-- Every int64 has at most 19 digits; leading zeros are read too.
abbrev pub print : ℤ → Text
print d = decimal 19 (pos_part d) (codes "ns")

-- The number in front of the unit ns.
unfoldable pub read_ns : ℕ → Text → Option ℕ
read_ns n [] = none
read_ns n (c ∷ s) =
    let rest = read_ns (n * 10 + (c - 48)) s in
    if is_digit c then rest else if c == 110 && same_text s (codes "s") then some n else none

-- A number that no int64 holds is refused.
abbrev pub in_range : Option ℕ → Option ℤ
in_range none = none
in_range (some n) = if ltb n (2 ^ 63) then some (pos n) else none

abbrev pub parse_ns : Text → Option ℤ
parse_ns s = in_range (read_ns 0 s)

read_ns-digit : (m : ℕ) (rest : Text) → read_ns (m / 10) ((48 + m % 10) ∷ rest) ≡ read_ns m rest
unfolding read_ns
read_ns-digit m rest =
    let digit : is_digit (48 + m % 10) ≡ true = ground arith in
    let number : m / 10 * 10 + (48 + m % 10 - 48) ≡ m = omega arith in
    rw digit (ap (λ n. read_ns n rest) number)

read_ns-decimal :
    (n m : ℕ) (rest : Text) → m < 10 ^ n → read_ns 0 (decimal n m rest) ≡ read_ns m rest
unfolding decimal read_ns
read_ns-decimal zero m rest h = let e : m ≡ 0 = omega (arith, h) in rw e refl
read_ns-decimal (suc n) m rest h =
    read_ns-decimal n (m / 10) ((48 + m % 10) ∷ rest) (omega (arith, h)) ∙ read_ns-digit m rest

decimal-All :
    (P : ℕ → Type 0) (n m : ℕ) (rest : Text)
    → ((k : ℕ) → k < 10 → P (48 + k))
    → All P rest
    → All P (decimal n m rest)
unfolding decimal
decimal-All P zero m rest digit h = h
decimal-All P (suc n) m rest digit h =
    decimal-All P n (m / 10) ((48 + m % 10) ∷ rest) digit (digit (m % 10) (omega arith), h)

print-reads : (d : ℤ) → IsDuration d → parse_ns (print d) ≡ some d
unfolding read_ns same_text
print-reads (pos n) h =
    ap in_range (read_ns-decimal 19 n (codes "ns") (omega (arith, h.1))) ∙ ground (arith, h.1)
print-reads (negsuc n) h = absurd (omega (arith, h.0))

pub nanoseconds : IsPrinter parse_ns print
unfolding decimal is_space is_empty same_text
nanoseconds = record {
  reads = print-reads;
  visible = λ d h. refl;
  unit = λ d h. ground arith;
  plain = λ d h.
      decimal-All (λ c. is_space c ≡ false) 19 (pos_part d) (codes "ns") (λ k b. ground (arith, b))
        (refl, (refl, tt));
  no_comma = λ d h.
      decimal-All (λ c. (c == 44) ≡ false) 19 (pos_part d) (codes "ns") (λ k b. ground (arith, b))
        (ground arith, (ground arith, tt));
}
