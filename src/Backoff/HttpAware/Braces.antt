-- ===== src/Backoff/HttpAware/Braces.antt =====
-- The closing brace that is found is the first place where the braces outside strings are balanced.
use patience.Base.{
  ℕ, suc, ◌+◌, ◌-◌, ◌≤◌, ◌≡◌, ◌==◌, Bool, true, false, not, ◌&&◌, some, [], ◌∷◌, if◌then◌else◌,
  arith, take, Option, none, ◌<◌, ap, sym, ◌∙◌, zero, length, refl,
}
use mathlib.Core.Path.{subst}
use patience.Backoff.HttpAware.{find_matching_brace, Text, brace_loop}

-- Where a reader of the text stands: how many braces are open, and whether it is in a string, behind
-- a backslash.
pub record Scan : Type 0 where
  pub depth : ℕ
  pub in_string : Bool
  pub escaped : Bool

abbrev pub step : ℕ → Scan → Scan
step c st =
    if st.escaped
    then record st { escaped = false }
    else if st.in_string
    then (if c == 92
        then record st { escaped = true }
        else if c == 34
        then record st { in_string = false }
        else st)
    else if c == 34
    then record st { in_string = true }
    else if c == 123
    then record st { depth = st.depth + 1 }
    else if c == 125
    then record st { depth = st.depth - 1 }
    else st

unfoldable pub scan : Text → Scan → Scan
scan [] st = st
scan (c ∷ cs) st = scan cs (step c st)

abbrev closes : ℕ → Scan → Bool
closes c st = not st.escaped && not st.in_string && c == 125 && st.depth == 1

brace_loop-step :
    (i depth c : ℕ) (in_string escaped : Bool) (cs : Text)
    → let st : Scan = record { depth = depth; in_string = in_string; escaped = escaped } in
      brace_loop i depth in_string escaped (c ∷ cs) ≡ (
        if closes c st
        then some i
        else brace_loop (suc i) (step c st).depth (step c st).in_string (step c st).escaped cs)
unfolding brace_loop
brace_loop-step i depth c in_string escaped cs = ground arith

closes_lem : (c : ℕ) (st : Scan) → closes c st ≡ true → (step c st).depth ≡ 0
closes_lem c st h = ground (arith, h)

stays_open : (c : ℕ) (st : Scan) → closes c st ≡ false → 1 ≤ st.depth → 1 ≤ (step c st).depth
stays_open c st h d = ground (arith, h, d)

abbrev pub depth_at : ℕ → Text → Scan → ℕ
depth_at j s st = (scan (take j s) st).depth

-- The closing brace at index k of a text that starts at index i.
pub record IsClosing (i : ℕ) (st : Scan) (s : Text) (k : ℕ) : Type 0 where
  pub inside : (i ≤ k) × (k < i + length s)
  pub balanced : depth_at (suc (k - i)) s st ≡ 0
  pub first : (j : ℕ) → j ≤ k - i → 1 ≤ depth_at j s st

-- The first closing brace, or no place where the braces are balanced.
abbrev pub Closing : ℕ → Scan → Text → Option ℕ → Type 0
Closing i st s none = (j : ℕ) → 1 ≤ depth_at j s st
Closing i st s (some k) = IsClosing i st s k

Closing-nil : (i : ℕ) (st : Scan) → 1 ≤ st.depth → Closing i st [] none
unfolding scan
Closing-nil i st h zero = h
Closing-nil i st h (suc j) = h

Closing-here :
    (i c : ℕ) (st : Scan) (cs : Text)
    → closes c st ≡ true
    → 1 ≤ st.depth
    → Closing i st (c ∷ cs) (some i)
unfolding scan
Closing-here i c st cs e h =
    let none_left : 0 ≡ i - i = omega arith in
    record {
      inside = omega arith;
      balanced = ap (λ n. depth_at n cs (step c st)) (sym none_left) ∙ closes_lem c st e;
      first = λ j le.
          let start : j ≡ 0 = omega (arith, le) in
          subst (λ n. 1 ≤ depth_at n (c ∷ cs) st) (sym start) h;
    }

IsClosing-first :
    (i c k : ℕ) (st : Scan) (cs : Text)
    → 1 ≤ st.depth
    → IsClosing (suc i) (step c st) cs k
    → (j : ℕ) → j ≤ k - i
    → 1 ≤ depth_at j (c ∷ cs) st
unfolding scan
IsClosing-first i c k st cs h later zero le = h
IsClosing-first i c k st cs h later (suc j) le = later.first j (omega (arith, le, later.inside))

never_closed :
    (c : ℕ) (st : Scan) (cs : Text)
    → 1 ≤ st.depth
    → ((j : ℕ) → 1 ≤ depth_at j cs (step c st))
    → (j : ℕ) → 1 ≤ depth_at j (c ∷ cs) st
unfolding scan
never_closed c st cs h later zero = h
never_closed c st cs h later (suc j) = later j

Closing-later :
    (i c : ℕ) (st : Scan) (cs : Text) (found : Option ℕ)
    → 1 ≤ st.depth
    → Closing (suc i) (step c st) cs found
    → Closing i st (c ∷ cs) found
unfolding scan
Closing-later i c st cs none h later = never_closed c st cs h later
Closing-later i c st cs (some k) h later =
    let next : suc (k - suc i) ≡ k - i = omega (arith, later.inside) in
    record {
      inside = omega (arith, later.inside);
      balanced = ap (λ n. depth_at n cs (step c st)) (sym next) ∙ later.balanced;
      first = IsClosing-first i c k st cs h later;
    }

Closing-either :
    (i c : ℕ) (st : Scan) (cs : Text) (found : Option ℕ) (b : Bool)
    → closes c st ≡ b
    → 1 ≤ st.depth
    → (b ≡ false → Closing (suc i) (step c st) cs found)
    → Closing i st (c ∷ cs) (if b then some i else found)
Closing-either i c st cs found true e h later = Closing-here i c st cs e h
Closing-either i c st cs found false e h later = Closing-later i c st cs found h (later refl)

brace_loop-Closing :
    (i : ℕ) (st : Scan) (s : Text)
    → 1 ≤ st.depth
    → Closing i st s (brace_loop i st.depth st.in_string st.escaped s)
unfolding brace_loop
brace_loop-Closing i st [] h = Closing-nil i st h
brace_loop-Closing i st (c ∷ cs) h =
    subst (Closing i st (c ∷ cs)) (sym (brace_loop-step i st.depth c st.in_string st.escaped cs)) (
      Closing-either i c st cs _ (closes c st) refl h
        (λ e. brace_loop-Closing (suc i) (step c st) cs (stays_open c st e h)))

abbrev pub opened : Scan
opened = record { depth = 1; in_string = false; escaped = false }

-- For a text with an opening brace in front, the search finds the first place at which as many
-- braces outside string literals are closed as were opened; if it finds none, there is no such place.
pub find_matching_brace-Closing : (s : Text) → Closing 1 opened s (find_matching_brace (123 ∷ s))
unfolding find_matching_brace
find_matching_brace-Closing s =
    subst (Closing 1 opened s) (sym (brace_loop-step 0 0 123 false false s))
      (brace_loop-Closing 1 opened s (omega arith))
