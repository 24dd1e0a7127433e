-- ===== src/Examples/Thousandths.antt =====
-- Float arithmetic that can be evaluated, for the examples.
use patience.Base.{ℕ, ◌+◌, ◌-◌, ◌*◌, ◌/◌, ◌^◌, pos, pos_part, ltb, leb, ◌==◌}
use patience.Backoff.Floats.{Floats}

-- Floats as whole thousandths.
abbrev pub thousandths : Floats
thousandths = record {
  Float = ℕ;
  of_int = λ n. pos_part n * 1000;
  to_int = λ x. pos (x / 1000);
  add = λ x y. x + y;
  sub = λ x y. x - y;
  mul = λ x y. x * y / 1000;
  div = λ x y. x * 1000 / y;
  pow = λ x y. 1000 * (x / 1000) ^ (y / 1000);
  less = ltb;
  le = leb;
  eq = λ x y. x == y;
}
