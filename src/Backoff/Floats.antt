-- ===== src/Backoff/Floats.antt =====
-- float64 arithmetic and `math/rand`, as far as pkg/backoff uses them: an argument of the
-- definitions that compute with floats.
use patience.Base.{ℤ, pos, ◌≤ℤ◌, ◌^◌, Bool}

pub record Floats : Type 1 where
  pub Float : Type 0
  -- float64(n) and the truncating conversion to an int64
  pub of_int : ℤ → Float
  pub to_int : Float → ℤ
  pub add : Float → Float → Float
  pub sub : Float → Float → Float
  pub div : Float → Float → Float
  pub mul : Float → Float → Float
  pub pow : Float → Float → Float
  pub less : Float → Float → Bool
  pub le : Float → Float → Bool
  pub eq : Float → Float → Bool

-- What the documentation of `rand.Float64` says of a draw: it lies in [0, 1). So the part that it
-- takes of an integer below 2^53, which a float64 holds exactly, lies between 0 and that integer.
pub record IsDraw (fl : Floats) (draw : fl.Float) : Type 0 where
  pub part :
      (n : ℤ)
      → pos 0 ≤ℤ n
      → n ≤ℤ pos (2 ^ 53)
      → (pos 0 ≤ℤ fl.to_int (fl.mul draw (fl.of_int n)))
        × (fl.to_int (fl.mul draw (fl.of_int n)) ≤ℤ n)
