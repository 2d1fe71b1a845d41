-- ===== src/Common/Whole.antt =====
-- A `Double` whose numbers are whole, on which the examples evaluate. Its product and quotient are not
-- those of numbers: no example depends on them.
use mathlib.Core.Bool.{true, ◌&&◌}
use trading_infrastructure_c.Common.Int.{ℤ, pos, pos_part, ◌+ℤ◌, ◌-ℤ◌, ltb_ℤ, leb_ℤ, abs_ℤ}
use trading_infrastructure_c.Common.Double.{Double}
use trading_infrastructure_c.Common.Float.{Float}

abbrev pub whole : Double
whole = record {
  Carrier = ℤ;
  zero = pos 0;
  basis_points = pos 10_000;
  le = leb_ℤ;
  lt = ltb_ℤ;
  equal = λ a b. leb_ℤ a b && leb_ℤ b a;
  add = λ a b. a +ℤ b;
  sub = λ a b. a -ℤ b;
  mul = λ a b. a;
  div = λ a b. a;
  abs = abs_ℤ;
  neg = λ a. pos 0 -ℤ a;
}

-- Whole numbers with the conversions, for a tick of 1: a product is its first factor.
abbrev pub whole_float : Float
whole_float = record {
  double = whole;
  literal = λ n k. pos n;
  of_ℕ = pos;
  llround = λ a. a;
  floor_ℕ = pos_part;
  is_finite = λ a. true;
}
