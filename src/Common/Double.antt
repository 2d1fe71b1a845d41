-- ===== src/Common/Double.antt =====
-- The `double` of the source: a type with its operations. Nothing is assumed of them, so what is
-- proved over `Double` holds for IEEE arithmetic with its rounding and its NaNs.
use mathlib.Core.Bool.{Bool}

pub record Double : Type 1 where
  pub Carrier : Type 0
  pub zero : Carrier
  pub basis_points : Carrier  -- the literal 10000.0
  pub le : Carrier → Carrier → Bool
  pub lt : Carrier → Carrier → Bool
  pub equal : Carrier → Carrier → Bool
  pub add : Carrier → Carrier → Carrier
  pub sub : Carrier → Carrier → Carrier
  pub mul : Carrier → Carrier → Carrier
  pub div : Carrier → Carrier → Carrier
  pub abs : Carrier → Carrier
  pub neg : Carrier → Carrier
