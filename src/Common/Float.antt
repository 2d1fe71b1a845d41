-- ===== src/Common/Float.antt =====
-- `Double` with the conversions and the literals of the source. `literal n k` is the number that is
-- written n / 10^k, `llround` is std::llround into an int64, `floor_ℕ` is std::floor into a size_t.
use Prim.Native.Nat.{ℕ}
use mathlib.Core.Bool.{Bool}
use trading_infrastructure_c.Common.Tests.{if◌then◌else◌}
use trading_infrastructure_c.Common.Int.{ℤ}
use trading_infrastructure_c.Common.Double.{Double}

pub record Float : Type 1 where
  pub double : Double
  pub literal : ℕ → ℕ → double.Carrier
  pub of_ℕ : ℕ → double.Carrier
  pub llround : double.Carrier → ℤ
  pub floor_ℕ : double.Carrier → ℕ
  pub is_finite : double.Carrier → Bool

-- std::max and std::min.
module _ (F : Float) where
  abbrev pub max_of : F.double.Carrier → F.double.Carrier → F.double.Carrier
  max_of a b = if F.double.lt a b then b else a

  abbrev pub min_of : F.double.Carrier → F.double.Carrier → F.double.Carrier
  min_of a b = if F.double.lt b a then b else a
