-- ===== src/Json/Number.antt =====
-- What the code uses of `double`, of which no definition is in the repository.
use samryetha_tunnel.Base.{ℕ, Bool, Option}
use samryetha_tunnel.Base.Int.{ℤ}
use samryetha_tunnel.Base.Text.{Bytes}

pub record Doubles : Type 1 where
  pub Double : Type 0
  -- `(double)n` of an int or a uint64_t
  pub of_int : ℤ → Double
  -- `(uint64_t)x`, `(int)x` and `(long long)x`
  pub to_uint : Double → ℕ
  pub to_int : Double → ℤ
  -- `x == (long long)x`
  pub is_whole : Double → Bool
  -- `os << x`
  pub print : Double → Bytes
  -- `std::stod`, `none` where it throws
  pub stod : Bytes → Option Double
