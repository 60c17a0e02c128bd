-- ===== src/Wire/Result.antt =====
-- How a reader ends.

-- `truncated` and `varint_overflow` are thrown by R. `out_of_range` is what `substr` throws,
-- `out_of_bounds` a read of `d[i]` past the end, and `stuck` a loop that outran its count: the
-- theorems exclude them.
pub data Fault : Type 0 where
  truncated varint_overflow out_of_range out_of_bounds stuck : Fault

pub data Result {ℓ} (A : Type ℓ) : Type ℓ where
  ok : A → Result A
  err : Fault → Result A
