-- ===== src/Wire/Writer.antt =====
-- struct W. Each operation is what it appends to `b`.
use Prim.Native.Nat.{bit_and, bit_or}
use mathlib.Core.Logic.{dite}
use mathlib.Core.WellFounded.{Acc}
use native.Mathlib.Decide.{dec_lt}
use samryetha_tunnel.Base.{ℕ, ◌/◌, ◌%◌, ◌^◌, ◌<◌, [], ◌∷◌, ◌++◌, length, arith, lt_wf}
use samryetha_tunnel.Base.Dict.{Dict}
use samryetha_tunnel.Base.Text.{Bytes}

unfoldable pub u8 : ℕ → Bytes
u8 v = v % 2 ^ 8 ∷ []

unfoldable pub u16 : ℕ → Bytes
u16 v = v % 2 ^ 8 ∷ (v / 2 ^ 8 % 2 ^ 8) ∷ []

pub shift_shrinks : (v : ℕ) → 127 < v → v / 2 ^ 7 < v
shift_shrinks v h = omega arith

-- `while (v >= 0x80)`
unfoldable pub varint_loop : (v : ℕ) → Acc ◌<◌ v → Bytes
unfolding dec_lt
varint_loop v (Acc.intro _ smaller) =
    dite (dec_lt 127 v)
      (λ more.
        bit_or (bit_and (v % 2 ^ 8) 0x7f) 0x80
        ∷ varint_loop (v / 2 ^ 7) (smaller _ (shift_shrinks v more)))
      (λ _. v ∷ [])

unfoldable pub varint : ℕ → Bytes
unfolding varint_loop lt_wf
varint v = varint_loop v (lt_wf.apply v)

unfoldable pub str : Bytes → Bytes
str s = varint (length s) ++ s

unfoldable pub bytes : Bytes → Bytes
bytes s = varint (length s) ++ s

unfoldable pub header_list : Dict Bytes Bytes → Bytes
header_list [] = []
header_list ((k, v) ∷ h) = str k ++ (str v ++ header_list h)

-- The count is a uint16_t.
unfoldable pub headers : Dict Bytes Bytes → Bytes
unfolding header_list
headers h = u16 (length h % 2 ^ 16) ++ header_list h
