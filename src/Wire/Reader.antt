-- ===== src/Wire/Reader.antt =====
-- struct R: a position `i` in the frame `d`. The state of a reader is `i`; a size_t has 64 bits.
use Prim.Native.Nat.{bit_and}
use samryetha_tunnel.Base.{
  ℕ, zero, suc, ◌+◌, ◌*◌, ◌%◌, ◌^◌, none, some, [], length, get_elem?, take, drop, ltb, ◌==◌,
  if◌then◌else◌,
}
use samryetha_tunnel.Base.Dict.{Dict, insert}
use samryetha_tunnel.Base.Text.{Bytes}
use samryetha_tunnel.Base.Order.{bytes_order}
use samryetha_tunnel.Wire.Result.{
  Result, ok, err, truncated, varint_overflow, out_of_range, out_of_bounds, stuck,
}

abbrev pub Read : Type 0 → Type 0
Read A = ℕ → Result (A × ℕ)

infixl 5 ◌>>=◌ ◌>>◌
abbrev pub ◌>>=◌ : {A B : Type 0} → Read A → (A → Read B) → Read B
◌>>=◌ m f i = elim (m i) [ err e ↦ err e | ok (a, j) ↦ f a j ]

abbrev pub ◌>>◌ : {B : Type 0} → Read (Unit {0}) → Read B → Read B
m >> k = m >>= λ _. k

abbrev pub pure : {A : Type 0} → A → Read A
pure a i = ok (a, i)

module _ (d : Bytes) where
  -- `if (i + n > d.size()) throw`: the sum wraps.
  unfoldable pub need : ℕ → Read (Unit {0})
  need n i = if ltb (length d) ((i + n) % 2 ^ 64) then err truncated else ok (tt, i)

  -- `d[i++]`
  unfoldable pub next : Read ℕ
  next i = elim (get_elem? d i) [ none ↦ err out_of_bounds | some b ↦ ok (b, i + 1) ]

  unfoldable pub u8 : Read ℕ
  u8 = need 1 >> next

  unfoldable pub u16 : Read ℕ
  u16 = do need 2; lo ← next; hi ← next; pure (lo + hi * 2 ^ 8)

  -- One round of `for (;;)`; `more` is the rounds that follow. The bits of `v` stand below `shift`,
  -- so `|=` adds.
  unfoldable pub varint_round : (ℕ → ℕ → Read ℕ) → ℕ → ℕ → Read ℕ
  varint_round more v shift = do
    b ← u8
    let v' = v + bit_and b 0x7f * 2 ^ shift % 2 ^ 64
    if bit_and b 0x80 == 0
        then pure v'
        else if ltb 63 (shift + 7)
        then (λ i. err varint_overflow)
        else more v' (shift + 7)

  -- `shift` reaches 70 in the tenth round.
  unfoldable pub varint_loop : ℕ → ℕ → ℕ → Read ℕ
  varint_loop zero v shift i = err stuck
  varint_loop (suc rounds) v shift i = varint_round (varint_loop rounds) v shift i

  unfoldable pub varint : Read ℕ
  varint = varint_loop 10 0 0

  -- `d.substr(i, n)` and `i += n`
  unfoldable pub substr : ℕ → Read Bytes
  substr n i =
      if ltb (length d) i then err out_of_range else ok (take n (drop i d), (i + n) % 2 ^ 64)

  unfoldable pub str : Read Bytes
  str = do n ← varint; need n; substr n

  unfoldable pub bytes : Read Bytes
  bytes = str

  unfoldable pub headers_loop : ℕ → Dict Bytes Bytes → Read (Dict Bytes Bytes)
  headers_loop zero h = pure h
  headers_loop (suc n) h = do key ← str; v ← str; headers_loop n (insert key v h)

  unfoldable pub headers : Read (Dict Bytes Bytes)
  headers = do n ← u16; headers_loop n []
