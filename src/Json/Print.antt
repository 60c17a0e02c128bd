-- ===== src/Json/Print.antt =====
-- J::write and J::writeStr: each is what it appends to `out`.
use samryetha_tunnel.Base.{
  ℕ, ◌+◌, ◌-◌, ◌/◌, ◌%◌, Bool, true, false, [], ◌∷◌, ◌++◌, ◌==◌, ltb, if◌then◌else◌,
}
use samryetha_tunnel.Base.Int.{show_ℤ}
use samryetha_tunnel.Base.Text.{Bytes, codes}
use samryetha_tunnel.Json.Number.{Doubles}
use samryetha_tunnel.Json.Value.{
  J, Items, Fields, nul, boolean, number, string, array, object, nil, item, end, member,
}

-- A digit of `%04x`.
unfoldable pub hex_digit : ℕ → ℕ
hex_digit n = if ltb n 10 then b'0' + n else b'a' + (n - 10)

-- One character of a string; a control character below 0x20 is `\u00XY`.
unfoldable pub escape : ℕ → Bytes
unfolding hex_digit
escape c =
    if c == b'"'
    then b'\\' ∷ b'"' ∷ []
    else if c == b'\\'
    then b'\\' ∷ b'\\' ∷ []
    else if c == 10
    then b'\\' ∷ b'n' ∷ []
    else if c == 13
    then b'\\' ∷ b'r' ∷ []
    else if c == 9
    then b'\\' ∷ b't' ∷ []
    else if ltb c 0x20
    then b'\\' ∷ b'u' ∷ b'0' ∷ b'0' ∷ hex_digit (c / 16) ∷ hex_digit (c % 16) ∷ []
    else c ∷ []

unfoldable pub escape_all : Bytes → Bytes
unfolding escape
escape_all [] = []
escape_all (c ∷ cs) = escape c ++ escape_all cs

unfoldable pub write_str : Bytes → Bytes
unfolding escape_all
write_str s = b'"' ∷ (escape_all s ++ b'"' ∷ [])

module _ (n : Doubles) where
  open n use {Double, to_int, is_whole, print}

  unfoldable pub write_number : Double → Bytes
  unfolding show_ℤ
  write_number x = if is_whole x then show_ℤ (to_int x) else print x

  unfoldable mutual
    pub write : J Double → Bytes
    write nul = codes "null"
    write (boolean true) = codes "true"
    write (boolean false) = codes "false"
    write (number x) = write_number x
    write (string s) = write_str s
    write (array l) = b'[' ∷ write_items true l
    write (object m) = b'{' ∷ write_fields true m

    -- A comma stands before all but the first.
    pub write_items : Bool → Items Double → Bytes
    write_items first nil = b']' ∷ []
    write_items true (item j l) = write j ++ write_items false l
    write_items false (item j l) = b',' ∷ (write j ++ write_items false l)

    pub write_fields : Bool → Fields Double → Bytes
    write_fields first end = b'}' ∷ []
    write_fields true (member k v m) = write_str k ++ (b':' ∷ (write v ++ write_fields false m))
    write_fields false (member k v m) =
        b',' ∷ (write_str k ++ (b':' ∷ (write v ++ write_fields false m)))

  unfoldable pub dump : J Double → Bytes
  unfolding write write_number
  dump j = write j
