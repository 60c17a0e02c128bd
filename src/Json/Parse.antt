-- ===== src/Json/Parse.antt =====
-- J::parse and its helpers. The position `i` is the text from `i` on: the code compares `i` with the
-- size before each read, so `i` one past the end is the empty text. The message in `err` is left out:
-- no caller reads it.
pub mod Total
pub mod Strings
pub mod Faithful
pub mod Steps
pub mod RoundTrip
use Prim.Native.Nat.{bit_and, bit_or}
use samryetha_tunnel.Base.{
  ℕ, zero, suc, ◌+◌, ◌-◌, ◌*◌, ◌/◌, ◌%◌, ◌^◌, Bool, true, false, ◌||◌, Option, none, some, [], ◌∷◌,
  ◌++◌, ◌==◌, ltb, leb, if◌then◌else◌, length, drop, take,
}
use samryetha_tunnel.Base.Int.{is_digit, pos}
use samryetha_tunnel.Base.Text.{Bytes, codes, starts_with, lower}
use samryetha_tunnel.Json.Number.{Doubles}
use samryetha_tunnel.Json.Value.{
  J, Items, Fields, nul, boolean, number, string, array, object, nil, end, put, push_back,
}

unfoldable pub is_ws : ℕ → Bool
is_ws c = c == b' ' || (c == 9 || (c == 10 || c == 13))

unfoldable pub skip_ws : Bytes → Bytes
skip_ws [] = []
skip_ws (c ∷ cs) = let rest = skip_ws cs in if is_ws c then rest else c ∷ cs

-- A hex digit as the code reads it, modulo 2 ^ 32: any other character gives some number.
unfoldable pub hex_value : ℕ → ℕ
hex_value h =
    if is_digit h
    then h - b'0'
    else if ltb h 128
    then (lower h + 2 ^ 32 - b'a' + 10) % 2 ^ 32
    else (h + 2 ^ 32 - 256 + 2 ^ 32 - b'a' + 10) % 2 ^ 32

pub hex_number : ℕ → Bytes → ℕ
unfolding hex_value
hex_number acc [] = acc
hex_number acc (h ∷ hs) = hex_number ((acc * 16 + hex_value h) % 2 ^ 32) hs

-- The bytes of `\uXYZW`: one to three, as UTF-8; surrogates are not paired.
unfoldable pub utf8 : ℕ → Bytes
utf8 c =
    if ltb c 0x80
    then c ∷ []
    else if ltb c 0x800
    then bit_or 0xC0 (c / 2 ^ 6) % 256 ∷ bit_or 0x80 (bit_and c 0x3F) % 256 ∷ []
    else bit_or 0xE0 (c / 2 ^ 12) % 256
      ∷ bit_or 0x80 (bit_and (c / 2 ^ 6) 0x3F) % 256
      ∷ bit_or 0x80 (bit_and c 0x3F) % 256
      ∷ []

-- What a backslash and `e` add, with `after` behind them, and how many characters follow it that are
-- used up: `e`, and the four digits after `u`.
unfoldable pub unescape : ℕ → Bytes → Bytes × ℕ
unfolding hex_number utf8
unescape e after =
    if e == b'n'
    then (10 ∷ [], 1)
    else if e == b'r'
    then (13 ∷ [], 1)
    else if e == b't'
    then (9 ∷ [], 1)
    else if e == b'b'
    then (8 ∷ [], 1)
    else if e == b'f'
    then (12 ∷ [], 1)
    else if e == b'u'
    then (if leb 4 (length after) then (utf8 (hex_number 0 (take 4 after)), 5) else ([], 1))
    else (e ∷ [], 1)

-- One character `c` of a string, with `rest` behind it.
unfoldable pub one_char : ℕ → Bytes → Bytes × ℕ
one_char c [] = (c ∷ [], 0)
one_char c (e ∷ after) = if c == b'\\' then unescape e after else (c ∷ [], 0)

-- The loop of `parseStr` behind the opening quote; `skip` characters are used up already. It gives the
-- string and the text behind the closing quote.
unfoldable pub parse_chars : ℕ → Bytes → Bytes × Bytes
parse_chars skip [] = ([], [])
parse_chars (suc skip) (c ∷ cs) = parse_chars skip cs
parse_chars zero (c ∷ cs) =
    let (s, skip) = one_char c cs in
    let rest = parse_chars skip cs in if c == b'"' then ([], cs) else (s ++ rest.0, rest.1)

unfoldable pub is_number_char : ℕ → Bool
is_number_char c =
    is_digit c || (c == b'-' || (c == b'+' || (c == b'.' || (c == b'e' || c == b'E'))))

unfoldable pub span_number : Bytes → Bytes × Bytes
span_number [] = ([], [])
span_number (c ∷ cs) =
    let rest = span_number cs in if is_number_char c then (c ∷ rest.0, rest.1) else ([], c ∷ cs)

module _ (n : Doubles) where
  open n use {Double, of_int, stod}

  -- A parser's value and the text behind it. `none`: out of fuel.
  abbrev pub Parsed : Type 0
  Parsed = Option (J Double × Bytes)

  -- How a list of members goes on behind a value: a comma, the end, or anything else, which ends it too.
  unfoldable pub after_member : (Fields Double → Bytes → Parsed) → Fields Double → Bytes → Parsed
  after_member more m [] = some (object m, [])
  after_member more m (c ∷ r) =
      if c == b','
      then more m r
      else if c == b'}'
      then some (object m, r)
      else some (object m, c ∷ r)

  unfoldable pub skip_colon : Bytes → Bytes
  skip_colon [] = []
  skip_colon (c ∷ r) = if c == b':' then r else c ∷ r

  unfoldable pub member_value :
      (Bytes → Parsed) → (Fields Double → Bytes → Parsed) → Fields Double → Bytes × Bytes → Parsed
  member_value value more m (key, r) = elim (value (skip_colon (skip_ws r))) [
    | none ↦ none
    | some (v, r') ↦ after_member more (put key v m) (skip_ws r')
  ]

  -- One round of the loop of `parseObj`, at a key.
  unfoldable pub member_round :
      (Bytes → Parsed) → (Fields Double → Bytes → Parsed) → Fields Double → Bytes → Parsed
  member_round value more m [] = some (object m, [])
  member_round value more m (c ∷ r) =
      if c == b'"' then member_value value more m (parse_chars 0 r) else some (object m, c ∷ r)

  unfoldable pub after_item : (Items Double → Bytes → Parsed) → Items Double → Bytes → Parsed
  after_item more l [] = some (array l, [])
  after_item more l (c ∷ r) =
      if c == b',' then more l r else if c == b']' then some (array l, r) else some (array l, c ∷ r)

  -- One round of the loop of `parseArr`.
  unfoldable pub item_round :
      (Bytes → Parsed) → (Items Double → Bytes → Parsed) → Items Double → Bytes → Parsed
  item_round value more l [] = some (array l, [])
  item_round value more l (c ∷ r) = elim (value (c ∷ r)) [
    | none ↦ none
    | some (v, r') ↦ after_item more (push_back v l) (skip_ws r')
  ]

  -- `parseObj` and `parseArr` behind the bracket and the white space.
  unfoldable pub parse_obj : (Fields Double → Bytes → Parsed) → Bytes → Parsed
  parse_obj members [] = members end []
  parse_obj members (c ∷ r) = if c == b'}' then some (object end, r) else members end (c ∷ r)

  unfoldable pub parse_arr : (Items Double → Bytes → Parsed) → Bytes → Parsed
  parse_arr items [] = items nil []
  parse_arr items (c ∷ r) = if c == b']' then some (array nil, r) else items nil (c ∷ r)

  -- `stod` throws where there is no number, and 0 stands for it.
  to_double : Option Double → Double
  to_double none = of_int (pos 0)
  to_double (some x) = x

  unfoldable pub parse_number : Bytes → J Double × Bytes
  unfolding to_double
  parse_number s = let (digits, r) = span_number s in (number (to_double (stod digits)), r)

  unfoldable pub parse_string : Bytes × Bytes → J Double × Bytes
  parse_string (s, r) = (string s, r)

  -- `parseValue` behind the white space.
  unfoldable pub value_round :
      (Fields Double → Bytes → Parsed) → (Items Double → Bytes → Parsed) → Bytes → Parsed
  value_round members items [] = some (nul, [])
  value_round members items (c ∷ r) =
      if c == b'{'
      then parse_obj members (skip_ws r)
      else if c == b'['
      then parse_arr items (skip_ws r)
      else if c == b'"'
      then some (parse_string (parse_chars 0 r))
      else if starts_with (codes "true") (c ∷ r)
      then some (boolean true, drop 4 (c ∷ r))
      else if starts_with (codes "false") (c ∷ r)
      then some (boolean false, drop 5 (c ∷ r))
      else if starts_with (codes "null") (c ∷ r)
      then some (nul, drop 4 (c ∷ r))
      else some (parse_number (c ∷ r))

  unfoldable mutual
    pub parse_value : ℕ → Bytes → Parsed
    parse_value zero s = none
    parse_value (suc fuel) s = value_round (parse_members fuel) (parse_items fuel) (skip_ws s)

    pub parse_members : ℕ → Fields Double → Bytes → Parsed
    parse_members zero m s = none
    parse_members (suc fuel) m s =
        member_round (parse_value fuel) (parse_members fuel) m (skip_ws s)

    pub parse_items : ℕ → Items Double → Bytes → Parsed
    parse_items zero l s = none
    parse_items (suc fuel) l s = item_round (parse_value fuel) (parse_items fuel) l s

  or_null : Parsed → J Double
  or_null none = nul
  or_null (some (v, r)) = v

  -- An array takes two calls for its bracket, one for itself and one for its first item.
  unfoldable pub parse : Bytes → J Double
  unfolding or_null parse_value
  parse s = or_null (parse_value (suc (length s * 2)) s)
