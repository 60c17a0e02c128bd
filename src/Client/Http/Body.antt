-- ===== src/Client/Http/Body.antt =====
-- The three ways in which `runHttpOnce` reads a body. A list holds what each `sendChunk` is given.
use samryetha_tunnel.Base.{
  ℕ, zero, suc, ◌+◌, ◌-◌, ◌*◌, ◌^◌, ◌==◌, min, Bool, true, false, ◌||◌, leb, if◌then◌else◌, Option,
  none, some, List, [], ◌∷◌, ◌++◌, length,
}
use samryetha_tunnel.Base.Text.{Bytes, bytes_eq}
use samryetha_tunnel.Client.Http.Input.{Input, read_some, calls, blank_line, ends_with}
use samryetha_tunnel.Client.Http.Head.{crlf, skip_spaces}

-- `sizeof(buf)`
abbrev pub buffer_size : ℕ
buffer_size = 16384

-- What was sent on, whether all of it came, and what is left of the input.
pub record Part : Type 0 where
  pub sent : List Bytes
  pub complete : Bool
  pub rest : Input

-- Up to `left` bytes: the loop for Content-Length, and that for one chunk. Fuel above `left` is enough,
-- since every round takes a byte.
unfoldable pub read_length : ℕ → ℕ → Input → Part
unfolding read_some
read_length zero left s = record { sent = []; complete = false; rest = s }
read_length (suc fuel) zero s = record { sent = []; complete = true; rest = s }
read_length (suc fuel) (suc left) s = elim (read_some (min buffer_size (suc left)) s).0 [
  | [] ↦ record { sent = []; complete = false; rest = (read_some (min buffer_size (suc left)) s).1 }
  | c ∷ cs ↦
      let more =
        read_length fuel (suc left - length (c ∷ cs))
          (read_some (min buffer_size (suc left)) s).1 in
      record { sent = (c ∷ cs) ∷ more.sent; complete = more.complete; rest = more.rest }
]

-- Until the service closes the connection.
unfoldable pub read_all : ℕ → Input → Part
unfolding read_some
read_all zero s = record { sent = []; complete = true; rest = s }
read_all (suc fuel) s = elim (read_some buffer_size s).0 [
  | [] ↦ record { sent = []; complete = true; rest = (read_some buffer_size s).1 }
  | c ∷ cs ↦
      let more = read_all fuel (read_some buffer_size s).1 in
      record { sent = (c ∷ cs) ∷ more.sent; complete = true; rest = more.rest }
]

-- The line with a chunk's size, without its CR and LF.
unfoldable pub size_line : ℕ → Bytes → Input → Bytes × Input
unfolding read_some
size_line zero acc s = (acc, s)
size_line (suc fuel) acc s = elim (read_some 1 s).0 [
  | [] ↦ (acc, (read_some 1 s).1)
  | c ∷ cs ↦ elim (c == 10) [
    | true ↦ (acc, (read_some 1 s).1)
    | false ↦ size_line fuel (if c == 13 then acc else acc ++ c ∷ []) (read_some 1 s).1
  ]
]

-- What comes behind the last chunk.
unfoldable pub skip_trailer : ℕ → Bytes → Input → Input
unfolding read_some ends_with
skip_trailer zero tail s = s
skip_trailer (suc fuel) tail s = elim (read_some 1 s).0 [
  | [] ↦ (read_some 1 s).1
  | c ∷ cs ↦ elim (ends_with blank_line (tail ++ c ∷ []) || bytes_eq (tail ++ c ∷ []) crlf) [
    | true ↦ (read_some 1 s).1
    | false ↦ skip_trailer fuel (tail ++ c ∷ []) (read_some 1 s).1
  ]
]

unfoldable pub hex_digit_of : ℕ → Option ℕ
hex_digit_of c =
    if leb b'0' c
    then if leb c b'9'
      then some (c - b'0')
      else if leb b'a' c
      then if leb c b'f' then some (c - b'a' + 10) else none
      else if leb b'A' c
      then if leb c b'F' then some (c - b'A' + 10) else none
      else none
    else none

unfoldable pub hex_digits : ℕ → Bytes → ℕ
unfolding hex_digit_of
hex_digits acc [] = acc
hex_digits acc (c ∷ cs) = elim (hex_digit_of c) [
  | none ↦ acc
  | some d ↦ hex_digits (acc * 16 + d) cs
]

-- `0x` counts as a prefix where a digit follows.
unfoldable pub after_prefix : Bytes → Bytes
unfolding hex_digit_of
after_prefix [] = []
after_prefix (z ∷ []) = z ∷ []
after_prefix (z ∷ x ∷ []) = z ∷ x ∷ []
after_prefix (z ∷ x ∷ d ∷ cs) =
    if z == b'0'
    then if x == b'x' || x == b'X'
      then elim (hex_digit_of d) [ none ↦ z ∷ x ∷ d ∷ cs | some v ↦ d ∷ cs ]
      else z ∷ x ∷ d ∷ cs
    else z ∷ x ∷ d ∷ cs

-- `std::strtol(s, nullptr, 16)` where it is positive, else 0; it stops at the largest long.
unfoldable pub chunk_size : Bytes → ℕ
unfolding hex_digits after_prefix skip_spaces
chunk_size s = elim (skip_spaces s) [
  | [] ↦ 0
  | c ∷ cs ↦
      if c == b'-'
      then 0
      else min (2 ^ 63 - 1) (hex_digits 0 (after_prefix (if c == b'+' then cs else c ∷ cs)))
]

-- The loop for chunks. Each round takes a byte of the input, or is the last.
unfoldable pub read_chunks : ℕ → Input → Part
unfolding size_line chunk_size read_length skip_trailer read_some
read_chunks zero s = record { sent = []; complete = true; rest = s }
read_chunks (suc fuel) s =
    let line = size_line (suc (calls s)) [] s in
    elim line.0 [
      | [] ↦ record { sent = []; complete = true; rest = line.1 }
      | c ∷ cs ↦ elim (chunk_size (c ∷ cs)) [
        | zero ↦ record {
          sent = [];
          complete = true;
          rest = skip_trailer (suc (calls line.1)) [] line.1;
        }
        | suc n ↦
            let piece = read_length (suc (suc n)) (suc n) line.1 in
            let more = read_chunks fuel (read_some 2 piece.rest).1 in
            record { sent = piece.sent ++ more.sent; complete = true; rest = more.rest }
      ]
    ]
