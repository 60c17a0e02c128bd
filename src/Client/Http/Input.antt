-- ===== src/Client/Http/Input.antt =====
-- What a local service sends, and `Socket::readSome` on it.
use samryetha_tunnel.Base.{
  ℕ, zero, suc, ◌+◌, Bool, true, false, leb, if◌then◌else◌, Option, none, some, List, [], ◌∷◌, ◌++◌,
  take, drop, length,
}
use samryetha_tunnel.Base.Text.{Bytes, bytes_eq}

-- What arrives, piece by piece. An empty piece is a read that fails; past the last piece all reads do.
abbrev pub Input : Type 0
Input = List Bytes

-- The bytes of one call, none where it returns 0 or less, and what comes after them.
unfoldable pub read_some : ℕ → Input → Bytes × Input
read_some n [] = ([], [])
read_some n (c ∷ cs) = if leb (length c) n then (c, cs) else (take n c, drop n c ∷ cs)

-- How many calls the input can serve.
unfoldable pub calls : Input → ℕ
calls [] = 0
calls (c ∷ cs) = suc (length c + calls cs)

abbrev pub blank_line : Bytes
blank_line = 13 ∷ 10 ∷ 13 ∷ 10 ∷ []

-- `s.size() >= n && s.compare(s.size() - n, n, p) == 0`, for a `p` of `n` bytes.
unfoldable pub ends_with : Bytes → Bytes → Bool
ends_with p [] = bytes_eq [] p
ends_with p (x ∷ s) = let later = ends_with p s in if bytes_eq (x ∷ s) p then true else later

-- `readHttpHead`, with the room left: 65536 bytes at first.
unfoldable pub read_head : ℕ → Bytes → Input → Option Bytes × Input
unfolding read_some ends_with
read_head zero head s = (none, s)
read_head (suc room) head s = elim (read_some 1 s).0 [
  | [] ↦ (none, (read_some 1 s).1)
  | c ∷ cs ↦ elim (ends_with blank_line (head ++ c ∷ [])) [
    | true ↦ (some (head ++ c ∷ []), (read_some 1 s).1)
    | false ↦ read_head room (head ++ c ∷ []) (read_some 1 s).1
  ]
]
