-- ===== src/Base64/Laws.antt =====
-- What base64 keeps.
use samryetha_tunnel.Base.{
  ℕ, ◌+◌, ◌-◌, ◌*◌, ◌/◌, ◌%◌, ◌^◌, ◌<◌, ◌≤◌, Bool, true, false, ◌&&◌, ◌||◌, ◌==◌, ltb, Bool-cases,
  Option, none, some, [], ◌∷◌, ◌≡◌, refl, arith, length, All, if◌then◌else◌, leb, Option-cases, inl,
  inr, ◌∙◌, sym,
}
use mathlib.Core.Path.{subst}
use samryetha_tunnel.Base.Bits.{agree_below, agree_below→eq}
use samryetha_tunnel.Base.Text.{Bytes, IsByte}
use samryetha_tunnel.Base64.{alphabet, tbl, b64encode, val, b64decode_loop, b64decode}

-- `val` as a number, with 64 for -1.
reads : Option ℕ → ℕ
reads none = 64
reads (some v) = v

reads-tbl : (n : ℕ) → n < 64 → reads (val (tbl n)) ≡ n
unfolding reads val tbl agree_below
reads-tbl = agree_below→eq _ _ 64 refl

-- Every entry of the table is read back as its index.
val-tbl : (n : ℕ) → val (tbl n) ≡ some (n % 64)
unfolding reads tbl
val-tbl n = ground (arith, reads-tbl (n % 64) (omega arith))

-- One character of the alphabet.
loop_step :
    (c v : ℕ) (cs : Bytes) (buf bits : ℕ)
    → val c ≡ some v
    → b64decode_loop (c ∷ cs) buf bits ≡ (
        let buf' = (buf * 2 ^ 6 + v) % 2 ^ 32 in
        let bits' = bits + 6 in
        let rest = b64decode_loop cs buf' (if leb 8 bits' then bits' - 8 else bits') in
        if leb 8 bits' then (buf' / 2 ^ (bits' - 8) % 256) ∷ rest else rest)
unfolding b64decode_loop
loop_step c v cs buf bits h = rw (h, b64decode_loop)

loop_skip :
    (c : ℕ) (cs : Bytes) (buf bits : ℕ)
    → val c ≡ none
    → b64decode_loop (c ∷ cs) buf bits ≡ b64decode_loop cs buf bits
unfolding b64decode_loop
loop_skip c cs buf bits h = rw (h, b64decode_loop)

abbrev shift_in : ℕ → ℕ → ℕ
shift_in buf v = (buf * 2 ^ 6 + v) % 2 ^ 32

-- Two, three and four characters after a multiple of four.
loop_two :
    (m n : ℕ) (r : Bytes) (buf : ℕ)
    → b64decode_loop (tbl m ∷ tbl n ∷ r) buf 0
      ≡ (shift_in (shift_in buf (m % 64)) (n % 64) / 2 ^ 4 % 256)
        ∷ b64decode_loop r (shift_in (shift_in buf (m % 64)) (n % 64)) 4
loop_two m n r buf =
    loop_step (tbl m) (m % 64) (tbl n ∷ r) buf 0 (val-tbl m)
    ∙ loop_step (tbl n) (n % 64) r (shift_in buf (m % 64)) 6 (val-tbl n)

loop_third :
    (n : ℕ) (r : Bytes) (buf : ℕ)
    → b64decode_loop (tbl n ∷ r) buf 4
      ≡ (shift_in buf (n % 64) / 2 ^ 2 % 256) ∷ b64decode_loop r (shift_in buf (n % 64)) 2
loop_third n r buf = loop_step (tbl n) (n % 64) r buf 4 (val-tbl n)

loop_fourth :
    (n : ℕ) (r : Bytes) (buf : ℕ)
    → b64decode_loop (tbl n ∷ r) buf 2
      ≡ (shift_in buf (n % 64) % 256) ∷ b64decode_loop r (shift_in buf (n % 64)) 0
loop_fourth n r buf = loop_step (tbl n) (n % 64) r buf 2 (val-tbl n) ∙ ground arith

loop_pad :
    (r : Bytes) (buf bits : ℕ) → b64decode_loop (b'=' ∷ r) buf bits ≡ b64decode_loop r buf bits
loop_pad r buf bits = loop_skip b'=' r buf bits (unfold val in refl)

loop-b64encode : (s : Bytes) (buf : ℕ) → All IsByte s → b64decode_loop (b64encode s) buf 0 ≡ s
unfolding b64encode
loop-b64encode [] buf h = unfold b64decode_loop in refl
loop-b64encode (a ∷ []) buf h =
    rw (loop_two, loop_pad, loop_pad) (unfold b64decode_loop in ground arith)
loop-b64encode (a ∷ b ∷ []) buf h =
    rw (loop_two, loop_third, loop_pad) (unfold b64decode_loop in ground arith)
loop-b64encode (a ∷ b ∷ c ∷ rest) buf h =
    rw (loop_two, loop_third, loop_fourth, loop-b64encode rest _ h.1.1.1) (ground arith)

-- Decoding what `b64encode` wrote of any bytes gives them back.
pub b64decode-b64encode : (s : Bytes) → All IsByte s → b64decode (b64encode s) ≡ s
unfolding b64decode
b64decode-b64encode s h = loop-b64encode s 0 h

-- `b64encode` writes four characters for each three bytes begun.
pub length-b64encode : (s : Bytes) → length (b64encode s) ≡ (length s + 2) / 3 * 4
unfolding b64encode
length-b64encode [] = refl
length-b64encode (a ∷ []) = refl
length-b64encode (a ∷ b ∷ []) = refl
length-b64encode (a ∷ b ∷ c ∷ rest) = omega (arith, length-b64encode rest)

-- Whether the character is one that the encoder writes for six bits.
unfoldable pub is_listed : ℕ → Bytes → Bool
is_listed c [] = false
is_listed c (x ∷ xs) = (c == x) || is_listed c xs

-- The characters of the alphabet, all others dropped.
unfoldable pub in_alphabet : Bytes → Bytes
unfolding is_listed
in_alphabet [] = []
in_alphabet (c ∷ cs) = if is_listed c alphabet then c ∷ in_alphabet cs else in_alphabet cs

are_below : ℕ → Bytes → Bool
are_below n [] = true
are_below n (x ∷ xs) = ltb x n && are_below n xs

not_listed : (c n : ℕ) (l : Bytes) → are_below n l ≡ true → n ≤ c → is_listed c l ≡ false
unfolding is_listed are_below
not_listed c n [] h le = refl
not_listed c n (x ∷ xs) h le = elim (Bool-cases (ltb x n)) [
  | inl e ↦ let rest = not_listed c n xs (ground (arith, h, e)) le in ground (arith, rest)
  | inr e ↦ ground arith
]

listed : ℕ → ℕ
unfolding is_listed
listed c = if is_listed c alphabet then 1 else 0

known : ℕ → ℕ
known c = elim (val c) [ none ↦ 0 | some v ↦ 1 ]

-- The decoder knows the characters of the alphabet and no others.
known-listed_low : (c : ℕ) → c < 60 → known c ≡ listed c
unfolding agree_below known listed val
known-listed_low = agree_below→eq known listed 60 refl

known-listed_middle : (k : ℕ) → k < 35 → known (60 + k) ≡ listed (60 + k)
unfolding agree_below known listed val
known-listed_middle = agree_below→eq (λ k. known (60 + k)) (λ k. listed (60 + k)) 35 refl

known-listed_high : (k : ℕ) → k < 28 → known (95 + k) ≡ listed (95 + k)
unfolding agree_below known listed val
known-listed_high = agree_below→eq (λ k. known (95 + k)) (λ k. listed (95 + k)) 28 refl

alphabet-below : are_below 123 alphabet ≡ true
unfolding are_below
alphabet-below = refl

known-listed_above : (c : ℕ) → 123 ≤ c → known c ≡ listed c
unfolding known listed val
known-listed_above c h = rw (not_listed c 123 alphabet alphabet-below h) (ground arith)

known-listed : (c : ℕ) → known c ≡ listed c
known-listed c = elim (Bool-cases (ltb c 60)) [
  | inl h ↦ known-listed_low c (ground arith)
  | inr h ↦ elim (Bool-cases (ltb c 95)) [
    | inl h' ↦
        subst (λ x. known x ≡ listed x) (ground arith) (known-listed_middle (c - 60) (ground arith))
    | inr h' ↦ elim (Bool-cases (ltb c 123)) [
      | inl g ↦
          subst (λ x. known x ≡ listed x) (ground arith) (known-listed_high (c - 95) (ground arith))
      | inr g ↦ known-listed_above c (ground arith)
    ]
  ]
]

loop-in_alphabet :
    (s : Bytes) (buf bits : ℕ) → b64decode_loop s buf bits ≡ b64decode_loop (in_alphabet s) buf bits
unfolding in_alphabet known listed
loop-in_alphabet [] buf bits = refl
loop-in_alphabet (c ∷ cs) buf bits =
    let same : known c ≡ listed c = known-listed c in
    elim (Option-cases (val c)) [
      | inl e ↦
          let out : is_listed c alphabet ≡ false = ground (arith, same, e) in
          rw (out, in_alphabet) (loop_skip c cs buf bits e ∙ loop-in_alphabet cs buf bits)
      | inr (v, e) ↦
          let within : is_listed c alphabet ≡ true = ground (arith, same, e) in
          rw (within, in_alphabet)
            (loop_step c v cs buf bits e
              ∙ rw (loop-in_alphabet cs) (sym (loop_step c v (in_alphabet cs) buf bits e)))
    ]

-- `b64decode` gives the same with all characters dropped that `b64encode` does not write for six bits, padding
-- and line breaks too.
pub b64decode-in_alphabet : (s : Bytes) → b64decode s ≡ b64decode (in_alphabet s)
unfolding b64decode
b64decode-in_alphabet s = loop-in_alphabet s 0 0

-- Every entry of the table is a character below 128.
pub tbl-lt : (n : ℕ) → tbl n < 128
unfolding tbl agree_below
tbl-lt n = ground (arith, agree_below→eq (λ k. tbl k / 128) (λ k. 0) 64 refl (n % 64) (omega arith))
