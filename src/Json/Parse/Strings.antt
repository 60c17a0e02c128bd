-- ===== src/Json/Parse/Strings.antt =====
-- Strings and numbers of a JSON text, as `dump` prints them and `J::parse` reads them.
use samryetha_tunnel.Base.{
  ℕ, suc, ◌/◌, ◌%◌, ◌≡◌, ◌<◌, refl, ap, ◌∙◌, true, false, Bool-cases, inl, inr, [], ◌∷◌, ◌++◌,
  append_assoc, ◌==◌, ltb, leb, length, All, arith,
}
use samryetha_tunnel.Base.Bits.{agree_below, agree_below→eq}
use samryetha_tunnel.Base.Text.{Bytes, lower}
use samryetha_tunnel.Base.Int.{is_digit}
use samryetha_tunnel.Json.Print.{hex_digit, escape, escape_all}
use samryetha_tunnel.Json.Parse.{
  is_ws, hex_number, utf8, unescape, one_char, parse_chars, is_number_char, span_number,
}

-- The four digits of a control character.
pub control_digits :
    (c : ℕ) → c < 32 → hex_number 0 (b'0' ∷ b'0' ∷ hex_digit (c / 16) ∷ hex_digit (c % 16) ∷ []) ≡ c
unfolding agree_below hex_number hex_digit is_digit lower
control_digits c h =
    agree_below→eq (λ c. hex_number 0 (b'0' ∷ b'0' ∷ hex_digit (c / 16) ∷ hex_digit (c % 16) ∷ []))
      (λ c. c) 32 refl c h

-- A string goes on with `c`.
abbrev pub cons_char : ℕ → Bytes × Bytes → Bytes × Bytes
cons_char c p = (c ∷ p.0, p.1)

pub plain_char :
    (c : ℕ) (t : Bytes)
    → (c == b'"') ≡ false
    → (c == b'\\') ≡ false
    → parse_chars 0 (c ∷ t) ≡ cons_char c (parse_chars 0 t)
unfolding parse_chars one_char
plain_char c [] h g = rw h refl
plain_char c (e ∷ t) h g = rw (h, g) refl

-- A backslash and what stands for a character behind it.
pub escaped :
    (e : ℕ) (t s : Bytes) (used : ℕ)
    → unescape e t ≡ (s, used)
    → parse_chars 0 (b'\\' ∷ e ∷ t)
      ≡ (s ++ (parse_chars used (e ∷ t)).0, (parse_chars used (e ∷ t)).1)
unfolding parse_chars one_char
escaped e t s used h = rw h refl

pub control_escape :
    (c : ℕ) (t : Bytes)
    → c < 32
    → unescape b'u' (b'0' ∷ b'0' ∷ hex_digit (c / 16) ∷ hex_digit (c % 16) ∷ t) ≡ (c ∷ [], 5)
unfolding unescape
control_escape c t h =
    let low : ltb c 0x80 ≡ true = ground arith in
    let room : leb 4 (suc (suc (suc (suc (length t))))) ≡ true = ground arith in
    rw (room, control_digits c h) (rw (low, utf8) refl)

pub control_char :
    (c : ℕ) (t : Bytes)
    → c < 32
    → parse_chars 0 (b'\\' ∷ b'u' ∷ b'0' ∷ b'0' ∷ hex_digit (c / 16) ∷ hex_digit (c % 16) ∷ t)
      ≡ cons_char c (parse_chars 0 t)
unfolding parse_chars
control_char c t h =
    escaped b'u' (b'0' ∷ b'0' ∷ hex_digit (c / 16) ∷ hex_digit (c % 16) ∷ t) (c ∷ []) 5
      (control_escape c t h)

pub short_escape :
    (c e : ℕ) (t : Bytes)
    → unescape e t ≡ (c ∷ [], 1)
    → parse_chars 0 (b'\\' ∷ e ∷ t) ≡ cons_char c (parse_chars 0 t)
unfolding parse_chars
short_escape c e t h = escaped e t (c ∷ []) 1 h

pub escape-read :
    (c : ℕ) (t : Bytes) → parse_chars 0 (escape c ++ t) ≡ cons_char c (parse_chars 0 t)
unfolding escape
escape-read c t = elim (Bool-cases (c == b'"')) [
  | inl e ↦
      let same : c ≡ b'"' = ground arith in
      rw same (short_escape b'"' b'"' t (unfold unescape in refl))
  | inr quote ↦ elim (Bool-cases (c == b'\\')) [
    | inl e ↦
        let same : c ≡ b'\\' = ground arith in
        rw same (short_escape b'\\' b'\\' t (unfold unescape in refl))
    | inr slash ↦ elim (Bool-cases (c == 10)) [
      | inl e ↦
          let same : c ≡ 10 = ground arith in
          rw same (short_escape 10 b'n' t (unfold unescape in refl))
      | inr newline ↦ elim (Bool-cases (c == 13)) [
        | inl e ↦
            let same : c ≡ 13 = ground arith in
            rw same (short_escape 13 b'r' t (unfold unescape in refl))
        | inr return ↦ elim (Bool-cases (c == 9)) [
          | inl e ↦
              let same : c ≡ 9 = ground arith in
              rw same (short_escape 9 b't' t (unfold unescape in refl))
          | inr tab ↦ elim (Bool-cases (ltb c 0x20)) [
            | inl e ↦ rw (quote, slash, newline, return, tab, e) (control_char c t (ground arith))
            | inr e ↦ rw (quote, slash, newline, return, tab, e) (plain_char c t quote slash)
          ]
        ]
      ]
    ]
  ]
]

pub write_str-read : (s rest : Bytes) → parse_chars 0 (escape_all s ++ b'"' ∷ rest) ≡ (s, rest)
unfolding escape_all
write_str-read [] rest = unfold parse_chars in refl
write_str-read (c ∷ s) rest =
    rw (append_assoc (escape c) (escape_all s) (b'"' ∷ rest))
      (escape-read c (escape_all s ++ b'"' ∷ rest) ∙ ap (cons_char c) (write_str-read s rest))

-- A character of a number ends neither white space nor any other kind of value.
pub number_char-facts :
    (c : ℕ)
    → is_number_char c ≡ true
    → (is_ws c ≡ false)
      × ((c == b'{') ≡ false)
      × ((c == b'[') ≡ false)
      × ((c == b'"') ≡ false)
      × ((b't' == c) ≡ false)
      × ((b'f' == c) ≡ false)
      × ((b'n' == c) ≡ false)
unfolding is_number_char is_ws is_digit
number_char-facts c h = (
  ground arith,
  ground arith,
  ground arith,
  ground arith,
  ground arith,
  ground arith,
  ground arith,
)

-- What may stand behind a value: nothing that goes on with a number.
abbrev pub Stops : Bytes → Type 0
Stops [] = Unit
Stops (c ∷ r) = is_number_char c ≡ false

pub span_number-append :
    (digits rest : Bytes)
    → All (λ c. is_number_char c ≡ true) digits
    → Stops rest
    → span_number (digits ++ rest) ≡ (digits, rest)
unfolding span_number
span_number-append [] [] h s = refl
span_number-append [] (c ∷ r) h s = rw s refl
span_number-append (d ∷ ds) rest h s = rw (h.0, span_number-append ds rest h.1 s) refl
