-- ===== src/Base/Text.antt =====
-- Byte strings: what the code uses of `std::string`, of `std::getline` and of the C library.
use Prim.Native.Nat.{ℕ, suc, ◌+◌, ◌<◌}
use Prim.Native.Char.{code}
use Prim.Native.String.{String}
use mathlib.Core.Path.{◌≡◌, refl}
use mathlib.Core.Logic.{◌≢◌}
use mathlib.Core.Bool.{Bool, true, false, ◌&&◌}
use mathlib.Core.Option.{Option, none, some}
use mathlib.Core.List.{List, [], ◌∷◌, ◌++◌, map}
use native.Mathlib.Omega.{arith}
use samryetha_tunnel.Base.Tests.{◌==◌, leb, if◌then◌else◌}
use samryetha_tunnel.Base.Lists.{All, length}

-- A `std::string` is the list of its bytes.
abbrev pub Bytes : Type 0
Bytes = List ℕ

abbrev pub IsByte : ℕ → Type 0
IsByte b = b < 256

-- The bytes of an ASCII literal.
abbrev pub codes : String → Bytes
codes String.[] = []
codes (String.◌∷◌ c s) = code c ∷ codes s

unfoldable pub bytes_eq : Bytes → Bytes → Bool
bytes_eq [] [] = true
bytes_eq [] (y ∷ ys) = false
bytes_eq (x ∷ xs) [] = false
bytes_eq (x ∷ xs) (y ∷ ys) = x == y && bytes_eq xs ys

pub bytes_eq→eq : (xs ys : Bytes) → bytes_eq xs ys ≡ true → xs ≡ ys
unfolding bytes_eq
bytes_eq→eq [] [] h = refl
bytes_eq→eq [] (y ∷ ys) h = ground arith
bytes_eq→eq (x ∷ xs) [] h = ground arith
bytes_eq→eq (x ∷ xs) (y ∷ ys) h = ground (arith, bytes_eq→eq xs ys)

pub bytes_eq_refl : (xs : Bytes) → bytes_eq xs xs ≡ true
unfolding bytes_eq
bytes_eq_refl [] = refl
bytes_eq_refl (x ∷ xs) = ground (arith, bytes_eq_refl xs)

unfoldable pub is_empty : Bytes → Bool
is_empty [] = true
is_empty (x ∷ xs) = false

-- `s.find(c)` and `s.rfind(c)`, `none` for `npos`.
unfoldable pub find_byte : ℕ → Bytes → Option ℕ
find_byte c [] = none
find_byte c (x ∷ xs) =
    let later = find_byte c xs in
    if x == c then some 0 else elim later [ none ↦ none | some i ↦ some (suc i) ]

unfoldable pub rfind_byte : ℕ → Bytes → Option ℕ
rfind_byte c [] = none
rfind_byte c (x ∷ xs) = elim (rfind_byte c xs) [
  | some i ↦ some (suc i)
  | none ↦ if x == c then some 0 else none
]

-- `s.rfind(p, 0) == 0`
unfoldable pub starts_with : Bytes → Bytes → Bool
starts_with [] s = true
starts_with (p ∷ ps) [] = false
starts_with (p ∷ ps) (x ∷ xs) = p == x && starts_with ps xs

-- `s.find(p)`, `none` for `npos`.
unfoldable pub find_bytes : Bytes → Bytes → Option ℕ
find_bytes p [] = if is_empty p then some 0 else none
find_bytes p (x ∷ xs) =
    let later = find_bytes p xs in
    if starts_with p (x ∷ xs) then some 0 else elim later [ none ↦ none | some i ↦ some (suc i) ]

unfoldable pub contains : Bytes → Bytes → Bool
contains p s = elim (find_bytes p s) [ none ↦ false | some i ↦ true ]

-- `::tolower` in the C locale, on one byte and on each byte of a string.
unfoldable pub lower : ℕ → ℕ
lower c = if leb b'A' c && leb c b'Z' then c + 32 else c

unfoldable pub to_lower : Bytes → Bytes
unfolding lower
to_lower = map lower

push_front : ℕ → List Bytes → List Bytes
push_front x [] = (x ∷ []) ∷ []
push_front x (p ∷ ps) = (x ∷ p) ∷ ps

-- `while (std::getline(ss, part, c))`: nothing comes after a separator that stands last.
unfoldable pub getline_parts : ℕ → Bytes → List Bytes
unfolding push_front
getline_parts c [] = []
getline_parts c (x ∷ xs) =
    let rest = getline_parts c xs in if x == c then [] ∷ rest else push_front x rest

abbrev pub Without : ℕ → Bytes → Type 0
Without c = All (λ x. x ≢ c)

-- A part without the separator, with the separator behind it, is the first part.
pub getline_parts-cons :
    (c : ℕ) (p s : Bytes) → Without c p → getline_parts c (p ++ c ∷ s) ≡ p ∷ getline_parts c s
unfolding getline_parts
getline_parts-cons c [] s h = ground arith
getline_parts-cons c (x ∷ p) s h = ground (arith, getline_parts-cons c p s h.1)

-- A non-empty last part stands alone.
pub getline_parts_last :
    (c : ℕ) (x : ℕ) (p : Bytes) → Without c (x ∷ p) → getline_parts c (x ∷ p) ≡ (x ∷ p) ∷ []
unfolding getline_parts
getline_parts_last c x [] h = ground arith
getline_parts_last c x (y ∷ p) h = ground (arith, getline_parts_last c y p h.1)

-- The first separator stands right behind a text without it.
pub find_byte-append :
    (c : ℕ) (p s : Bytes) → Without c p → find_byte c (p ++ c ∷ s) ≡ some (length p)
unfolding find_byte
find_byte-append c [] s h = ground arith
find_byte-append c (x ∷ p) s h = ground (arith, find_byte-append c p s h.1)

pub find_byte-none : (c : ℕ) (p : Bytes) → Without c p → find_byte c p ≡ none
unfolding find_byte
find_byte-none c [] h = refl
find_byte-none c (x ∷ p) h = ground (arith, find_byte-none c p h.1)

pub rfind_byte-none : (c : ℕ) (p : Bytes) → Without c p → rfind_byte c p ≡ none
unfolding rfind_byte
rfind_byte-none c [] h = refl
rfind_byte-none c (x ∷ p) h = ground (arith, rfind_byte-none c p h.1)

-- The last separator stands right before a text without it.
pub rfind_byte-append :
    (c : ℕ) (p s : Bytes) → Without c s → rfind_byte c (p ++ c ∷ s) ≡ some (length p)
unfolding rfind_byte
rfind_byte-append c [] s h = ground (arith, rfind_byte-none c s h)
rfind_byte-append c (x ∷ p) s h = ground (arith, rfind_byte-append c p s h)
