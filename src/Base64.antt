-- ===== src/Base64.antt =====
-- tunnel-lite/src/util.hpp: base64.
pub mod Laws
use samryetha_tunnel.Base.{
  ℕ, zero, suc, ◌+◌, ◌-◌, ◌*◌, ◌/◌, ◌%◌, ◌^◌, Option, none, some, List, [], ◌∷◌, ◌++◌, ◌&&◌,
  if◌then◌else◌, leb, ◌==◌,
}
use samryetha_tunnel.Base.Text.{Bytes, codes}

abbrev pub alphabet : Bytes
alphabet = codes "ABCDEFGHIJKLMNOPQRSTUVWXYZabcdefghijklmnopqrstuvwxyz0123456789+/"

nth : Bytes → ℕ → ℕ
nth [] i = 0
nth (x ∷ xs) zero = x
nth (x ∷ xs) (suc i) = nth xs i

-- `tbl[n & 63]`
unfoldable pub tbl : ℕ → ℕ
unfolding nth
tbl n = nth alphabet (n % 64)

-- The bytes are below 256, so `|` of the shifted bytes is their sum, and `n >> k` is `n / 2 ^ k`.
unfoldable pub b64encode : Bytes → Bytes
b64encode [] = []
b64encode (a ∷ []) = let n = a * 2 ^ 16 in tbl (n / 2 ^ 18) ∷ tbl (n / 2 ^ 12) ∷ b'=' ∷ b'=' ∷ []
b64encode (a ∷ b ∷ []) =
    let n = a * 2 ^ 16 + b * 2 ^ 8 in
    tbl (n / 2 ^ 18) ∷ tbl (n / 2 ^ 12) ∷ tbl (n / 2 ^ 6) ∷ b'=' ∷ []
b64encode (a ∷ b ∷ c ∷ rest) =
    let n = a * 2 ^ 16 + b * 2 ^ 8 + c in
    tbl (n / 2 ^ 18) ∷ tbl (n / 2 ^ 12) ∷ tbl (n / 2 ^ 6) ∷ tbl n ∷ b64encode rest

-- The lambda `val`; `none` is its -1.
unfoldable pub val : ℕ → Option ℕ
val c =
    if leb b'A' c && leb c b'Z'
    then some (c - b'A')
    else if leb b'a' c && leb c b'z'
    then some (c - b'a' + 26)
    else if leb b'0' c && leb c b'9'
    then some (c - b'0' + 52)
    else if c == b'+'
    then some 62
    else if c == b'/'
    then some 63
    else none

-- The loop over the characters; the result is what it still pushes to `out`. `buf` is an int that
-- keeps its low 32 bits, of which the code reads at most the low 14.
unfoldable pub b64decode_loop : Bytes → ℕ → ℕ → Bytes
b64decode_loop [] buf bits = []
b64decode_loop (c ∷ cs) buf bits = elim (val c) [
  | none ↦ b64decode_loop cs buf bits
  | some v ↦
      let buf' = (buf * 2 ^ 6 + v) % 2 ^ 32 in
      let bits' = bits + 6 in
      let rest = b64decode_loop cs buf' (if leb 8 bits' then bits' - 8 else bits') in
      if leb 8 bits' then (buf' / 2 ^ (bits' - 8) % 256) ∷ rest else rest
]

unfoldable pub b64decode : Bytes → Bytes
unfolding b64decode_loop
b64decode s = b64decode_loop s 0 0
