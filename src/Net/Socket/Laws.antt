-- ===== src/Net/Socket/Laws.antt =====
-- How the bytes are cut into chunks, and the timeouts between them, make no difference.
use samryetha_tunnel.Base.{
  ℕ, zero, suc, ◌-◌, ◌≤◌, ◌≡◌, refl, true, false, Option, none, some, List, [], ◌∷◌, ◌++◌, length,
  take, drop, leb, if◌then◌else◌, arith, length-append, ap, Bool-cases, inl, inr,
}
use samryetha_tunnel.Base.Text.{Bytes}
use samryetha_tunnel.Net.Socket.{Event, arrive, timeout, prepend, read_exact}

-- The bytes that can still be read: those that arrive before a timeout meets the stop flag.
abbrev pub incoming : List Event → Bytes
incoming [] = []
incoming (arrive chunk ∷ es) = chunk ++ incoming es
incoming (timeout true ∷ es) = []
incoming (timeout false ∷ es) = incoming es

-- Reading from a plain text.
unfoldable pub read_plain : ℕ → Bytes → Option (Bytes × Bytes)
read_plain n s = if leb n (length s) then some (take n s, drop n s) else none

-- A result over events, with what can be read afterwards.
abbrev pub flat : Option (Bytes × List Event) → Option (Bytes × Bytes)
flat none = none
flat (some (got, es)) = some (got, incoming es)

take_append_le : (n : ℕ) (xs ys : Bytes) → n ≤ length xs → take n (xs ++ ys) ≡ take n xs
take_append_le zero xs ys h = refl
take_append_le (suc n) [] ys h = absurd (omega arith)
take_append_le (suc n) (x ∷ xs) ys h = ap (◌∷◌ x) (take_append_le n xs ys (omega arith))

drop_append_le : (n : ℕ) (xs ys : Bytes) → n ≤ length xs → drop n (xs ++ ys) ≡ drop n xs ++ ys
drop_append_le zero xs ys h = refl
drop_append_le (suc n) [] ys h = absurd (omega arith)
drop_append_le (suc n) (x ∷ xs) ys h = drop_append_le n xs ys (omega arith)

take_append_ge :
    (n : ℕ) (xs ys : Bytes) → length xs ≤ n → take n (xs ++ ys) ≡ xs ++ take (n - length xs) ys
take_append_ge n [] ys h = let e : n - 0 ≡ n = omega arith in rw e
take_append_ge zero (x ∷ xs) ys h = absurd (omega arith)
take_append_ge (suc n) (x ∷ xs) ys h =
    let e : suc n - suc (length xs) ≡ n - length xs = omega arith in
    rw e (ap (◌∷◌ x) (take_append_ge n xs ys (omega arith)))

drop_append_ge :
    (n : ℕ) (xs ys : Bytes) → length xs ≤ n → drop n (xs ++ ys) ≡ drop (n - length xs) ys
drop_append_ge n [] ys h = let e : n - 0 ≡ n = omega arith in rw e
drop_append_ge zero (x ∷ xs) ys h = absurd (omega arith)
drop_append_ge (suc n) (x ∷ xs) ys h =
    let e : suc n - suc (length xs) ≡ n - length xs = omega arith in
    rw e (drop_append_ge n xs ys (omega arith))

flat-prepend :
    (chunk s : Bytes) (n : ℕ) (r : Option (Bytes × List Event))
    → length chunk ≤ n
    → flat r ≡ read_plain (n - length chunk) s
    → flat (prepend chunk r) ≡ read_plain n (chunk ++ s)
unfolding read_plain
flat-prepend chunk s n none h e = ground (arith, length-append chunk s)
flat-prepend chunk s n (some (more, es)) h e =
    ground (arith, length-append chunk s, take_append_ge n chunk s h, drop_append_ge n chunk s h)

-- `readExact` returns the next `n` bytes of the stream, or fails where there are fewer, whatever the
-- chunks and the timeouts are; what it leaves is the stream behind them.
pub read_exact-flat :
    (n : ℕ) (es : List Event) → flat (read_exact n es) ≡ read_plain n (incoming es)
unfolding read_exact read_plain
read_exact-flat zero es = ground arith
read_exact-flat (suc n) [] = ground arith
read_exact-flat (suc n) (timeout true ∷ es) = ground arith
read_exact-flat (suc n) (timeout false ∷ es) = read_exact-flat (suc n) es
read_exact-flat (suc n) (arrive chunk ∷ es) = elim (Bool-cases (leb (suc n) (length chunk))) [
  | inl e ↦
      rw (e, flat)
        (ground (
          arith,
          length-append chunk (incoming es),
          take_append_le (suc n) chunk (incoming es) (ground arith),
          drop_append_le (suc n) chunk (incoming es) (ground arith),
        ))
  | inr e ↦ rw e (
      flat-prepend chunk (incoming es) (suc n) (read_exact (suc n - length chunk) es) (ground arith)
        (read_exact-flat (suc n - length chunk) es))
]
