-- ===== src/Wire/Bounds.antt =====
-- What R does on any frame, well formed or not.
use samryetha_tunnel.Base.{
  ℕ, zero, suc, ◌+◌, ◌*◌, ◌%◌, ◌^◌, ◌<◌, ◌≤◌, ◌≡◌, refl, some, [], ◌∷◌, length, get_elem?, ltb,
  ◌==◌, arith, Bool-cases, ◌⊎◌, inl, inr,
}
use samryetha_tunnel.Base.Dict.{Dict, insert}
use samryetha_tunnel.Base.Text.{Bytes}
use samryetha_tunnel.Wire.Result.{
  Result, ok, err, Fault, truncated, varint_overflow, out_of_range, out_of_bounds, stuck,
}
use samryetha_tunnel.Wire.Reader
use Prim.Native.Nat.{bit_and}
use samryetha_tunnel.Base.Order.{bytes_order}
use samryetha_tunnel.Wire.Reader.{Read, ◌>>=◌, ◌>>◌}

-- What R itself throws.
abbrev pub IsThrown : Fault → Type 0
IsThrown truncated = Unit
IsThrown varint_overflow = Unit
IsThrown out_of_range = ⊥
IsThrown out_of_bounds = ⊥
IsThrown stuck = ⊥

-- A reader ended in `P`, or threw.
abbrev pub Ends : {A : Type 0} → (A → ℕ → Type 0) → Result (A × ℕ) → Type 0
Ends P (ok (a, j)) = P a j
Ends P (err e) = IsThrown e

pub >>=-Ends :
    {A B : Type 0} (P : A → ℕ → Type 0) (Q : B → ℕ → Type 0) (m : Read A) (f : A → Read B) (i : ℕ)
    → Ends P (m i)
    → ((a : A) (j : ℕ) → P a j → Ends Q (f a j))
    → Ends Q ((m >>= f) i)
>>=-Ends {A} {B} P Q m f i hm hf = go (m i) hm
  where
    go :
        (r : Result (A × ℕ))
        → Ends P r
        → Ends Q (let x : Result (B × ℕ) = elim r [ err e ↦ err e | ok (a, j) ↦ f a j ] in x)
    go (ok (a, j)) w = hf a j w
    go (err e) w = w

Result-cases {ℓ} :
    {A : Type ℓ} (r : Result (A × ℕ))
    → ((a : A) × (j : ℕ) × (r ≡ ok (a, j))) ⊎ ((e : Fault) × (r ≡ err e))
Result-cases (ok (a, j)) = inl (a, j, refl)
Result-cases (err e) = inr (e, refl)

get_elem?-some : (d : Bytes) (i : ℕ) → i < length d → (b : ℕ) × (get_elem? d i ≡ some b)
get_elem?-some [] i h = absurd (omega arith)
get_elem?-some (x ∷ d) zero h = (x, refl)
get_elem?-some (x ∷ d) (suc i) h = get_elem?-some d i (omega arith)

module _ (d : Bytes) (small : length d < 2 ^ 63) where
  -- The reader ends in the frame whatever follows.
  abbrev pub Stays : {A : Type 0} → Read A → Type 0
  Stays m = (i : ℕ) → i ≤ length d → Ends (λ a j. j ≤ length d) (m i)

  pub >>=-Stays :
      {A B : Type 0} (m : Read A) (f : A → Read B)
      → Stays m
      → ((a : A) → Stays (f a))
      → Stays (m >>= f)
  >>=-Stays m f hm hf i h = >>=-Ends _ _ m f i (hm i h) hf

  need-bound : (n i : ℕ) → Ends (λ a j. (j ≡ i) × ((i + n) % 2 ^ 64 ≤ length d)) (Reader.need d n i)
  unfolding Reader.need
  need-bound n i = elim (Bool-cases (ltb (length d) ((i + n) % 2 ^ 64))) [
    | inl e ↦ rw (e, Reader.need) tt
    | inr e ↦ rw (e, Reader.need) (refl, ground arith)
  ]

  need-Ends :
      {B : Type 0} (Q : B → ℕ → Type 0) (n : ℕ) (f : Unit {0} → Read B) (i : ℕ)
      → ((i + n) % 2 ^ 64 ≤ length d → Ends Q (f tt i))
      → Ends Q ((Reader.need d n >>= f) i)
  unfolding Reader.need
  need-Ends Q n f i h =
      >>=-Ends (λ a j. (j ≡ i) × ((i + n) % 2 ^ 64 ≤ length d)) Q (Reader.need d n) f i
        (need-bound n i) (λ a j p. rw p.0 (h p.1))

  next-Ends :
      (Q : ℕ → ℕ → Type 0) (i : ℕ)
      → i < length d
      → ((b : ℕ) → Q b (i + 1))
      → Ends Q (Reader.next d i)
  unfolding Reader.next
  next-Ends Q i h k = let (b, e) = get_elem?-some d i h in rw (e, Reader.next) (k b)

  pub u8-Stays : Stays (Reader.u8 d)
  unfolding Reader.u8
  u8-Stays i h =
      need-Ends (λ a j. j ≤ length d) 1 (λ _. Reader.next d) i
        λ p. next-Ends (λ a j. j ≤ length d) i (omega arith) (λ b. omega arith)

  pub u16-Stays : Stays (Reader.u16 d)
  unfolding Reader.u16
  u16-Stays i h = need-Ends _ 2 _ i λ p.
      >>=-Ends (λ a j. j ≡ i + 1) _ (Reader.next d) _ i
        (next-Ends (λ a j. j ≡ i + 1) i (omega arith) (λ b. refl))
        λ a j e.
          >>=-Ends (λ b k. k ≤ length d) _ (Reader.next d) _ j
            (next-Ends (λ b k. k ≤ length d) j (omega arith) (λ b. omega arith)) (λ b k h. h)

  varint_round-Stays :
      (more : ℕ → ℕ → Read ℕ) (v shift : ℕ)
      → (shift + 7 ≤ 63 → (v' : ℕ) → Stays (more v' (shift + 7)))
      → Stays (Reader.varint_round d more v shift)
  unfolding Reader.varint_round
  varint_round-Stays more v shift h = >>=-Stays (Reader.u8 d) _ u8-Stays λ b i p.
      elim (Bool-cases (bit_and b 0x80 == 0)) [
        | inl e ↦ rw e p
        | inr e ↦ elim (Bool-cases (ltb 63 (shift + 7))) [
          | inl f ↦ rw (e, f) tt
          | inr f ↦ rw (e, f) (h (ground arith) _ i p)
        ]
      ]

  varint_loop-Stays :
      (rounds v shift : ℕ)
      → shift + 7 * suc rounds ≡ 70
      → Stays (Reader.varint_loop d (suc rounds) v shift)
  unfolding Reader.varint_loop
  varint_loop-Stays zero v shift e =
      varint_round-Stays (Reader.varint_loop d zero) v shift (λ k v'. absurd (omega arith))
  varint_loop-Stays (suc rounds) v shift e =
      varint_round-Stays (Reader.varint_loop d (suc rounds)) v shift
        λ k v'. varint_loop-Stays rounds v' (shift + 7) (omega arith)

  pub varint-Stays : Stays (Reader.varint d)
  unfolding Reader.varint
  varint-Stays = varint_loop-Stays 9 0 0 refl

  -- `str` checks the length that it reads, and the check wraps like the addition that follows it.
  pub str-Stays : Stays (Reader.str d)
  unfolding Reader.str Reader.substr
  str-Stays =
      >>=-Stays (Reader.varint d) _ varint-Stays
        λ n i h. need-Ends (λ a j. j ≤ length d) n _ i λ p. ground arith

  headers_loop-Stays : (n : ℕ) (h : Dict Bytes Bytes) → Stays (Reader.headers_loop d n h)
  unfolding Reader.headers_loop
  headers_loop-Stays zero h = λ i b. b
  headers_loop-Stays (suc n) h =
      >>=-Stays (Reader.str d) _ str-Stays
        λ key. >>=-Stays (Reader.str d) _ str-Stays λ v. headers_loop-Stays n (insert key v h)

  pub headers-Stays : Stays (Reader.headers d)
  unfolding Reader.headers
  headers-Stays = >>=-Stays (Reader.u16 d) _ u16-Stays (λ n. headers_loop-Stays n [])
