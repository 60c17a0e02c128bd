-- ===== src/Net/Frame/Laws.antt =====
-- Frames read back from the bytes of a stream.
use Prim.Native.Nat.{bit_and}
use native.Mathlib.Decide.{ℕ_discrete}
use samryetha_tunnel.Base.{
  ℕ, zero, suc, ◌+◌, ◌/◌, ◌%◌, ◌^◌, ◌<◌, ◌≡◌, refl, ap, sym, ◌∙◌, Bool, true, false, not, Option,
  none, some, [], ◌∷◌, ◌++◌, ◌==◌, length, if◌then◌else◌, arith, ltb, leb, take-append, drop-append,
  length-append, Bool-cases, ◌⊎◌, inl, inr,
}
use samryetha_tunnel.Base.Bits.{agree_below, agree_below→eq, low_bits, top_bit}
use samryetha_tunnel.Base.Text.{Bytes}
use samryetha_tunnel.Net.Socket.Laws.{read_plain}
use samryetha_tunnel.Net.Frame.Mask.{mask_payload}
use samryetha_tunnel.Net.Frame.Send.{big_endian}
use samryetha_tunnel.Net.Frame.Receive.{
  from_big_endian, read_length, read_some, read_mask, read_frame,
}

pub low_four : (b : ℕ) → b < 256 → bit_and b 0x0F ≡ b % 16
unfolding agree_below ℕ_discrete
low_four = agree_below→eq _ _ 256 refl

from_big_endian-big_endian : (len : ℕ) → len < 2 ^ 64 → from_big_endian 0 (big_endian 8 len) ≡ len
unfolding from_big_endian big_endian
from_big_endian-big_endian len h = omega arith

length-big_endian : (k len : ℕ) → length (big_endian k len) ≡ k
unfolding big_endian
length-big_endian zero len = refl
length-big_endian (suc k) len = ap suc (length-big_endian k len)

pub read_plain-append :
    (xs s : Bytes) (n : ℕ) → n ≡ length xs → read_plain n (xs ++ s) ≡ some (xs, s)
unfolding read_plain
read_plain-append xs s n e =
    rw e (ground (arith, length-append xs s, take-append xs s, drop-append xs s))

-- How a length goes into the seven bits of the second byte, and the bytes behind it.
unfoldable pub len_code : ℕ → ℕ
len_code len = if ltb len 126 then len else if leb len 0xFFFF then 126 else 127

unfoldable pub len_tail : ℕ → Bytes
len_tail len =
    if ltb len 126
    then []
    else if leb len 0xFFFF
    then (len / 2 ^ 8 % 2 ^ 8) ∷ (len % 2 ^ 8) ∷ []
    else big_endian 8 len

len_code-lt : (len : ℕ) → len_code len < 128
unfolding len_code
len_code-lt len = ground arith

abbrev two_bytes : ℕ → Bytes
two_bytes len = (len / 2 ^ 8 % 2 ^ 8) ∷ (len % 2 ^ 8) ∷ []

len_code_cases :
    (len : ℕ)
    → ((len < 126) × (len_code len ≡ len) × (len_tail len ≡ []))
      ⊎ ((len < 2 ^ 16) × (len_code len ≡ 126) × (len_tail len ≡ two_bytes len))
      ⊎ ((len_code len ≡ 127) × (len_tail len ≡ big_endian 8 len))
unfolding len_code len_tail
len_code_cases len = elim (Bool-cases (ltb len 126)) [
  | inl short ↦ inl (ground arith, rw short, rw short)
  | inr long ↦ elim (Bool-cases (leb len 0xFFFF)) [
    | inl e ↦ inr (inl (ground arith, rw (long, e), rw (long, e)))
    | inr e ↦ inr (inr (rw (long, e), rw (long, e)))
  ]
]

read_length-len_code :
    (len : ℕ) (s : Bytes)
    → len < 2 ^ 64
    → read_length read_plain (len_code len) (len_tail len ++ s)
      ≡ some ((len, length (len_tail len)), s)
unfolding read_length
read_length-len_code len s h = elim (len_code_cases len) [
  | inl (short, c, t) ↦ rw (c, t) (ground arith)
  | inr (inl (mid, c, t)) ↦ rw (c, t) (ground (arith, read_plain-append (two_bytes len) s 2 refl))
  | inr (inr (c, t)) ↦
      rw (c, t)
        (ground (
          arith,
          read_plain-append (big_endian 8 len) s 8 (sym (length-big_endian 8 len)),
          from_big_endian-big_endian len h,
          length-big_endian 8 len,
        ))
]

-- The mask of a frame, if it has one.
abbrev MaskFits : Bool → Bytes → Type 0
MaskFits true mask = length mask ≡ 4
MaskFits false mask = mask ≡ []

abbrev unmask : Bool → Bytes → Bytes → Bytes
unmask true mask body = mask_payload mask body
unmask false mask body = body

abbrev mask_bit : Bool → ℕ
mask_bit masked = if masked then 128 else 0

read_mask-MaskFits :
    (masked : Bool) (mask s : Bytes)
    → MaskFits masked mask
    → (m : Bytes) × (read_mask read_plain masked (mask ++ s) ≡ some (m, s))
      × ((body : Bytes) → (if masked then mask_payload m body else body) ≡ unmask masked mask body)
      × ((if masked then 4 else 0) ≡ length mask)
unfolding read_mask
read_mask-MaskFits true mask s h = (mask, read_plain-append mask s 4 (sym h), λ body. refl, sym h)
read_mask-MaskFits false mask s h = (0 ∷ 0 ∷ 0 ∷ 0 ∷ [], rw h, λ body. refl, rw h)

read_some-append :
    (body s : Bytes) → read_some read_plain (length body) (body ++ s) ≡ some (body, s)
unfolding read_some
read_some-append [] s = refl
read_some-append (b ∷ body) s =
    ground (arith, read_plain-append (b ∷ body) s (suc (length body)) refl)

second_byte :
    (c : ℕ) (masked : Bool)
    → c < 128
    → (bit_and (c + mask_bit masked) 0x7F ≡ c)
      × (not (bit_and (c + mask_bit masked) 0x80 == 0) ≡ masked)
second_byte c true h =
    ground (arith, low_bits (c + 128) (omega arith), top_bit (c + 128) (omega arith))
second_byte c false h =
    ground (arith, low_bits (c + 0) (omega arith), top_bit (c + 0) (omega arith))

bind_some :
    {A B : Type 0} (r : Option (A × Bytes)) (f : A → Bytes → Option (B × Bytes)) (a : A) (s : Bytes)
    → r ≡ some (a, s)
    → (let x : Option (B × Bytes) = elim r [ none ↦ none | some (a, s') ↦ f a s' ] in x) ≡ f a s
bind_some r f a s e = rw e refl

-- A whole frame, with or without a mask, in front of any text.
pub read_frame_lem :
    (h0 : ℕ) (masked : Bool) (mask body s : Bytes)
    → h0 < 256
    → MaskFits masked mask
    → length body < 2 ^ 64
    → read_frame read_plain (
        h0
        ∷ (len_code (length body) + mask_bit masked)
        ∷ (len_tail (length body) ++ (mask ++ (body ++ s))))
      ≡ some (
        record {
          fin = not (bit_and h0 0x80 == 0);
          opcode = bit_and h0 0x0F;
          payload = unmask masked mask body;
          size = 2 + length (len_tail (length body)) + length mask + length body;
        },
        s,
      )
unfolding read_frame
read_frame_lem h0 masked mask body s hb hm hl =
    let (low, top) = second_byte (len_code (length body)) masked (len_code-lt (length body)) in
    let (m, got, same, four) = read_mask-MaskFits masked mask (body ++ s) hm in
    bind_some _ _ _ _
      (read_plain-append (h0 ∷ (len_code (length body) + mask_bit masked) ∷ []) _ 2 refl)
    ∙ rw (low, top)
        (bind_some _ _ _ _ (read_length-len_code (length body) _ hl)
          ∙ bind_some _ _ _ _ got
          ∙ bind_some _ _ _ _ (read_some-append body s)
          ∙ rw (same body, four))
