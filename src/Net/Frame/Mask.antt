-- ===== src/Net/Frame/Mask.antt =====
-- `byte ^ mask[i % 4]` over a payload.
use Prim.Native.Nat.{bit_xor}
use samryetha_tunnel.Base.{
  ℕ, zero, suc, ◌+◌, ◌%◌, ◌/◌, ◌*◌, ◌<◌, ◌≡◌, refl, sym, ◌∙◌, ap, [], ◌∷◌, length, All, arith,
}
use mathlib.Core.Path.{ap₂}
use native.Mathlib.Decide.{ℕ_discrete}
use samryetha_tunnel.Base.Bits.{agree_below, agree_below→eq}
use samryetha_tunnel.Base.Text.{Bytes, IsByte}

abbrev pub nth : Bytes → ℕ → ℕ
nth [] i = 0
nth (x ∷ xs) zero = x
nth (x ∷ xs) (suc i) = nth xs i

unfoldable pub mask_from : ℕ → Bytes → Bytes → Bytes
mask_from i mask [] = []
mask_from i mask (b ∷ bs) = bit_xor b (nth mask (i % 4)) ∷ mask_from (suc i) mask bs

-- `for (i = 0; i < len; ++i) payload[i] ^ mask[i % 4]`
unfoldable pub mask_payload : Bytes → Bytes → Bytes
unfolding mask_from
mask_payload mask payload = mask_from 0 mask payload

-- All 65536 pairs of bytes, by evaluation.
twice_xor : ℕ → ℕ
twice_xor n = bit_xor (bit_xor (n / 256) (n % 256)) (n % 256)

twice_xor-eq : (n : ℕ) → n < 65536 → twice_xor n ≡ n / 256
unfolding twice_xor agree_below ℕ_discrete
twice_xor-eq = agree_below→eq twice_xor (λ n. n / 256) 65536 refl

xor_twice : (b k : ℕ) → b < 256 → k < 256 → bit_xor (bit_xor b k) k ≡ b
unfolding twice_xor
xor_twice b k hb hk =
    let q : (b * 256 + k) / 256 ≡ b = omega arith in
    let r : (b * 256 + k) % 256 ≡ k = omega arith in
    rw (q, r) at (twice_xor-eq (b * 256 + k) (omega arith))

nth-IsByte : (mask : Bytes) (i : ℕ) → All IsByte mask → nth mask i < 256
nth-IsByte [] i h = omega arith
nth-IsByte (x ∷ xs) zero h = h.0
nth-IsByte (x ∷ xs) (suc i) h = nth-IsByte xs i h.1

mask_from_twice :
    (i : ℕ) (mask p : Bytes)
    → All IsByte mask
    → All IsByte p
    → mask_from i mask (mask_from i mask p) ≡ p
unfolding mask_from
mask_from_twice i mask [] hm hp = refl
mask_from_twice i mask (b ∷ p) hm hp =
    ap₂ ◌∷◌ (xor_twice b (nth mask (i % 4)) hp.0 (nth-IsByte mask (i % 4) hm))
      (mask_from_twice (suc i) mask p hm hp.1)

-- Masking bytes twice with the same mask of bytes gives them back.
pub mask_payload_twice :
    (mask p : Bytes) → All IsByte mask → All IsByte p → mask_payload mask (mask_payload mask p) ≡ p
unfolding mask_payload
mask_payload_twice mask p = mask_from_twice 0 mask p

length-mask_from : (i : ℕ) (mask p : Bytes) → length (mask_from i mask p) ≡ length p
unfolding mask_from
length-mask_from i mask [] = refl
length-mask_from i mask (b ∷ p) = ap suc (length-mask_from (suc i) mask p)

pub length-mask_payload : (mask p : Bytes) → length (mask_payload mask p) ≡ length p
unfolding mask_payload
length-mask_payload mask p = length-mask_from 0 mask p

nth-mask_from :
    (k : ℕ) (mask p : Bytes) (i : ℕ)
    → i < length p
    → nth (mask_from k mask p) i ≡ bit_xor (nth p i) (nth mask ((k + i) % 4))
unfolding mask_from
nth-mask_from k mask [] i h = absurd (omega arith)
nth-mask_from k mask (b ∷ p) zero h = let same : k + 0 ≡ k = omega arith in rw same refl
nth-mask_from k mask (b ∷ p) (suc i) h =
    let same : k + suc i ≡ suc k + i = omega arith in
    rw same (nth-mask_from (suc k) mask p i (omega arith))

-- Masking keeps the length, and each byte of the payload is combined with the byte of the mask at its index
-- modulo four.
pub nth-mask_payload :
    (mask p : Bytes) (i : ℕ)
    → i < length p
    → (length (mask_payload mask p) ≡ length p)
      × (nth (mask_payload mask p) i ≡ bit_xor (nth p i) (nth mask (i % 4)))
unfolding mask_payload
nth-mask_payload mask p i h =
    let same : i ≡ 0 + i = omega arith in
    (
      length-mask_payload mask p,
      nth-mask_from 0 mask p i h ∙ ap (λ k. bit_xor (nth p i) (nth mask (k % 4))) (sym same),
    )
