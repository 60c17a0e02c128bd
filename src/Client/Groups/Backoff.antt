-- ===== src/Client/Groups/Backoff.antt =====
-- The waits between two tries.
use samryetha_tunnel.Base.{
  ℕ, zero, suc, ◌*◌, ◌^◌, ◌≡◌, ◌≤◌, refl, sym, ap, ◌∙◌, min, Bool, true, false, List, [], ◌∷◌,
  arith, leb, Bool-cases, inl, inr,
}
use native.Mathlib.Nat.{mul_assoc, mul-le-mul_right}
use native.Mathlib.Omega.{pow_step}
use samryetha_tunnel.Client.Groups.{next_backoff, backoff_after}

next_backoff-bounds : (c : Bool) (b : ℕ) → 1 ≤ b → (1 ≤ next_backoff c b) × (next_backoff c b ≤ 30)
unfolding next_backoff
next_backoff-bounds true b h = (omega arith, omega arith)
next_backoff-bounds false b h = (omega (arith, h), omega arith)

-- From a wait between one and 30 seconds, a wait stays at least one second and at most 30, whichever tries fail
-- or get a connection.
pub backoff_after-bounds :
    (tries : List Bool) (b : ℕ)
    → 1 ≤ b
    → b ≤ 30
    → (1 ≤ backoff_after tries b) × (backoff_after tries b ≤ 30)
unfolding backoff_after
backoff_after-bounds [] b low high = (low, high)
backoff_after-bounds (c ∷ cs) b low high =
    let (l, h) = next_backoff-bounds c b low in backoff_after-bounds cs (next_backoff c b) l h

unfoldable pub failures : ℕ → List Bool
failures zero = []
failures (suc n) = false ∷ failures n

one_le_power : (n : ℕ) → 1 ≤ 2 ^ n
one_le_power zero = omega arith
one_le_power (suc n) = omega (arith, one_le_power n, pow_step 2 n)

doubled : (b n : ℕ) → b * 2 * 2 ^ n ≡ b * 2 ^ suc n
doubled b n = mul_assoc b 2 (2 ^ n) ∙ ap (λ x. b * x) (sym (pow_step 2 n))

-- A cap of the first factor is a cap of the product.
capped : (x p : ℕ) → 1 ≤ p → min (min x 30 * p) 30 ≡ min (x * p) 30
capped x p h = elim (Bool-cases (leb x 30)) [
  | inl e ↦ let low : min x 30 ≡ x = ground arith in rw low refl
  | inr e ↦
      let high : min x 30 ≡ 30 = ground arith in
      let big : 30 * p ≤ x * p = mul-le-mul_right p (ground arith) in
      rw high (omega (arith, h, big))
]

-- From a wait of at most 30 seconds, each failure in a row doubles the wait, up to 30 seconds.
pub backoff_after-failures : (n b : ℕ) → b ≤ 30 → backoff_after (failures n) b ≡ min (b * 2 ^ n) 30
unfolding backoff_after next_backoff failures
backoff_after-failures zero b h = omega (arith, h)
backoff_after-failures (suc n) b h =
    backoff_after-failures n (min (b * 2) 30) (omega arith)
    ∙ capped (b * 2) (2 ^ n) (one_le_power n)
    ∙ ap (λ x. min x 30) (doubled b n)
