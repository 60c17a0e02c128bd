-- ===== src/Base/Order.antt =====
-- Strict orders, as `std::less` gives them: numbers, and byte strings compared from the front.
use Prim.Native.Nat.{ℕ}
use mathlib.Core.Path.{◌≡◌, refl}
use mathlib.Core.Bool.{Bool, true, false}
use mathlib.Core.List.{List, [], ◌∷◌}
use native.Mathlib.Omega.{arith}
use samryetha_tunnel.Base.Tests.{ltb}

pub record Order {ℓ} (K : Type ℓ) : Type ℓ where
  pub less : K → K → Bool
  pub less_irrefl : (a : K) → less a a ≡ false
  pub less_trans : (a b c : K) → less a b ≡ true → less b c ≡ true → less a c ≡ true
  pub less_connex : (a b : K) → less a b ≡ false → less b a ≡ false → a ≡ b

pub nat_irrefl : (a : ℕ) → ltb a a ≡ false
nat_irrefl a = ground arith

pub nat_trans : (a b c : ℕ) → ltb a b ≡ true → ltb b c ≡ true → ltb a c ≡ true
nat_trans a b c h k = ground arith

pub nat_connex : (a b : ℕ) → ltb a b ≡ false → ltb b a ≡ false → a ≡ b
nat_connex a b h k = ground arith

instance abbrev pub nat_order : Order ℕ
nat_order = record {
  less = ltb;
  less_irrefl = nat_irrefl;
  less_trans = nat_trans;
  less_connex = nat_connex;
}

-- `std::string::operator<`: the first byte that differs decides, and a proper prefix is smaller.
unfoldable pub bytes_less : List ℕ → List ℕ → Bool
bytes_less xs [] = false
bytes_less [] (y ∷ ys) = true
bytes_less (x ∷ xs) (y ∷ ys) =
    let rest = bytes_less xs ys in
    elim (ltb x y) [ true ↦ true | false ↦ elim (ltb y x) [ true ↦ false | false ↦ rest ] ]

pub bytes_irrefl : (a : List ℕ) → bytes_less a a ≡ false
unfolding bytes_less
bytes_irrefl [] = refl
bytes_irrefl (x ∷ xs) = ground (arith, bytes_irrefl xs)

pub bytes_trans :
    (a b c : List ℕ) → bytes_less a b ≡ true → bytes_less b c ≡ true → bytes_less a c ≡ true
unfolding bytes_less
bytes_trans a b [] h k = ground arith
bytes_trans a [] (z ∷ c) h k = ground arith
bytes_trans [] (y ∷ b) (z ∷ c) h k = refl
bytes_trans (x ∷ a) (y ∷ b) (z ∷ c) h k = ground (arith, bytes_trans a b c)

pub bytes_connex : (a b : List ℕ) → bytes_less a b ≡ false → bytes_less b a ≡ false → a ≡ b
unfolding bytes_less
bytes_connex [] [] h k = refl
bytes_connex [] (y ∷ b) h k = ground arith
bytes_connex (x ∷ a) [] h k = ground arith
bytes_connex (x ∷ a) (y ∷ b) h k = ground (arith, bytes_connex a b)

instance abbrev pub bytes_order : Order (List ℕ)
bytes_order = record {
  less = bytes_less;
  less_irrefl = bytes_irrefl;
  less_trans = bytes_trans;
  less_connex = bytes_connex;
}
