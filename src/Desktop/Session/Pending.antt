-- ===== src/Desktop/Session/Pending.antt =====
-- What waits in `mgmtPending_` after an insertion behind all others, or a removal.
use samryetha_tunnel.Base.{
  ℕ, ◌+◌, ◌≡◌, refl, sym, ap, true, Bool-cases, ◌==◌, inl, inr, some, [], ◌∷◌, if◌then◌else◌, ltb,
  All, arith,
}
use samryetha_tunnel.Base.Dict.{Dict, same, lookup, insert, erase, Sorted}
use samryetha_tunnel.Base.Order.{nat_order}
use samryetha_tunnel.Desktop.Session.Maps.{some_inj}

-- How many of the values are `n`.
unfoldable pub held : ℕ → Dict ℕ ℕ → ℕ
held n [] = 0
held n ((k, v) ∷ m) = (if v == n then 1 else 0) + held n m

pub held-insert :
    (n k v : ℕ) (m : Dict ℕ ℕ)
    → All (λ p. ltb p.0 k ≡ true) m
    → held n (insert k v m) ≡ (if v == n then 1 else 0) + held n m
unfolding held insert
held-insert n k v [] h = refl
held-insert n k v ((j, w) ∷ m) h = ground (arith, held-insert n k v m h.1, h.0)

erase_absent : (k : ℕ) (m : Dict ℕ ℕ) → All (λ p. ltb k p.0 ≡ true) m → erase k m ≡ m
unfolding erase
erase_absent k [] h = refl
erase_absent k ((j, w) ∷ m) h = ground (arith, erase_absent k m h.1, h.0)

pub held-erase :
    (n k v : ℕ) (m : Dict ℕ ℕ)
    → Sorted m
    → lookup k m ≡ some v
    → (if v == n then 1 else 0) + held n (erase k m) ≡ held n m
unfolding held erase lookup
held-erase n k v [] s l = absurd (cc (l))
held-erase n k v ((j, w) ∷ m) s l = elim (Bool-cases (same j k)) [
  | inl e ↦
      let l' : some w ≡ some v = rw e at l in
      let here : j ≡ k = ground (arith, e) in
      rw (e, erase_absent k m (rw here at s.0))
        (ap (λ x. (if x == n then 1 else 0) + held n m) (some_inj (sym l')))
  | inr e ↦
      let l' : lookup k m ≡ some v = rw e at l in rw e (omega (arith, held-erase n k v m s.1 l'))
]

pub erase-All : (P : ℕ × ℕ → Type 0) (k : ℕ) (m : Dict ℕ ℕ) → All P m → All P (erase k m)
unfolding erase
erase-All P k [] h = tt
erase-All P k ((j, w) ∷ m) h = elim (Bool-cases (same j k)) [
  | inl e ↦ rw e (erase-All P k m h.1)
  | inr e ↦ rw e (h.0, erase-All P k m h.1)
]

pub erase-Sorted : (k : ℕ) (m : Dict ℕ ℕ) → Sorted m → Sorted (erase k m)
unfolding erase
erase-Sorted k [] s = tt
erase-Sorted k ((j, w) ∷ m) s = elim (Bool-cases (same j k)) [
  | inl e ↦ rw e (erase-Sorted k m s.1)
  | inr e ↦ rw e (erase-All (λ p. ltb j p.0 ≡ true) k m s.0, erase-Sorted k m s.1)
]
