-- ===== src/Desktop/Session/Maps.antt =====
-- What a map that was changed holds.
use samryetha_tunnel.Base.{
  ℕ, ◌≡◌, ◌≢◌, ◌⊎◌, refl, sym, ap, ◌∙◌, false, Bool-cases, ◌==◌, inl, inr, Option, Option-cases,
  none, some, arith,
}
use samryetha_tunnel.Base.Dict.{
  Dict, lookup, insert, erase, lookup-insert_self, lookup-insert_ne, lookup-erase_self,
  lookup-erase_ne,
}
use samryetha_tunnel.Base.Order.{nat_order}
use samryetha_tunnel.Desktop.Client.{Object, detach}

pub ℕ-cases : (a b : ℕ) → (a ≡ b) ⊎ (a ≢ b)
ℕ-cases a b = elim (Bool-cases (a == b)) [
  | inl e ↦ inl (ground arith)
  | inr e ↦ inr (λ p. ground (arith, p))
]

pub some_inj {ℓ} : {A : Type ℓ} {a b : A} → some a ≡ some b → a ≡ b
some_inj {A} {a} e = ap (λ x. get x) e
  where
    get : Option A → A
    get none = a
    get (some x) = x

module _ {V : Type 0} where
  pub erase_inv :
      (k j : ℕ) (m : Dict ℕ V) (v : V)
      → lookup j (erase k m) ≡ some v
      → (lookup j m ≡ some v) × (k ≢ j)
  erase_inv k j m v e = elim (ℕ-cases k j) [
    | inl p ↦
        let gone : lookup j (erase k m) ≡ none = rw p (lookup-erase_self j m) in
        absurd (cc (gone, e))
    | inr p ↦ (sym (lookup-erase_ne k j m p) ∙ e, p)
  ]

  pub insert_inv :
      (k j : ℕ) (v : V) (m : Dict ℕ V) (w : V)
      → lookup j (insert k v m) ≡ some w
      → ((k ≡ j) × (w ≡ v)) ⊎ ((k ≢ j) × (lookup j m ≡ some w))
  insert_inv k j v m w e = elim (ℕ-cases k j) [
    | inl p ↦
        let self : lookup j (insert k v m) ≡ some v = rw p (lookup-insert_self j v m) in
        inl (p, some_inj (sym e ∙ self))
    | inr p ↦ inr (p, sym (lookup-insert_ne k j v m p) ∙ e)
  ]

-- A forwarder after forwarder `h` was given up: it was there, and if it is still attached, it is another.
pub lookup-detach :
    (h k : ℕ) (objects : Dict ℕ Object) (o : Object)
    → lookup k (detach h objects) ≡ some o
    → (p : Object) × (lookup k objects ≡ some p)
      × (o.fwd ≡ p.fwd)
      × ((o.attached ≡ false) ⊎ ((h ≢ k) × (o ≡ p)))
unfolding detach
lookup-detach h k objects o e = elim (Option-cases (lookup h objects)) [
  | inl n ↦
      let e' : lookup k objects ≡ some o = rw (n, detach) at e in
      (o, e', refl, inr (λ p. cc (p, n, e'), refl))
  | inr (x, n) ↦
      let e' : lookup k (insert h (record x { attached = false }) objects) ≡ some o =
        rw (n, detach) at e in
      elim (insert_inv h k (record x { attached = false }) objects o e') [
        | inl (p, q) ↦
            (x, rw p at n, ap (λ (y : Object). y.fwd) q, inl (ap (λ (y : Object). y.attached) q))
        | inr (p, q) ↦ (o, q, refl, inr (p, refl))
      ]
]
